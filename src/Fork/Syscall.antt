-- ===== src/Fork/Syscall.antt =====
-- `sys_fork` of kernel/system_call.s: a pid and a slot, and then the child in it.
use hios.Base.{arith, ℕ, ◌≤◌, ◌<◌, ◌≡◌, ◌^◌, refl, ◌⊎◌, inl, inr, false, none, some}
use hios.Run.{ok}
use hios.Mm.Pages.Init.{FreeBelow}
use hios.Mm.Tables.Share.{CanFork}
use hios.Sched.{Task}
use hios.Proc.Exit.{has_pid}
use hios.System.{System}
use hios.Fork.{Regs, sys_fork}
use hios.Fork.Pid.{find_empty_process-IsUnused}
use hios.Fork.Memory.{OneRegion, base_of}
use hios.Fork.Child.{Child, NoChild, copy_process-Child}

pub sys_fork-Child :
    (r : Regs) (s : System) (t : Task)
    → s.proc.task s.proc.current ≡ some t
    → s.last_pid < 2 ^ 31
    → OneRegion t
    → ((nr : ℕ)
        → 1 ≤ nr
        → nr < 64
        → s.proc.task nr ≡ none
        → CanFork t.data_base (base_of nr) t.data_limit s.proc.mm)
    → FreeBelow s.proc.mm
    → ((pid : ℕ) × (nr : ℕ) × (s' : System) × (sys_fork 65 r s ≡ some (ok (some pid) s'))
        × (1 ≤ nr)
        × (nr < 64)
        × (s.proc.task nr ≡ none)
        × ((j : ℕ) → j < 64 → has_pid pid (s.proc.task j) ≡ false)
        × Child nr r t (record s { last_pid = pid }) s')
      ⊎ ((nr : ℕ) × (s' : System) × (sys_fork 65 r s ≡ some (ok none s')) × NoChild nr s s')
unfolding sys_fork
sys_fork-Child r s t here small one can top =
    let (pid, slot, run, lt, free, cases) = find_empty_process-IsUnused s small in
    elim cases [
      | inl (full, all) ↦ inr (
        64,
        record s { last_pid = pid },
        rw (run, full, sys_fork) refl,
        record {
          same_tasks = λ j. refl;
          no_task = inr (omega arith);
          same_current = refl;
          same_counts = λ j. refl;
          same_tables = (refl, refl);
          other_files = λ j fd ne. refl;
        },
      )
      | inr (nr, is, lo, hi, empty, before) ↦
          let s1 = record s { last_pid = pid } in
          elim (copy_process-Child nr r s1 t here empty lo hi one (can nr lo hi empty) top) [
            | inl (s', copies, child) ↦
                inl (pid, nr, s', rw (run, is, copies, sys_fork) refl, lo, hi, empty, free, child)
            | inr (all, s', copies, failed) ↦ inr (
              nr,
              s',
              rw (run, is, copies, sys_fork) refl,
              record {
                same_tasks = failed.same_tasks;
                no_task = failed.no_task;
                same_current = failed.same_current;
                same_counts = failed.same_counts;
                same_tables = failed.same_tables;
                other_files = failed.other_files;
              },
            )
          ]
    ]
