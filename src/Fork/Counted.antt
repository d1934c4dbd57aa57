-- ===== src/Fork/Counted.antt =====
-- `fork` and the use counts of the file table.
use hios.Base.{
  ℕ, ◌^◌, ◌≤◌, ◌<◌, ◌≡◌, refl, inl, inr, ap, arith, ◌==◌, true, false, Bool-cases, Option, none,
  some, leb,
}
use hios.Run.{ok}
use hios.Mm.Pages.Init.{FreeBelow}
use hios.Mm.Tables.Share.{CanFork}
use hios.Sched.{Task, Tasks}
use hios.System.{System}
use hios.Files.Refs.{row_cong, living, refs, refs-le, refs-change, refs_cong}
use hios.Files.Counted.{IsCounted}
use hios.Fork.{Regs, sys_fork}
use hios.Fork.Memory.{OneRegion, base_of}
use hios.Fork.Child.{Child, NoChild}
use hios.Fork.Syscall.{sys_fork-Child}

abbrev Counted : System → Type 0
Counted s = IsCounted s.proc.task s.files

same_living : (ts ts' : Tasks) (j : ℕ) → ts' j ≡ ts j → living ts' j ≡ living ts j
same_living ts ts' j e = rw (e, living) refl

Child-Counted :
    (nr : ℕ) (r : Regs) (t : Task) (s s' : System)
    → nr < 64
    → s.proc.task nr ≡ none
    → s.proc.task s.proc.current ≡ some t
    → s.proc.current < 64
    → Child nr r t s s'
    → Counted s
    → Counted s'
Child-Counted nr r t s s' lt empty here cur child c = record {
  counts = λ f h.
      let whole =
        refs-change (living s.proc.task) (living s'.proc.task) s.files.filp s'.files.filp f nr 64 lt
          (λ j ne. same_living s.proc.task s'.proc.task j (child.other_tasks j ne))
          (λ j fd ne. child.other_files j fd ne) in
      let before : living s.proc.task nr ≡ false = rw (empty, living) refl in
      let after : living s'.proc.task nr ≡ true = rw (child.task, living) refl in
      let mine = row_cong (s.files.filp s.proc.current) (s'.files.filp nr) f 20 child.same_files in
      ground (
        arith,
        whole,
        before,
        after,
        mine,
        child.counts f,
        c.counts f h,
        refs-le (living s.proc.task) s.files.filp f 64,
      );
  inside = λ k fd f hk hfd l e. elim (Bool-cases (nr == k)) [
    | inl same ↦
        let at : nr ≡ k = ground arith in
        c.inside s.proc.current fd f cur hfd (rw (here, living) refl)
          (ground (arith, child.same_files fd))
    | inr other ↦
        c.inside k fd f hk hfd (ground (arith, child.other_tasks k))
          (ground (arith, child.other_files k fd))
  ];
}

NoChild-Counted : (nr : ℕ) (s s' : System) → NoChild nr s s' → Counted s → Counted s'
NoChild-Counted nr s s' no_child c = record {
  counts = λ f h.
      let e : (s'.files.file_table f).f_count ≡ (s.files.file_table f).f_count =
        ap (λ g. (g f).f_count) no_child.same_tables.0 in
      let whole : refs (living s'.proc.task) s'.files.filp f 64
          ≡ refs (living s.proc.task) s.files.filp f 64 =
        same_refs f in
      ground (arith, e, whole, c.counts f h);
  inside = λ k fd f hk hfd l e. elim (Bool-cases (nr == k)) [
    | inl same ↦ absurd (ground (arith, no_child.no_task))
    | inr other ↦
        c.inside k fd f hk hfd (ground (arith, no_child.same_tasks k))
          (ground (arith, no_child.other_files k fd))
  ];
}
  where
    same_refs :
        (f : ℕ)
        → refs (living s'.proc.task) s'.files.filp f 64
          ≡ refs (living s.proc.task) s.files.filp f 64
    same_refs f = elim (Bool-cases (leb 64 nr)) [
      | inl out ↦
          refs_cong (living s.proc.task) (living s'.proc.task) s.files.filp s'.files.filp f 64
            (λ j lt. same_living s.proc.task s'.proc.task j (no_child.same_tasks j))
            (λ j fd lt. no_child.other_files j fd (ground arith))
      | inr in_table ↦
          let gone : s'.proc.task nr ≡ none = ground (arith, no_child.no_task) in
          let before : living s.proc.task nr ≡ false = ground (arith, no_child.same_tasks nr) in
          let after : living s'.proc.task nr ≡ false = rw (gone, living) refl in
          ground (
            arith,
            before,
            after,
            refs-change (living s.proc.task) (living s'.proc.task) s.files.filp s'.files.filp f nr
                64 (ground arith)
                (λ j ne. same_living s.proc.task s'.proc.task j (no_child.same_tasks j))
                (λ j fd ne. no_child.other_files j fd ne),
          )
    ]

-- `fork` keeps each use count equal to the number of descriptors, whether there is a child or not,
-- under the conditions of `sys_fork-Child`: the memory of the current task can be copied to the region
-- of every empty slot, no page at or above the end of memory counts as free, and the last pid is below
-- 2^31.
pub sys_fork-IsCounted :
    (r : Regs) (s : System) (t : Task)
    → s.proc.task s.proc.current ≡ some t
    → s.proc.current < 64
    → s.last_pid < 2 ^ 31
    → OneRegion t
    → ((nr : ℕ)
        → 1 ≤ nr
        → nr < 64
        → s.proc.task nr ≡ none
        → CanFork t.data_base (base_of nr) t.data_limit s.proc.mm)
    → FreeBelow s.proc.mm
    → IsCounted s.proc.task s.files
    → (pid : Option ℕ) × (s' : System) × (sys_fork 65 r s ≡ some (ok pid s'))
      × IsCounted s'.proc.task s'.files
sys_fork-IsCounted r s t here cur small one can top c =
    elim (sys_fork-Child r s t here small one can top) [
      | inl (pid, nr, s', run, lo, hi, empty, free, child) ↦
          let s1 : System = record s { last_pid = pid } in
          let c1 : Counted s1 = c in
          (some pid, s', run, Child-Counted nr r t s1 s' hi empty here cur child c1)
      | inr (nr, s', run, failed) ↦ (none, s', run, NoChild-Counted nr s s' failed c)
    ]
