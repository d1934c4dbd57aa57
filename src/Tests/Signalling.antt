-- ===== src/Tests/Signalling.antt =====
-- Tests of `sys_waitpid` and kernel/signal.c.
use hios.Base.{
  ℕ, ◌+◌, ◌*◌, ◌^◌, ◌≤◌, ◌≡◌, refl, ◌⊎◌, arith, ◌==◌, ◌||◌, if◌then◌else◌, true, false, none, some,
}
use hios.Run.{ok, panic, Panic, Cmd}
use hios.Errno.{echild, ret, fail}
use hios.Sched.{Task, zombie, stopped}
use hios.Proc.{Proc, on_slot, field, in_mm}
use hios.Wait.{any_child, wait_pass, set_interruptible}
use hios.Wait.Scan.{child_at, is_busy, Decides, NoneDecides}
use hios.Wait.Pass.{wait_pass-cases}
use hios.Signal.{Signals, Context, oneshot, frame_longs, blocked_of, do_signal}
use hios.Signal.Frame.{action_of, frame_esp, restored, do_signal-restored}
use hios.Fork.{verify_area, verify_pages}
use hios.Mm.Tables.{write_verify}
use hios.Tests.Paging.{memory}
use hios.Tests.Exiting.{a_task}

-- Task 2 is a running child of task 1.
abbrev proc : Proc
proc = record {
  task = λ i. if i == 1 then some (a_task 1 0) else if i == 2 then some (a_task 2 1) else none;
  current = 1;
  mm = memory;
}

abbrev nobody : Cmd Proc (Unit {0})
nobody k = ok tt k

wait_pass-cases_example :
    ((p : ℕ) × (t : Task) × (e : Panic) × (t.state ≡ zombie)
      × Decides any_child false (a_task 1 0) proc 63 p t
      × (wait_pass nobody any_child false true (a_task 1 0) proc ≡ panic e))
    ⊎ ((p : ℕ) × (t : Task) × (t.state ≡ stopped)
        × (false ≡ true)
        × Decides any_child false (a_task 1 0) proc 63 p t
        × (wait_pass nobody any_child false true (a_task 1 0) proc
            ≡ ok (some (ret t.pid, some 0x7f)) proc))
    ⊎ ((p : ℕ) × (t : Task) × (1 ≤ p)
        × (p ≤ 63)
        × (child_at any_child (a_task 1 0) proc p ≡ some t)
        × (is_busy t.state ≡ true)
        × NoneDecides any_child false (a_task 1 0) proc 63
        × ((true ≡ true)
              × (wait_pass nobody any_child false true (a_task 1 0) proc
                  ≡ ok (some (ret 0, none)) proc)
            ⊎ (true ≡ false)
              × (wait_pass nobody any_child false true (a_task 1 0) proc
                  ≡ ok none (on_slot set_interruptible proc.current proc))))
    ⊎ ((p : ℕ) (t : Task)
        → 1 ≤ p
        → p ≤ 63
        → child_at any_child (a_task 1 0) proc p ≡ some t
        → (t.state ≡ stopped) × (false ≡ false))
      × (wait_pass nobody any_child false true (a_task 1 0) proc
          ≡ ok (some (fail echild, none)) proc)
wait_pass-cases_example = wait_pass-cases nobody any_child false true (a_task 1 0) proc

-- Signal 10 has a handler at 0x1000 for one use, with the mask in its frame.
abbrev signals : Signals
signals = record {
  proc = proc;
  action = λ k i. record {
    sa_handler = if i == 9 then 0x1000 else 0;
    sa_mask = λ b. b == 9;
    sa_flags = 2 ^ 31;
    sa_restorer = 0x2000;
  };
  user = λ a. 0;
}

abbrev context : Context
context = record { eax = 1; ecx = 2; edx = 3; eip = 0x500; eflags = 0x202; esp = 0x9000 }

checked :
    verify_area 3
      (frame_esp (action_of 10 signals) context)
      (4 * frame_longs (action_of 10 signals))
      proc
    ≡ ok (some tt) proc
unfolding frame_longs verify_area verify_pages in_mm write_verify field
checked = refl

do_signal-restored_example :
    (c' : Context) × (s' : Signals) × (do_signal 10 context signals ≡ ok c' s')
    × (c'.eip ≡ (action_of 10 signals).sa_handler)
    × (s'.user c'.esp ≡ (action_of 10 signals).sa_restorer)
    × (s'.user (c'.esp + 4) ≡ 10)
    × (restored (action_of 10 signals) s'.user (c'.esp + 4) ≡ context)
    × ((a : ℕ) → context.esp ≤ a → s'.user a ≡ signals.user a)
    × ((i : ℕ)
        → blocked_of s'.proc i ≡ ((a_task 1 0).blocked i || (action_of 10 signals).sa_mask i))
    × ((action_of 10 s').sa_handler
        ≡ (if oneshot (action_of 10 signals) then 0 else (action_of 10 signals).sa_handler))
do_signal-restored_example =
    do_signal-restored 10 context signals (a_task 1 0) (some tt) proc refl (omega arith)
      (omega arith) (omega arith) (omega arith) checked
