-- ===== src/Wait.antt =====
-- kernel/exit.c: `sys_waitpid`. What is put at `stat_addr` is part of the result. While the task sleeps
-- or releases a child other tasks run: what they do is a parameter.
pub mod Scan
pub mod Pass
use hios.Base.{
  ℕ, zero, suc, ◌+◌, ◌-◌, ◌==◌, ◌&&◌, ◌||◌, not, Bool, true, false, if◌then◌else◌, update, Option,
  none, some,
}
use hios.Run.{Run, ok, Cmd, and_then}
use hios.Errno.{Errno, eintr, echild, Ret, ret, fail}
use hios.Sched.{
  Task, TaskState, running, interruptible, uninterruptible, zombie, stopped, sigchld, any_bit,
}
use hios.Proc.{Proc, on_slot, field, release}
use hios.Fork.{verify_area}

-- `pid`: one child, the children in the task's own group (0), those in a group (below -1), or any (-1).
pub data Wanted : Type 0 where
  one_child : ℕ → Wanted
  own_group : Wanted
  in_group : ℕ → Wanted
  any_child : Wanted

-- The tests on `pid` for the child `t` of the task `c`.
unfoldable pub is_wanted : Wanted → Task → Task → Bool
is_wanted (one_child pid) c t = t.pid == pid
is_wanted own_group c t = t.pgrp == c.pgrp
is_wanted (in_group g) c t = t.pgrp == g
is_wanted any_child c t = true

-- The `continue`s before the switch: the child in a slot, if it is one that is waited for. `same` tells
-- whether the slot is that of `current`.
unfoldable pub candidate : Wanted → Task → Bool → Option Task → Option Task
candidate w c same none = none
candidate w c same (some t) =
    if not same && ((t.father == c.pid) && is_wanted w c t) then some t else none

-- Where the scan ends: at a stopped child, at a zombie, or at the end of the table with `flag`.
pub data Scanned : Type 0 where
  at_stopped : ℕ → Scanned
  at_zombie : ℕ → Scanned
  at_end : Bool → Scanned

-- The switch, for the child in slot `p`: the end of the scan, or the new `flag`.
unfoldable pub look_at : Bool → ℕ → Bool → TaskState → Scanned
look_at untraced p flag stopped = if untraced then at_stopped p else at_end flag
look_at untraced p flag zombie = at_zombie p
look_at untraced p flag running = at_end true
look_at untraced p flag interruptible = at_end true
look_at untraced p flag uninterruptible = at_end true

-- `for (p = &LAST_TASK; p > &FIRST_TASK; --p) …`, from slot `n` down to slot 1, for the task `c`.
unfoldable pub scan : Wanted → Bool → Task → ℕ → Bool → Proc → Scanned
scan w untraced c zero flag k = at_end flag
scan w untraced c (suc n) flag k = elim (candidate w c (suc n == k.current) (k.task (suc n))) [
  | none ↦ scan w untraced c n flag k
  | some t ↦ elim (look_at untraced (suc n) flag t.state) [
    | at_end flag1 ↦ scan w untraced c n flag1 k
    | at_stopped p ↦ at_stopped p
    | at_zombie p ↦ at_zombie p
  ]
]

-- `current->cutime += …; current->cstime += …`
unfoldable pub add_times : Task → Task → Task
add_times child t = record t { cutime = t.cutime + child.utime; cstime = t.cstime + child.stime }

unfoldable pub set_interruptible : Task → Task
set_interruptible t = record t { state = interruptible }

-- `current->signal &= ~(1 << (SIGCHLD - 1))`
unfoldable pub clear_sigchld : Task → Task
clear_sigchld t = record t { signal = update t.signal sigchld false }

-- The return value, and what is put at `stat_addr`.
abbrev pub Waited : Type 0
Waited = Ret ℕ × Option ℕ

module _ (others : Cmd Proc (Unit {0})) where
  -- The case TASK_ZOMBIE, for the child in slot `p`.
  unfoldable pub reap : ℕ → Proc → Run Proc Waited
  reap p k = elim (k.task p) [
    | none ↦ ok (fail echild, none) k
    | some t ↦
        and_then (release others (some p) (on_slot (add_times t) k.current k))
          (λ _ k1. ok (ret t.pid, some t.exit_code) k1)
  ]

  -- From `repeat:` to the call of `schedule`; `none` means that the task is to sleep.
  unfoldable pub wait_pass : Wanted → Bool → Bool → Task → Proc → Run Proc (Option Waited)
  wait_pass w untraced nohang c k = elim (scan w untraced c 63 false k) [
    | at_stopped p ↦ ok (some (ret (field (λ t. t.pid) p k), some 0x7f)) k
    | at_zombie p ↦ and_then (reap p k) (λ r k1. ok (some r) k1)
    | at_end false ↦ ok (some (fail echild, none)) k
    | at_end true ↦
        if nohang
        then ok (some (ret 0, none)) k
        else ok none (on_slot set_interruptible k.current k)
  ]

  unfoldable pub has_signal : Proc → Bool
  has_signal k = elim (k.task k.current) [ none ↦ false | some t ↦ any_bit 32 t.signal ]

  -- `none` means that the task still waits when the fuel ends.
  unfoldable pub wait_loop : ℕ → Wanted → Bool → Bool → Proc → Run Proc (Option Waited)
  wait_loop zero w untraced nohang k = ok none k
  wait_loop (suc fuel) w untraced nohang k = elim (k.task k.current) [
    | none ↦ ok none k
    | some c ↦ and_then (wait_pass w untraced nohang c k) (λ r k1. elim r [
      | some waited ↦ ok (some waited) k1
      | none ↦ and_then (others k1) (λ _ k2.
          (let k3 = on_slot clear_sigchld k2.current k2 in
            if has_signal k3
            then ok (some (fail eintr, none)) k3
            else wait_loop fuel w untraced nohang k3))
    ])
  ]

  -- Three rounds are enough for `verify_area` on four bytes.
  unfoldable pub sys_waitpid : ℕ → Wanted → ℕ → Bool → Bool → Proc → Run Proc (Option Waited)
  sys_waitpid fuel w stat_addr untraced nohang k =
      and_then (verify_area 3 stat_addr 4 k) (λ _ k1. wait_loop fuel w untraced nohang k1)
