-- ===== src/Sched.antt =====
-- kernel/sched.c: tasks, `schedule`, the timer interrupt and the wait queues. A pointer to a task is
-- its slot in `task[]`, and `switch_to` changes `current`; what follows a call of `schedule` runs
-- when the task is switched to again, and is a function of its own.
--
-- `counter`, `priority`, `alarm` and the clock are `long`s that are never negative here.
pub mod Pick
pub mod Refill
pub mod Wake
pub mod Queue
pub mod Timer
pub mod Sleep
use hios.Base.{
  ◌^◌, ◌%◌, ℕ, zero, suc, ◌+◌, ◌-◌, ◌*◌, ◌/◌, ◌<◌, ltb, leb, ◌==◌, ◌&&◌, ◌||◌, not, Bool, true,
  false, if◌then◌else◌, update, Option, none, some, ℤ, pos, negsuc, diff_div,
}

-- TASK_RUNNING and so on, the values of `state`.
pub data TaskState : Type 0 where
  running interruptible uninterruptible zombie stopped : TaskState

-- A word as a bitmap: bit `i`, for `i` below 32. The bit of signal `n` is `n - 1`.
abbrev pub Bits : Type 0
Bits = ℕ → Bool

-- The fields of `struct task_struct` that the modelled code reads or writes. `page` is the address
-- of the structure; the bases and limits are those of the two segments in its LDT.
pub record Task : Type 0 where
  pub page : ℕ
  pub state : TaskState
  pub counter : ℕ
  pub priority : ℕ
  pub signal : Bits
  pub blocked : Bits
  pub exit_code : ℕ
  pub pid : ℕ
  pub father : ℕ
  pub pgrp : ℕ
  pub euid : ℕ
  pub alarm : ℕ
  pub utime : ℕ
  pub stime : ℕ
  pub cutime : ℕ
  pub cstime : ℕ
  pub start_time : ℕ
  pub code_base : ℕ
  pub code_limit : ℕ
  pub data_base : ℕ
  pub data_limit : ℕ

-- NR_TASKS
abbrev pub nr_tasks : ℕ
nr_tasks = 64

-- `task[NR_TASKS]`; `none` is a null pointer.
abbrev pub Tasks : Type 0
Tasks = ℕ → Option Task

pub record Sched : Type 0 where
  pub task : Tasks
  pub current : ℕ
  pub jiffies : ℕ

-- SIGKILL, SIGALRM, SIGCHLD and SIGSTOP as bits
abbrev pub sigkill : ℕ
sigkill = 8

abbrev pub sigalrm : ℕ
sigalrm = 13

abbrev pub sigchld : ℕ
sigchld = 16

abbrev pub sigstop : ℕ
sigstop = 18

-- `word != 0`, over the `n` low bits
unfoldable pub any_bit : ℕ → Bits → Bool
any_bit zero b = false
any_bit (suc n) b = b n || any_bit n b

-- `signal & (_BLOCKABLE & ~blocked)`
unfoldable pub wakes : Task → Bits
wakes t i = t.signal i && (not (i == sigkill || i == sigstop) && not (t.blocked i))

unfoldable pub is_running : TaskState → Bool
is_running running = true
is_running other = false

unfoldable pub is_interruptible : TaskState → Bool
is_interruptible interruptible = true
is_interruptible other = false

-- The two tests of `schedule`'s first loop, for one task.
unfoldable pub check_alarm : ℕ → Task → Task
check_alarm jiffies t =
    if not (t.alarm == 0) && ltb t.alarm jiffies
    then record t { signal = update t.signal sigalrm true; alarm = 0 }
    else t

unfoldable pub check_signal : Task → Task
check_signal t =
    if any_bit 32 (wakes t) && is_interruptible t.state then record t { state = running } else t

-- `if (task[i]) …`: changes the task in a slot.
unfoldable pub at_slot : (Task → Task) → ℕ → Tasks → Tasks
at_slot f i ts = elim (ts i) [ none ↦ ts | some t ↦ update ts i (some (f t)) ]

-- `for (p = &LAST_TASK; p > &FIRST_TASK; --p) if (*p) …`: the tasks from slot `n` down to slot 1.
unfoldable pub each_task : (Task → Task) → ℕ → Tasks → Tasks
each_task f zero ts = ts
each_task f (suc n) ts = each_task f n (at_slot f (suc n) ts)

-- `(*p)->counter > c`, where `none` is the -1 with which `c` starts
unfoldable pub exceeds : ℕ → Option ℕ → Bool
exceeds counter none = true
exceeds counter (some c) = ltb c counter

-- One slot of the loop that looks for the largest counter: the new `c` and `next`.
unfoldable pub consider : Tasks → ℕ → Option ℕ × ℕ → Option ℕ × ℕ
consider ts i (c, next) = elim (ts i) [
  | none ↦ (c, next)
  | some t ↦ if is_running t.state && exceeds t.counter c then (some t.counter, i) else (c, next)
]

-- `while (--i) …`, from slot `n` down to slot 1.
unfoldable pub pick : ℕ → Tasks → Option ℕ × ℕ → Option ℕ × ℕ
pick zero ts best = best
pick (suc n) ts best = pick n ts (consider ts (suc n) best)

unfoldable pub recharge : Task → Task
recharge t = record t { counter = t.counter / 2 + t.priority }

-- `if (c) break;`
unfoldable pub breaks : Option ℕ → Bool
breaks none = true
breaks (some c) = not (c == 0)

-- The endless loop of `schedule`; `none` means that it is still running when the fuel ends.
unfoldable pub select : ℕ → Tasks → Option (Tasks × ℕ)
select zero ts = none
select (suc fuel) ts =
    let (c, next) = pick 63 ts (none, 0) in
    let again = select fuel (each_task recharge 63 ts) in
    if breaks c then some (ts, next) else again

-- `schedule`, up to the switch.
unfoldable pub schedule : ℕ → Sched → Option Sched
schedule fuel s =
    let checked = each_task (λ t. check_signal (check_alarm s.jiffies t)) 63 s.task in
    elim (select fuel checked) [
      | none ↦ none
      | some (ts, next) ↦ some (record s { task = ts; current = next })
    ]

-- `current->field = …`
unfoldable pub on_current : (Task → Task) → Sched → Sched
on_current f s = record s { task = at_slot f s.current s.task }

-- `do_timer`'s work on `current`, and then whether the time slice is over: a counter that would not
-- be positive is set to 0.
unfoldable pub tick : Bool → Task → Task
tick kernel t =
    let t1 =
      if kernel then record t { stime = t.stime + 1 } else record t { utime = t.utime + 1 } in
    if ltb 1 t1.counter then record t1 { counter = t1.counter - 1 } else record t1 { counter = 0 }

unfoldable pub slice_over : Sched → Bool
slice_over s = elim (s.task s.current) [ none ↦ true | some t ↦ t.counter == 0 ]

-- `cpl` 0 is kernel mode.
unfoldable pub do_timer : ℕ → ℕ → Sched → Option Sched
do_timer fuel cpl s =
    let s1 = on_current (tick (cpl == 0)) s in
    if not (slice_over s1) then some s1 else if cpl == 0 then some s1 else schedule fuel s1

-- `sys_pause`, up to the switch.
unfoldable pub sys_pause : ℕ → Sched → Option Sched
sys_pause fuel s = schedule fuel (on_current (λ t. record t { state = interruptible }) s)

-- The new alarm: `(seconds > 0) ? (jiffies + HZ * seconds) : 0`, in 32 bits. From 2^31 on it is
-- negative as a `long`, and `check_alarm` does not compare it as such.
unfoldable pub alarm_at : ℕ → ℤ → ℕ
alarm_at jiffies (pos seconds) = if leb 1 seconds then (jiffies + 100 * seconds) % 2 ^ 32 else 0
alarm_at jiffies (negsuc n) = 0

unfoldable pub set_alarm : ℕ → ℤ → Task → Task
set_alarm jiffies seconds t = record t { alarm = alarm_at jiffies seconds }

unfoldable pub sys_alarm : ℤ → Sched → ℤ × Sched
sys_alarm seconds s =
    let old : ℕ = elim (s.task s.current) [ none ↦ 0 | some t ↦ t.alarm ] in
    (
      if old == 0 then pos 0 else diff_div old s.jiffies 100,
      on_current (set_alarm s.jiffies seconds) s,
    )

unfoldable pub set_asleep : Task → Task
set_asleep t = record t { state = interruptible }

-- `sys_sleep` of kernel/sys.c, up to the switch.
unfoldable pub sys_sleep : ℕ → ℤ → Sched → Option Sched
sys_sleep fuel seconds s = schedule fuel (on_current set_asleep (sys_alarm seconds s).1)
