-- ===== src/Proc.antt =====
-- kernel/exit.c: `release`, signals between tasks and `do_exit`. Where `release` calls `schedule`,
-- other tasks run before it goes on: what they do is a parameter.
pub mod Release
pub mod Kill
pub mod Reparent
pub mod Exit
use hios.Base.{
  ℕ, zero, suc, ◌+◌, ◌-◌, ◌*◌, ◌%◌, ◌<◌, ltb, leb, ◌==◌, ◌&&◌, ◌||◌, not, Bool, true, false,
  if◌then◌else◌, update, Option, none, some,
}
use hios.Run.{Run, ok, panic, and_then, missing_task, Cmd}
use hios.Errno.{Errno, einval, eperm, echild, Ret, ret, fail}
use hios.Mm.{Mm}
use hios.Mm.Pages.{free_page}
use hios.Mm.Tables.{free_page_tables}
use hios.Sched.{
  Task, Tasks, Sched, TaskState, running, interruptible, uninterruptible, zombie, stopped, at_slot,
  sigchld,
}

-- The task table, and the memory that tasks give back.
pub record Proc : Type 0 where
  pub task : Tasks
  pub current : ℕ
  pub mm : Mm

unfoldable pub is_zombie : TaskState → Bool
is_zombie zombie = true
is_zombie other = false

unfoldable pub on_slot : (Task → Task) → ℕ → Proc → Proc
on_slot f i k = record k { task = at_slot f i k.task }

-- `p->signal |= 1 << (sig - 1)`
unfoldable pub add_signal : ℕ → Task → Task
add_signal sig t = record t { signal = update t.signal (sig - 1) true }

unfoldable pub set_father : ℕ → Task → Task
set_father pid t = record t { father = pid }

-- `state = TASK_ZOMBIE; exit_code = code`
unfoldable pub set_zombie : ℕ → Task → Task
set_zombie code t = record t { state = zombie; exit_code = code }

-- `task[i]->pid` and the like, with 0 for an empty slot, where the code does not look.
unfoldable pub field : (Task → ℕ) → ℕ → Proc → ℕ
field f i k = elim (k.task i) [ none ↦ 0 | some t ↦ f t ]

-- A call of a function of mm/memory.c.
unfoldable pub in_mm : {A : Type 0} → Cmd Mm A → Cmd Proc A
in_mm f k = elim (f k.mm) [ ok a m ↦ ok a (record k { mm = m }) | panic e ↦ panic e ]

module _ (others : Cmd Proc (Unit {0})) where
  -- The body of `release`'s loop at slot `i`, for the task in slot `p`. The code compares pointers to
  -- tasks, and each slot has its own: a page that is used again for a task while `schedule` runs other
  -- tasks is not seen as the same pointer here.
  unfoldable pub release_slot : ℕ → ℕ → Proc → Run Proc (Unit {0})
  release_slot p i k = elim (k.task i) [
    | none ↦ ok tt k
    | some t ↦
        if i == p
        then and_then (in_mm (free_page t.page) (record k { task = update k.task i none }))
            (λ _ k1. others k1)
        else ok tt k
  ]

  -- `for (i = 1; i < NR_TASKS; i++) …`, with `n` slots left from `i` on, and the `panic` behind it.
  unfoldable pub release_loop : ℕ → ℕ → ℕ → Proc → Run Proc (Unit {0})
  release_loop p i zero k = panic missing_task
  release_loop p i (suc n) k = and_then (release_slot p i k) λ _ k1. release_loop p (suc i) n k1

  unfoldable pub release : Option ℕ → Proc → Run Proc (Unit {0})
  release none k = ok tt k
  release (some p) k = release_loop p 1 63 k

-- `send_sig(sig, p, priv)`, where `p` is a slot that may be empty. The sender is `current`.
unfoldable pub send_sig : ℕ → ℕ → Bool → Proc → Ret ℕ × Proc
send_sig sig p priv k = elim (k.task p) [
  | none ↦ (fail einval, k)
  | some t ↦
      if ltb sig 1 || ltb 32 sig
      then (fail einval, k)
      else if priv || (field (λ c. c.euid) k.current k == t.euid)
      then (ret 0, on_slot (add_signal sig) p k)
      else (fail eperm, k)
]

-- The body of `sys_kill`'s loop at slot `p`; the number is `retval`.
unfoldable pub kill_slot : ℕ → ℕ → ℕ → Ret ℕ × Proc → Ret ℕ × Proc
kill_slot pid sig p (retval, k) =
    if elim (k.task p) [ none ↦ false | some t ↦ t.pid == pid ]
    then (let (err, k1) = send_sig sig p true k in
        elim err [ ret _ ↦ (retval, k1) | fail e ↦ (fail e, k1) ])
    else (retval, k)

-- `while (--p > &FIRST_TASK) …`, from slot `n` down to slot 1.
unfoldable pub kill_loop : ℕ → ℕ → ℕ → Ret ℕ × Proc → Ret ℕ × Proc
kill_loop pid sig zero r = r
kill_loop pid sig (suc n) r = kill_loop pid sig n (kill_slot pid sig (suc n) r)

-- A `pid` that is not positive, which the code ignores, is `none`.
unfoldable pub sys_kill : Option ℕ → ℕ → Proc → Ret ℕ × Proc
sys_kill none sig k = (ret 0, k)
sys_kill (some pid) sig k = kill_loop pid sig 63 (ret 0, k)

-- The slot of the first task with this pid, in the `n` slots from `i` on.
unfoldable pub find_pid : ℕ → ℕ → ℕ → Proc → Option ℕ
find_pid pid i zero k = none
find_pid pid i (suc n) k =
    let rest = find_pid pid (suc i) n k in
    if elim (k.task i) [ none ↦ false | some t ↦ t.pid == pid ] then some i else rest

-- Signal 17 is SIGCHLD.
unfoldable pub tell_father : Cmd Proc (Unit {0}) → ℕ → Proc → Run Proc (Unit {0})
tell_father others pid k =
    let found = if pid == 0 then none else find_pid pid 0 64 k in
    elim found [
      | some i ↦ ok tt (on_slot (add_signal 17) i k)
      | none ↦ release others (some k.current) k
    ]

-- The body of `do_exit`'s loop at slot `i`, for the exiting task's pid.
unfoldable pub reparent_slot : ℕ → ℕ → Proc → Proc
reparent_slot pid i k = elim (k.task i) [
  | none ↦ k
  | some t ↦
      if t.father == pid
      then (let k1 = on_slot (set_father 1) i k in
          if is_zombie t.state then (send_sig 17 1 true k1).1 else k1)
      else k
]

unfoldable pub reparent : ℕ → ℕ → ℕ → Proc → Proc
reparent pid i zero k = k
reparent pid i (suc n) k = reparent pid (suc i) n (reparent_slot pid i k)

-- `do_exit` up to its last call of `schedule`, from which a zombie does not come back.
unfoldable pub do_exit : Cmd Proc (Unit {0}) → ℕ → Proc → Run Proc (Unit {0})
do_exit others code k = elim (k.task k.current) [
  | none ↦ ok tt k
  | some t ↦ and_then (in_mm (free_page_tables t.code_base t.code_limit) k) λ _ k1.
      and_then (in_mm (free_page_tables t.data_base t.data_limit) k1) λ _ k2.
        (let k3 = reparent t.pid 0 64 k2 in
          let k4 = on_slot (set_zombie code) k3.current k3 in
          tell_father others (field (λ u. u.father) k4.current k4) k4)
]

-- `(error_code & 0xff) << 8`
unfoldable pub exit_status : ℕ → ℕ
exit_status error_code = error_code % 256 * 256

unfoldable pub sys_exit : Cmd Proc (Unit {0}) → ℕ → Proc → Run Proc (Unit {0})
sys_exit others error_code k = do_exit others (exit_status error_code) k
