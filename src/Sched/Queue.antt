-- ===== src/Sched/Queue.antt =====
-- The wait queues of kernel/sched.c. A queue is one pointer to the task that came last; each sleeper
-- keeps the pointer that it found in a local variable, `tmp`. A function that sleeps is in two
-- parts, before and after its call of `schedule`.
pub mod Chain
use hios.Base.{ℕ, ◌==◌, not, ◌&&◌, Bool, true, false, if◌then◌else◌, Option, none, some}
use hios.Run.{Panic, sleep_task_0, Run, ok, panic}
use hios.Sched.{Task, Tasks, TaskState, running, interruptible, uninterruptible, at_slot}

-- The task table and one queue.
pub record Waiting : Type 0 where
  pub task : Tasks
  pub head : Option ℕ

unfoldable pub set_state : TaskState → Task → Task
set_state st t = record t { state = st }

-- `if (tmp) tmp->state = TASK_RUNNING;`
unfoldable pub make_ready : Option ℕ → Tasks → Tasks
make_ready none ts = ts
make_ready (some i) ts = at_slot (set_state running) i ts

unfoldable pub wake_up : Waiting → Waiting
wake_up q = record { task = make_ready q.head q.task; head = none }

-- Up to `schedule()`; the result is `tmp`.
unfoldable pub sleep_on : ℕ → Waiting → Run Waiting (Option ℕ)
sleep_on current q =
    if current == 0
    then panic sleep_task_0
    else ok q.head
        (record { task = at_slot (set_state uninterruptible) current q.task; head = some current })

-- After it: `*p = tmp;` and the next sleeper is ready.
unfoldable pub sleep_on_resume : Option ℕ → Waiting → Waiting
sleep_on_resume tmp q = record { task = make_ready tmp q.task; head = tmp }

unfoldable pub interruptible_sleep_on : ℕ → Waiting → Run Waiting (Option ℕ)
interruptible_sleep_on current q =
    if current == 0
    then panic sleep_task_0
    else ok q.head
        (record { task = at_slot (set_state interruptible) current q.task; head = some current })

-- `*p && *p != current`: another task has come since.
unfoldable pub overtaken : ℕ → Option ℕ → Bool
overtaken current none = false
overtaken current (some i) = not (i == current)

-- After `schedule()`: the result is true where the code goes back to `repeat`, and so sleeps again.
unfoldable pub interruptible_resume : ℕ → Option ℕ → Waiting → Waiting × Bool
interruptible_resume current tmp q =
    if overtaken current q.head
    then (
      record q { task = at_slot (set_state interruptible) current (make_ready q.head q.task) },
      true,
    )
    else (sleep_on_resume tmp q, false)
