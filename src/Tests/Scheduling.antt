-- ===== src/Tests/Scheduling.antt =====
-- Tests of kernel/sched.c, on a table with three tasks.
use hios.Base.{
  ℕ, ◌≤◌, ◌<◌, ◌≡◌, refl, inl, inr, arith, ◌==◌, if◌then◌else◌, true, false, Option, none, some,
  pos, ◌+◌, ◌*◌, ◌≢◌, [], ◌∷◌,
}
use hios.Run.{ok}
use hios.Sched.{
  Task, Tasks, TaskState, Sched, running, interruptible, schedule, pick, select, is_running, breaks,
  consider, each_task, at_slot, check_signal, any_bit, wakes, check_alarm, exceeds,
  is_interruptible, sys_sleep, sigalrm,
}
use hios.Sched.Refill.{Chosen, Recharged, select-Chosen}
use hios.Sched.Wake.{checked, schedule-Chosen, schedule_wakes, schedule_keeps_asleep}
use hios.Sched.Sleep.{Quiet, sys_sleep-Quiet}
use hios.Sched.Timer.{Spent, ticks, ticks-Spent}
use hios.Sched.Queue.{Waiting, wake_up}
use hios.Sched.Queue.Chain.{Sleepers, sleep_all, slots, AllReady, resume_all, wake_up-sleep_all}

abbrev a_task : TaskState → ℕ → ℕ → Task
a_task st counter pid = record {
  page = 0x100000;
  state = st;
  counter = counter;
  priority = 15;
  signal = λ b. false;
  blocked = λ b. false;
  exit_code = 0;
  pid = pid;
  father = 0;
  pgrp = 0;
  euid = 0;
  alarm = 0;
  utime = 0;
  stime = 0;
  cutime = 0;
  cstime = 0;
  start_time = 0;
  code_base = 0;
  code_limit = 0;
  data_base = 0;
  data_limit = 0;
}

-- Has SIGALRM pending.
abbrev alarmed : Task
alarmed = record (a_task interruptible 3 2) { signal = λ b. b == 13 }

-- Has SIGKILL pending.
abbrev killed : Task
killed = record (a_task interruptible 3 3) { signal = λ b. b == 8 }

abbrev table : Tasks
table i =
    if i == 0
    then some (a_task running 0 0)
    else if i == 1
    then some (a_task running 0 1)
    else if i == 2
    then some alarmed
    else if i == 3
    then some killed
    else none

abbrev machine : Sched
machine = record { task = table; current = 1; jiffies = 5 }

abbrev next : Option Sched → ℕ
next none = 99
next (some s) = s.current

-- The task with a pending SIGALRM wakes up and has the largest counter.
switches : next (schedule 2 machine) ≡ 2
unfolding schedule select breaks pick consider each_task at_slot is_running check_signal any_bit
    wakes check_alarm exceeds is_interruptible
switches = refl

positive : (i : ℕ) (t : Task) → 0 < i → i < 64 → table i ≡ some t → 0 < t.priority
positive i t lo hi e = ground arith

schedule-Chosen_example :
    (s' : Sched) × (schedule 2 machine ≡ some s')
    × Chosen s'.task s'.current
    × Recharged (checked machine) s'.task
    × (s'.jiffies ≡ 5)
schedule-Chosen_example = schedule-Chosen 0 machine positive

-- What `schedule` makes of the machine.
abbrev switched : Sched
switched = (schedule-Chosen 0 machine positive).0

switched_lem : schedule 2 machine ≡ some switched
switched_lem = (schedule-Chosen 0 machine positive).1

schedule_wakes_example :
    (t' : Task) × (switched.task 2 ≡ some t')
    × (t'.state ≡ running)
    × (t'.signal 13 ≡ true)
    × ((0 < 5) → t'.alarm ≡ 0)
schedule_wakes_example =
    schedule_wakes 2 machine switched 2 13 alarmed switched_lem (omega arith) (omega arith) refl
      refl (omega arith) (omega arith) (omega arith) refl (inl refl)

schedule_keeps_asleep_example :
    (t' : Task) × (switched.task 3 ≡ some t') × (t'.state ≡ interruptible)
schedule_keeps_asleep_example =
    schedule_keeps_asleep 2 machine switched 3 killed switched_lem (omega arith) (omega arith) refl
      (inr (refl, λ b lt pending. ground arith))

select-Chosen_example :
    (ts' : Tasks) × (next : ℕ) × (select 2 table ≡ some (ts', next))
    × Chosen ts' next
    × Recharged table ts'
select-Chosen_example = select-Chosen 0 table (λ i t lo hi e r. positive i t lo hi e)

-- Two tasks sleep on one queue.
abbrev empty_queue : Waiting
empty_queue = record { task = table; head = none }

wake_up-sleep_all_example :
    (all : Sleepers) × (q' : Waiting) × (sleep_all (1 ∷ 2 ∷ []) empty_queue [] ≡ ok all q')
    × (slots all ≡ 2 ∷ 1 ∷ [])
    × AllReady (resume_all all (wake_up q')).task all
    × ((resume_all all (wake_up q')).head ≡ none)
wake_up-sleep_all_example =
    wake_up-sleep_all (1 ∷ 2 ∷ []) empty_queue (omega arith, (omega arith, tt)) refl

-- Task 3 of the table runs: its slice is three interrupts.
abbrev running_3 : Sched
running_3 = record machine { current = 3 }

ticks-Spent_example :
    (s' : Sched) × Spent 3 killed running_3 s'
    × (ticks 2 3 running_3 ≡ schedule 2 s')
    × ((m : ℕ)
        → m ≤ 2
        → (s1 : Sched) × (ticks 2 m running_3 ≡ some s1) × Spent m killed running_3 s1)
ticks-Spent_example = ticks-Spent 2 2 running_3 killed refl refl

task_1-Quiet : Quiet (a_task running 0 1)
unfolding wakes
task_1-Quiet b lt = refl

sys_sleep-Quiet_example :
    (s' : Sched) × (t' : Task) × (sys_sleep 2 (pos 3) machine ≡ some s')
    × (s'.task 1 ≡ some t')
    × (s'.current ≢ 1)
    × (t'.state ≡ interruptible)
    × (t'.alarm ≡ 5 + 100 * 3)
    × ((fuel' : ℕ) (s1 s2 : Sched)
        → s1.task 1 ≡ some t'
        → schedule fuel' s1 ≡ some s2
        → (t2 : Task) × (s2.task 1 ≡ some t2)
          × ((s1.jiffies ≤ 5 + 100 * 3) → t2.state ≡ interruptible)
          × ((5 + 100 * 3 < s1.jiffies) → (t2.state ≡ running) × (t2.signal sigalrm ≡ true)))
sys_sleep-Quiet_example =
    sys_sleep-Quiet 0 3 1 machine (a_task running 0 1) refl (omega arith) (omega arith) refl
      (omega arith) (omega arith) task_1-Quiet refl positive
