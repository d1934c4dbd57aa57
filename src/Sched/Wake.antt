-- ===== src/Sched/Wake.antt =====
-- The signals and alarms that `schedule` of kernel/sched.c looks at, and the task that it picks.
use hios.Base.{
  ℕ, zero, suc, ◌<◌, ◌≡◌, ◌≢◌, refl, ◌⊎◌, inl, inr, arith, Bool, true, false, Option-cases, none,
  some,
}
use hios.Sched.{
  Task, Tasks, Sched, running, interruptible, sigkill, sigstop, sigalrm, any_bit, wakes,
  is_interruptible, check_alarm, check_signal, each_task, select, schedule,
}
use hios.Sched.Refill.{each_task_lem, Chosen, Recharged, select-Chosen, select_keeps}

-- The task table after the first loop of `schedule`.
abbrev pub checked : Sched → Tasks
checked s = each_task (λ t. check_signal (check_alarm s.jiffies t)) 63 s.task

check_priority : (j : ℕ) (t : Task) → (check_signal (check_alarm j t)).priority ≡ t.priority
unfolding check_signal check_alarm
check_priority j t = ground arith

checked_slot :
    (s : Sched) (i : ℕ)
    → 0 < i
    → i < 64
    → checked s i
      ≡ elim (s.task i) [ none ↦ none | some t ↦ some (check_signal (check_alarm s.jiffies t)) ]
checked_slot s i lo hi =
    ground (arith, each_task_lem (λ t. check_signal (check_alarm s.jiffies t)) 63 s.task i)

checked_priority :
    (s : Sched) (i : ℕ) (t : Task)
    → 0 < i
    → i < 64
    → ((i : ℕ) (t : Task) → 0 < i → i < 64 → s.task i ≡ some t → 0 < t.priority)
    → checked s i ≡ some t
    → 0 < t.priority
checked_priority s i t lo hi positive e = elim (Option-cases (s.task i)) [
  | inl f ↦ ground (arith, checked_slot s i lo hi)
  | inr (u, f) ↦
      ground (arith, checked_slot s i lo hi, positive i u lo hi f, check_priority s.jiffies u)
]

-- Where every task has a positive priority, `schedule` ends after at most two rounds and switches to
-- the right task: one that is ready and has the largest counter, or task 0 if none is ready.
pub schedule-Chosen :
    (fuel : ℕ) (s : Sched)
    → ((i : ℕ) (t : Task) → 0 < i → i < 64 → s.task i ≡ some t → 0 < t.priority)
    → (s' : Sched) × (schedule (suc (suc fuel)) s ≡ some s')
      × Chosen s'.task s'.current
      × Recharged (checked s) s'.task
      × (s'.jiffies ≡ s.jiffies)
unfolding schedule
schedule-Chosen fuel s positive =
    let (ts', next, run, chosen, how) =
      select-Chosen fuel (checked s) (λ i t lo hi e r. checked_priority s i t lo hi positive e) in
    (record s { task = ts'; current = next }, rw (run, schedule) refl, chosen, how, refl)

pub no_bit : (n : ℕ) (b : ℕ → Bool) → ((i : ℕ) → i < n → b i ≡ false) → any_bit n b ≡ false
unfolding any_bit
no_bit zero b h = refl
no_bit (suc n) b h = ground (arith, h n, no_bit n b (λ i lt. h i (omega arith)))

some_bit : (n : ℕ) (b : ℕ → Bool) (i : ℕ) → i < n → b i ≡ true → any_bit n b ≡ true
unfolding any_bit
some_bit zero b i lt e = absurd (omega arith)
some_bit (suc n) b i lt e = ground (arith, some_bit n b i)

-- What `schedule` leaves of a task: only its counter may change after the first loop.
pub after :
    (fuel : ℕ) (s s' : Sched) (i : ℕ) (t : Task)
    → schedule fuel s ≡ some s'
    → 0 < i
    → i < 64
    → s.task i ≡ some t
    → (c : ℕ) × (s'.task i ≡ some (record (check_signal (check_alarm s.jiffies t)) { counter = c }))
unfolding schedule
after fuel s s' i t run lo hi e = elim (Option-cases (select fuel (checked s))) [
  | inl stuck ↦ absurd (ground arith)
  | inr (r, done) ↦
      let same : record s { task = r.0; current = r.1 } ≡ s' = ground arith in
      let (c, f) =
        select_keeps fuel (checked s) r.0 r.1 done i (check_signal (check_alarm s.jiffies t))
          (ground (arith, checked_slot s i lo hi)) in
      (c, ground arith)
]

-- A task in an interruptible sleep is ready after `schedule` if it has a pending signal that it does
-- not block and that is neither SIGKILL nor SIGSTOP, or if its alarm has expired and it does not
-- block SIGALRM, which it then has; the alarm is cleared.
pub schedule_wakes :
    (fuel : ℕ) (s s' : Sched) (i b : ℕ) (t : Task)
    → schedule fuel s ≡ some s'
    → 0 < i
    → i < 64
    → s.task i ≡ some t
    → t.state ≡ interruptible
    → b < 32
    → b ≢ sigkill
    → b ≢ sigstop
    → t.blocked b ≡ false
    → (t.signal b ≡ true) ⊎ (b ≡ sigalrm) × (0 < t.alarm) × (t.alarm < s.jiffies)
    → (t' : Task) × (s'.task i ≡ some t')
      × (t'.state ≡ running)
      × (t'.signal b ≡ true)
      × ((t.alarm < s.jiffies) → t'.alarm ≡ 0)
unfolding check_signal check_alarm wakes is_interruptible
schedule_wakes fuel s s' i b t run lo hi e asleep small kill stop open_bit pending =
    let u = check_alarm s.jiffies t in
    let (c, f) = after fuel s s' i t run lo hi e in
    let bit : u.signal b ≡ true = ground arith in
    let wake : any_bit 32 (wakes u) ≡ true = some_bit 32 (wakes u) b small (ground arith) in
    (record (check_signal u) { counter = c }, f, ground arith, ground arith, λ due. ground arith)

-- A task that sleeps uninterruptibly, is stopped or is a zombie stays so, whatever signals it has.
-- And a task in an interruptible sleep whose pending signals are all SIGKILL or SIGSTOP, with no
-- alarm set, sleeps on: `schedule` does not deliver the two signals that no task can block.
pub schedule_keeps_asleep :
    (fuel : ℕ) (s s' : Sched) (i : ℕ) (t : Task)
    → schedule fuel s ≡ some s'
    → 0 < i
    → i < 64
    → s.task i ≡ some t
    → (t.state ≢ interruptible)
      ⊎ (t.alarm ≡ 0) × ((b : ℕ) → b < 32 → t.signal b ≡ true → (b ≡ sigkill) ⊎ (b ≡ sigstop))
    → (t' : Task) × (s'.task i ≡ some t') × (t'.state ≡ t.state)
unfolding check_signal check_alarm is_interruptible
schedule_keeps_asleep fuel s s' i t run lo hi e (inl awake) =
    let (c, f) = after fuel s s' i t run lo hi e in
    (record (check_signal (check_alarm s.jiffies t)) { counter = c }, f, ground arith)
schedule_keeps_asleep fuel s s' i t run lo hi e (inr (quiet, only)) =
    let (c, f) = after fuel s s' i t run lo hi e in
    let off : any_bit 32 (wakes t) ≡ false =
      no_bit 32 (wakes t) (λ b lt. unfold wakes in ground (arith, only b lt)) in
    (record (check_signal (check_alarm s.jiffies t)) { counter = c }, f, ground arith)
