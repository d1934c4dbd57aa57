-- ===== src/Sched/Sleep.antt =====
-- `sys_alarm` of kernel/sched.c and `sys_sleep` of kernel/sys.c: a task sleeps until its alarm.
use hios.Base.{
  ◌^◌, ℕ, suc, ◌+◌, ◌*◌, ◌≤◌, ◌<◌, ◌≡◌, ◌≢◌, refl, inl, inr, arith, leb, true, false, some, pos,
  Option-cases, Bool-cases,
}
use hios.Sched.{
  Task, Sched, interruptible, running, any_bit, wakes, check_alarm, check_signal, sigalrm, schedule,
  at_slot, on_current, alarm_at, set_alarm, sys_alarm, set_asleep, sys_sleep, is_running,
}
use hios.Sched.Refill.{at_slot_lem, Chosen}
use hios.Sched.Wake.{after, no_bit, schedule-Chosen, schedule_wakes}

-- Every signal that is pending is blocked, but for SIGKILL and SIGSTOP.
abbrev pub Quiet : Task → Type 0
Quiet t = (b : ℕ) → b < 32 → wakes t b ≡ false

-- The first loop of `schedule` leaves a task that sleeps until a time that has not passed.
Quiet-sleeps :
    (j : ℕ) (t : Task)
    → t.state ≡ interruptible
    → j ≤ t.alarm
    → Quiet t
    → check_signal (check_alarm j t) ≡ t
unfolding check_signal check_alarm
Quiet-sleeps j t asleep early quiet =
    let off : any_bit 32 (wakes t) ≡ false = no_bit 32 (wakes t) quiet in ground arith

same_priority :
    (n : ℕ) (s : Sched)
    → ((i : ℕ) (t : Task) → 0 < i → i < 64 → s.task i ≡ some t → 0 < t.priority)
    → (i : ℕ) (t : Task) → 0 < i
    → i < 64
    → (on_current set_asleep (sys_alarm (pos n) s).1).task i ≡ some t
    → 0 < t.priority
unfolding sys_alarm set_alarm set_asleep on_current
same_priority n s positive i t lo hi e = elim (Option-cases (s.task i)) [
  | inl empty ↦ absurd (
      ground (
        arith,
        at_slot_lem set_asleep s.current (at_slot (set_alarm s.jiffies (pos n)) s.current s.task) i,
        at_slot_lem (set_alarm s.jiffies (pos n)) s.current s.task i,
      ))
  | inr (u, there) ↦ ground (
    arith,
    at_slot_lem set_asleep s.current (at_slot (set_alarm s.jiffies (pos n)) s.current s.task) i,
    at_slot_lem (set_alarm s.jiffies (pos n)) s.current s.task i,
    positive i u lo hi there,
  )
]

not-Chosen :
    (s : Sched) (i : ℕ) (t : Task)
    → 0 < i
    → s.task i ≡ some t
    → t.state ≡ interruptible
    → Chosen s.task s.current
    → s.current ≢ i
unfolding is_running
not-Chosen s i t lo e asleep (inl (idle, nobody)) same = omega arith
not-Chosen s i t lo e asleep (inr (c, positive, largest)) same =
    let u = largest.chosen.task in
    let both : u ≡ t = ground (arith, largest.chosen.there) in
    let runs : is_running t.state ≡ true = rw both at largest.chosen.ready in ground arith

-- `schedule` and a task that sleeps until its alarm.
until_alarm :
    (fuel : ℕ) (s s' : Sched) (i : ℕ) (t : Task)
    → schedule fuel s ≡ some s'
    → 0 < i
    → i < 64
    → s.task i ≡ some t
    → t.state ≡ interruptible
    → Quiet t
    → t.blocked sigalrm ≡ false
    → 0 < t.alarm
    → (t' : Task) × (s'.task i ≡ some t')
      × ((s.jiffies ≤ t.alarm) → t'.state ≡ interruptible)
      × ((t.alarm < s.jiffies) → (t'.state ≡ running) × (t'.signal sigalrm ≡ true))
until_alarm fuel s s' i t run lo hi e asleep quiet open_alarm set =
    elim (Bool-cases (leb s.jiffies t.alarm)) [
      | inl early ↦
          let (c, f) = after fuel s s' i t run lo hi e in
          let same = Quiet-sleeps s.jiffies t asleep (ground arith) quiet in
          (record t { counter = c }, rw same at f, λ h. asleep, λ late. absurd (ground arith))
      | inr late ↦
          let (t', f, ready, pending, reset) =
            schedule_wakes fuel s s' i sigalrm t run lo hi e asleep (omega arith) (omega arith)
              (omega arith) open_alarm (inr (refl, set, ground arith)) in
          (t', f, λ early. absurd (ground arith), λ h. (ready, pending))
    ]

-- `sleep` for `n` seconds, `n` above 0, of a task other than task 0 that no pending signal can wake
-- and that does not block SIGALRM, where the time of the alarm is below 2^31 and every task has a
-- positive priority: `schedule` returns with the task asleep and its alarm set to `n` seconds from now, and it
-- is not the task that runs. Whenever `schedule` runs later and finds the task as it was left, it sleeps
-- on up to the time of the alarm, and after that it is ready, with SIGALRM pending.
pub sys_sleep-Quiet :
    (fuel n i : ℕ) (s : Sched) (t : Task)
    → s.current ≡ i
    → 0 < i
    → i < 64
    → s.task i ≡ some t
    → 0 < n
    → s.jiffies + 100 * n < 2 ^ 31
    → Quiet t
    → t.blocked sigalrm ≡ false
    → ((i : ℕ) (t : Task) → 0 < i → i < 64 → s.task i ≡ some t → 0 < t.priority)
    → (s' : Sched) × (t' : Task) × (sys_sleep (suc (suc fuel)) (pos n) s ≡ some s')
      × (s'.task i ≡ some t')
      × (s'.current ≢ i)
      × (t'.state ≡ interruptible)
      × (t'.alarm ≡ s.jiffies + 100 * n)
      × ((fuel' : ℕ) (s1 s2 : Sched)
          → s1.task i ≡ some t'
          → schedule fuel' s1 ≡ some s2
          → (t2 : Task) × (s2.task i ≡ some t2)
            × ((s1.jiffies ≤ s.jiffies + 100 * n) → t2.state ≡ interruptible)
            × ((s.jiffies + 100 * n < s1.jiffies)
                → (t2.state ≡ running) × (t2.signal sigalrm ≡ true)))
unfolding sys_sleep sys_alarm set_alarm alarm_at set_asleep on_current wakes
sys_sleep-Quiet fuel n i s t cur lo hi here some_time fits quiet open_alarm positive =
    let j = s.jiffies in
    let u : Task = record t { alarm = j + 100 * n; state = interruptible } in
    let s0 = on_current set_asleep (sys_alarm (pos n) s).1 in
    let at : s0.task i ≡ some u = ground (
      arith,
      at_slot_lem set_asleep s.current (at_slot (set_alarm j (pos n)) s.current s.task) i,
      at_slot_lem (set_alarm j (pos n)) s.current s.task i,
    ) in
    let (s', run, chosen, recharged, clock) =
      schedule-Chosen fuel s0 (same_priority n s positive) in
    let (c, f) = after (suc (suc fuel)) s0 s' i u run lo hi at in
    let calm : Quiet u = quiet in
    let asleep = Quiet-sleeps j u refl (omega arith) calm in
    let t' : Task = record u { counter = c } in
    let left : s'.task i ≡ some t' = rw asleep at f in
    (
      s',
      t',
      run,
      left,
      not-Chosen s' i t' lo left refl chosen,
      refl,
      refl,
      λ fuel' s1 s2 e run'.
          until_alarm fuel' s1 s2 i t' run' lo hi e refl calm open_alarm (omega arith),
    )
