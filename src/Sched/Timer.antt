-- ===== src/Sched/Timer.antt =====
-- `do_timer` of kernel/sched.c: how long a time slice is.
use hios.Base.{
  ℕ, zero, suc, ◌+◌, ◌-◌, ◌≤◌, ◌<◌, ◌≡◌, ◌≢◌, refl, sym, ap, ◌∙◌, arith, ◌==◌, not, if◌then◌else◌,
  true, false, Option, none, some, Option-cases, inl, inr,
}
use hios.Sched.{Task, Sched, on_current, tick, slice_over, schedule, do_timer}
use hios.Sched.Refill.{at_slot_lem}

-- `n` timer interrupts, one after the other, in user mode.
unfoldable pub ticks : ℕ → ℕ → Sched → Option Sched
ticks fuel zero s = some s
ticks fuel (suc n) s = elim (do_timer fuel 3 s) [ none ↦ none | some s1 ↦ ticks fuel n s1 ]

-- `n` ticks of a task's slice, spent in user mode
abbrev pub spend : ℕ → Task → Task
spend n t = record t { counter = t.counter - n; utime = t.utime + n }

-- `s'` is `s` after `n` ticks of the slice of `t`, which runs in it.
pub record Spent (n : ℕ) (t : Task) (s s' : Sched) : Type 0 where
  pub here : s'.task s.current ≡ some (spend n t)
  pub others : (i : ℕ) → i ≢ s.current → s'.task i ≡ s.task i
  pub current : s'.current ≡ s.current
  pub jiffies : s'.jiffies ≡ s.jiffies

ticked :
    (s : Sched) (t : Task)
    → s.task s.current ≡ some t
    → 0 < t.counter
    → Spent 1 t s (on_current (tick false) s)
unfolding on_current tick
ticked s t e left = record {
  here = ground (arith, at_slot_lem (tick false) s.current s.task s.current);
  others = λ i ne. ground (arith, at_slot_lem (tick false) s.current s.task i);
  current = refl;
  jiffies = refl;
}

slice_lem :
    (s : Sched) (t : Task)
    → s.task s.current ≡ some t
    → 0 < t.counter
    → slice_over (on_current (tick false) s) ≡ (t.counter == 1)
unfolding slice_over on_current
slice_lem s t e left = ground (arith, (ticked s t e left).here)

timer_lem :
    (fuel : ℕ) (s : Sched)
    → do_timer fuel 3 s ≡ (
        if not (slice_over (on_current (tick false) s))
        then some (on_current (tick false) s)
        else schedule fuel (on_current (tick false) s))
unfolding do_timer
timer_lem fuel s = refl

-- One interrupt in the slice, and the last one.
goes_on :
    (fuel : ℕ) (s : Sched) (t : Task)
    → s.task s.current ≡ some t
    → 1 < t.counter
    → do_timer fuel 3 s ≡ some (on_current (tick false) s)
goes_on fuel s t e more =
    let more_left : (t.counter == 1) ≡ false = ground arith in
    timer_lem fuel s ∙ rw (slice_lem s t e (omega arith), more_left) refl

runs_out :
    (fuel : ℕ) (s : Sched) (t : Task)
    → s.task s.current ≡ some t
    → t.counter ≡ 1
    → do_timer fuel 3 s ≡ schedule fuel (on_current (tick false) s)
runs_out fuel s t e last =
    let none_left : (t.counter == 1) ≡ true = ground arith in
    timer_lem fuel s ∙ rw (slice_lem s t e (omega arith), none_left) refl

-- Ticks add up.
Spent-ticks :
    (n : ℕ) (t : Task) (s s1 s' : Sched)
    → Spent 1 t s s1
    → Spent n (spend 1 t) s1 s'
    → Spent (suc n) t s s'
Spent-ticks n t s s1 s' one more = record {
  here = ap s'.task (sym one.current) ∙ more.here ∙ ground arith;
  others = λ i ne. more.others i (λ e. ne (e ∙ one.current)) ∙ one.others i ne;
  current = more.current ∙ one.current;
  jiffies = more.jiffies ∙ one.jiffies;
}

Spent-zero : (t : Task) (s : Sched) → s.task s.current ≡ some t → Spent 0 t s s
Spent-zero t s e = record {
  here = e ∙ ground arith;
  others = λ i ne. refl;
  current = refl;
  jiffies = refl;
}

before_over :
    (fuel m : ℕ) (s : Sched) (t : Task)
    → s.task s.current ≡ some t
    → m < t.counter
    → (s1 : Sched) × (ticks fuel m s ≡ some s1) × Spent m t s s1
unfolding ticks
before_over fuel zero s t e lt = (s, refl, Spent-zero t s e)
before_over fuel (suc m) s t e lt =
    let s1 = on_current (tick false) s in
    let one = ticked s t e (omega arith) in
    let (s2, run, spent) =
      before_over fuel m s1 (spend 1 t) (ap s1.task one.current ∙ one.here) (omega arith) in
    (s2, rw (ticks, goes_on fuel s t e (omega arith)) run, Spent-ticks m t s s1 s2 one spent)

all_over :
    (fuel n : ℕ) (s : Sched) (t : Task)
    → s.task s.current ≡ some t
    → t.counter ≡ suc n
    → (s' : Sched) × Spent (suc n) t s s' × (ticks fuel (suc n) s ≡ schedule fuel s')
unfolding ticks
all_over fuel zero s t e c =
    let s' = on_current (tick false) s in
    (
      s',
      ticked s t e (omega arith),
      rw (ticks, runs_out fuel s t e c)
          (elim (Option-cases (schedule fuel s')) [ inl f ↦ rw f refl | inr (w, f) ↦ rw f refl ]),
    )
all_over fuel (suc n) s t e c =
    let s1 = on_current (tick false) s in
    let one = ticked s t e (omega arith) in
    let (s', spent, over) =
      all_over fuel n s1 (spend 1 t) (ap s1.task one.current ∙ one.here) (omega arith) in
    (s', Spent-ticks (suc n) t s s1 s' one spent, rw (ticks, goes_on fuel s t e (omega arith)) over)

-- A task that runs in user mode keeps the processor for as many timer interrupts as its counter
-- says, each of which counts as user time, and no other task changes meanwhile. The last of them, and
-- none before, calls `schedule`, with the task's counter at 0.
pub ticks-Spent :
    (fuel n : ℕ) (s : Sched) (t : Task)
    → s.task s.current ≡ some t
    → t.counter ≡ suc n
    → (s' : Sched) × Spent (suc n) t s s'
      × (ticks fuel (suc n) s ≡ schedule fuel s')
      × ((m : ℕ) → m ≤ n → (s1 : Sched) × (ticks fuel m s ≡ some s1) × Spent m t s s1)
ticks-Spent fuel n s t e c =
    let (s', spent, over) = all_over fuel n s t e c in
    (s', spent, over, λ m le. before_over fuel m s t e (omega arith))
