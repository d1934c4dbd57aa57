-- ===== src/Sched/Pick.antt =====
-- The loop of `schedule` in kernel/sched.c that looks for the ready task with the largest counter.
use hios.Base.{
  ℕ, zero, suc, ◌≤◌, ◌<◌, ◌≡◌, refl, inl, inr, arith, ◌&&◌, true, false, Bool-cases, Option-cases,
  Option, none, some,
}
use hios.Sched.{Task, Tasks, is_running, exceeds, consider, pick}

-- The task in slot `i` is ready, with this counter.
pub record Ready (ts : Tasks) (i counter : ℕ) : Type 0 where
  pub task : Task
  pub there : ts i ≡ some task
  pub ready : is_running task.state ≡ true
  pub same : task.counter ≡ counter

-- Among the slots above `lo` no task is ready.
abbrev pub NoneReady : Tasks → ℕ → Type 0
NoneReady ts lo = (i : ℕ) (t : Task) → lo < i → i < 64 → ts i ≡ some t → is_running t.state ≡ false

-- Among the slots above `lo`, `next` has a ready task with the largest counter, and is the last.
pub record Largest (ts : Tasks) (lo next counter : ℕ) : Type 0 where
  pub range : (lo < next) × (next < 64)
  pub chosen : Ready ts next counter
  pub largest :
      (i : ℕ) (t : Task)
      → lo < i
      → i < 64
      → ts i ≡ some t
      → is_running t.state ≡ true
      → t.counter ≤ counter
  pub last :
      (i : ℕ) (t : Task)
      → next < i
      → i < 64
      → ts i ≡ some t
      → is_running t.state ≡ true
      → t.counter < counter

abbrev pub IsBest : Tasks → ℕ → Option ℕ × ℕ → Type 0
IsBest ts lo (none, next) = (next ≡ 0) × NoneReady ts lo
IsBest ts lo (some c, next) = Largest ts lo next c

module _ (ts : Tasks) (n : ℕ) (small : n < 63) where
  empty_slot : (best : Option ℕ × ℕ) → ts (suc n) ≡ none → consider ts (suc n) best ≡ best
  unfolding consider
  empty_slot (c, next) e = rw (e, consider)

  kept_slot :
      (t : Task) (c : Option ℕ) (next : ℕ)
      → ts (suc n) ≡ some t
      → is_running t.state && exceeds t.counter c ≡ false
      → consider ts (suc n) (c, next) ≡ (c, next)
  unfolding consider
  kept_slot t c next e f = ground arith

  new_slot :
      (t : Task) (c : Option ℕ) (next : ℕ)
      → ts (suc n) ≡ some t
      → is_running t.state && exceeds t.counter c ≡ true
      → consider ts (suc n) (c, next) ≡ (some t.counter, suc n)
  unfolding consider
  new_slot t c next e f = ground arith

  none_step : NoneReady ts (suc n) → IsBest ts n (consider ts (suc n) (none, 0))
  unfolding exceeds
  none_step h = elim (Option-cases (ts (suc n))) [
    | inl e ↦ rw (empty_slot (none, 0) e) (refl, λ i t lo hi f. ground (arith, h i t))
    | inr (u, e) ↦ elim (Bool-cases (is_running u.state)) [
      | inr idle ↦
          rw (kept_slot u none 0 e (rw idle refl)) (refl, λ i t lo hi f. ground (arith, h i t))
      | inl ready ↦ rw (new_slot u none 0 e (rw ready refl)) record {
        range = omega arith;
        chosen = record { task = u; there = e; ready = ready; same = refl };
        largest = λ i t lo hi f r. ground (arith, h i t);
        last = λ i t lo hi f r. ground (arith, h i t);
      }
    ]
  ]

  keep_step :
      (c next : ℕ)
      → Largest ts (suc n) next c
      → ((t : Task) → ts (suc n) ≡ some t → is_running t.state ≡ true → t.counter ≤ c)
      → Largest ts n next c
  keep_step c next h small_one = record {
    range = omega (arith, h.range);
    chosen = h.chosen;
    largest = λ i t lo hi f r. ground (arith, h.largest i t, small_one t);
    last = λ i t lo hi f r. h.last i t lo hi f r;
  }

  some_step :
      (c next : ℕ) → Largest ts (suc n) next c → IsBest ts n (consider ts (suc n) (some c, next))
  unfolding exceeds
  some_step c next h = elim (Option-cases (ts (suc n))) [
    | inl e ↦ rw (empty_slot (some c, next) e) (keep_step c next h (λ t f r. ground arith))
    | inr (u, e) ↦ elim (Bool-cases (is_running u.state && exceeds u.counter (some c))) [
      | inr kept ↦
          rw (kept_slot u (some c) next e kept) (keep_step c next h (λ t f r. ground arith))
      | inl new ↦ rw (new_slot u (some c) next e new) record {
        range = omega arith;
        chosen = record { task = u; there = e; ready = ground arith; same = refl };
        largest = λ i t lo hi f r. ground (arith, h.largest i t);
        last = λ i t lo hi f r. ground (arith, h.largest i t);
      }
    ]
  ]

  step : (best : Option ℕ × ℕ) → IsBest ts (suc n) best → IsBest ts n (consider ts (suc n) best)
  step (none, next) h = rw h.0 (none_step h.1)
  step (some c, next) h = some_step c next h

-- From any best choice among the slots above `n`, `pick` finds the best of all.
pub pick-IsBest :
    (n : ℕ) (ts : Tasks) (best : Option ℕ × ℕ)
    → n < 64
    → IsBest ts n best
    → IsBest ts 0 (pick n ts best)
unfolding pick
pick-IsBest zero ts best h is = is
pick-IsBest (suc n) ts best h is =
    pick-IsBest n ts (consider ts (suc n) best) (omega arith) (step ts n (omega arith) best is)
