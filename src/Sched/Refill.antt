-- ===== src/Sched/Refill.antt =====
-- `schedule` of kernel/sched.c: how it ends, and which task it switches to.
use hios.Base.{
  ℕ, zero, suc, ◌+◌, ◌/◌, ◌≤◌, ◌<◌, ◌≡◌, refl, ◌⊎◌, inl, inr, arith, leb, ◌==◌, ◌&&◌, if◌then◌else◌,
  true, Bool-cases, Option-cases, Option, none, some,
}
use hios.Sched.{Task, Tasks, is_running, pick, recharge, at_slot, each_task, breaks, select}
use hios.Sched.Pick.{NoneReady, Largest, IsBest, pick-IsBest}

pub at_slot_lem :
    (f : Task → Task) (k : ℕ) (ts : Tasks) (i : ℕ)
    → at_slot f k ts i
      ≡ (if k == i then elim (ts i) [ none ↦ none | some t ↦ some (f t) ] else ts i)
unfolding at_slot
at_slot_lem f k ts i = elim (Option-cases (ts k)) [
  | inl e ↦ ground arith
  | inr (t, e) ↦ ground arith
]

-- `each_task` changes the slots from 1 to `n`, each by itself.
pub each_task_lem :
    (f : Task → Task) (n : ℕ) (ts : Tasks) (i : ℕ)
    → each_task f n ts i
      ≡ (if leb 1 i && leb i n then elim (ts i) [ none ↦ none | some t ↦ some (f t) ] else ts i)
unfolding each_task
each_task_lem f zero ts i = ground arith
each_task_lem f (suc n) ts i =
    ground (arith, each_task_lem f n (at_slot f (suc n) ts) i, at_slot_lem f (suc n) ts i)

-- What `schedule` picks: task 0 if no other task is ready, and else a ready task with time left
-- whose counter is the largest, the one in the highest slot if several have it.
abbrev pub Chosen : Tasks → ℕ → Type 0
Chosen ts next = ((next ≡ 0) × NoneReady ts 0) ⊎ ((c : ℕ) × (0 < c) × Largest ts 0 next c)

-- The time slices as they were, or, if every ready task had used its own up, all recharged.
abbrev pub Recharged : Tasks → Tasks → Type 0
Recharged ts ts' =
    (ts' ≡ ts)
    ⊎ (ts' ≡ each_task recharge 63 ts)
      × ((i : ℕ) (t : Task)
          → 0 < i
          → i < 64
          → ts i ≡ some t
          → is_running t.state ≡ true
          → t.counter ≡ 0)

best : (ts : Tasks) → IsBest ts 0 (pick 63 ts (none, 0))
best ts = pick-IsBest 63 ts (none, 0) (omega arith) (refl, λ i t lo hi. absurd (omega arith))

-- A round ends the loop with a right choice, or every ready task has counter 0.
round :
    (ts : Tasks) (c : Option ℕ) (next : ℕ)
    → IsBest ts 0 (c, next)
    → (breaks c ≡ true) × Chosen ts next ⊎ (c ≡ some 0) × Largest ts 0 next 0
unfolding breaks
round ts none next is = inl (refl, inl is)
round ts (some zero) next is = inr (refl, is)
round ts (some (suc c)) next is = inl (ground arith, inr (suc c, omega arith, is))

module _ (ts : Tasks)
    (positive : (i : ℕ) (t : Task)
      → 0 < i
      → i < 64
      → ts i ≡ some t
      → is_running t.state ≡ true
      → 0 < t.priority) where
  -- After recharging, some ready task has time left.
  never_twice :
      (next next' : ℕ) → Largest ts 0 next 0 → Largest (each_task recharge 63 ts) 0 next' 0 → ⊥
  unfolding recharge
  never_twice next next' first second =
      let t = first.chosen.task in
      let left : (t.counter / 2 + t.priority) ≤ 0 =
        second.largest next (recharge t) first.range.0 first.range.1
          (ground (arith, each_task_lem recharge 63 ts next, first.chosen.there, first.range))
          first.chosen.ready in
      absurd (
        omega (
          arith,
          left,
          positive next t first.range.0 first.range.1 first.chosen.there first.chosen.ready,
        ))

-- Where every ready task has a positive priority, two rounds are enough: the loop ends, with a right
-- choice.
pub select-Chosen :
    (fuel : ℕ) (ts : Tasks)
    → ((i : ℕ) (t : Task)
        → 0 < i
        → i < 64
        → ts i ≡ some t
        → is_running t.state ≡ true
        → 0 < t.priority)
    → (ts' : Tasks) × (next : ℕ) × (select (suc (suc fuel)) ts ≡ some (ts', next))
      × Chosen ts' next
      × Recharged ts ts'
unfolding select breaks
select-Chosen fuel ts positive =
    let again = each_task recharge 63 ts in
    let first = pick 63 ts (none, 0) in
    let second = pick 63 again (none, 0) in
    elim (round ts first.0 first.1 (best ts)) [
      | inl (b, chosen) ↦ (ts, first.1, rw b refl, chosen, inl refl)
      | inr (e, all) ↦ elim (round again second.0 second.1 (best again)) [
        | inl (b, chosen) ↦ (
          again,
          second.1,
          rw (e, b) refl,
          chosen,
          inr (refl, λ i t lo hi f r. omega (arith, all.largest i t lo hi f r)),
        )
        | inr (e', all') ↦ absurd (never_twice ts positive first.1 second.1 all all')
      ]
    ]

-- The loop changes nothing in a task but its counter.
pub select_keeps :
    (fuel : ℕ) (ts ts' : Tasks) (next : ℕ)
    → select fuel ts ≡ some (ts', next)
    → (i : ℕ) (t : Task) → ts i ≡ some t
    → (c : ℕ) × (ts' i ≡ some (record t { counter = c }))
unfolding select recharge
select_keeps zero ts ts' next run i t e = cc
select_keeps (suc fuel) ts ts' next run i t e =
    elim (Bool-cases (breaks (pick 63 ts (none, 0)).0)) [
      | inl b ↦ (t.counter, ground arith)
      | inr b ↦
          let rest : select fuel (each_task recharge 63 ts) ≡ some (ts', next) = ground arith in
          elim (Bool-cases (leb 1 i && leb i 63)) [
            | inl inside ↦
                select_keeps fuel (each_task recharge 63 ts) ts' next rest i (recharge t)
                  (ground (arith, each_task_lem recharge 63 ts i))
            | inr outside ↦
                select_keeps fuel (each_task recharge 63 ts) ts' next rest i t
                  (ground (arith, each_task_lem recharge 63 ts i))
          ]
    ]
