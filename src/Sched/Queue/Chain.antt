-- ===== src/Sched/Queue/Chain.antt =====
-- One `wake_up` wakes every task that sleeps on a queue, one after the other.
use hios.Base.{
  ℕ, ◌≡◌, ◌≢◌, refl, Option, none, some, List, [], ◌∷◌, map, arith, Option-cases, inl, inr,
}
use mathlib.Core.List.{reverse, reverse_aux}
use hios.Run.{Panic, Run-cases, Run, ok, panic}
use hios.Sched.{Task, Tasks, running}
use hios.Sched.Refill.{at_slot_lem}
use hios.Sched.Queue.{Waiting, set_state, make_ready, wake_up, sleep_on, sleep_on_resume}

-- The sleepers, the last first, each with its `tmp`.
abbrev pub Sleepers : Type 0
Sleepers = List (ℕ × Option ℕ)

-- Each `tmp` points to the sleeper before, and the queue to the last.
abbrev pub IsChain : Option ℕ → Sleepers → Type 0
IsChain head [] = head ≡ none
IsChain head ((i, tmp) ∷ rest) = (head ≡ some i) × IsChain tmp rest

-- The tasks of `is` go to sleep in turn.
unfoldable pub sleep_all : List ℕ → Waiting → Sleepers → Run Waiting Sleepers
sleep_all [] q rest = ok rest q
sleep_all (i ∷ is) q rest = elim (sleep_on i q) [
  | ok tmp q' ↦ sleep_all is q' ((i, tmp) ∷ rest)
  | panic e ↦ panic e
]

-- Each sleeper in turn runs on after its `schedule()`.
unfoldable pub resume_all : Sleepers → Waiting → Waiting
resume_all [] q = q
resume_all ((i, tmp) ∷ rest) q = resume_all rest (sleep_on_resume tmp q)

abbrev pub IsReady : Tasks → ℕ → Type 0
IsReady ts i = (t : Task) → ts i ≡ some t → t.state ≡ running

abbrev pub AllReady : Tasks → Sleepers → Type 0
AllReady ts [] = Unit
AllReady ts ((i, tmp) ∷ rest) = IsReady ts i × AllReady ts rest

make_ready-IsReady : (i : ℕ) (ts : Tasks) → IsReady (make_ready (some i) ts) i
unfolding make_ready set_state
make_ready-IsReady i ts t e = elim (Option-cases (ts i)) [
  | inl f ↦ ground (arith, at_slot_lem (set_state running) i ts i)
  | inr (u, f) ↦ ground (arith, at_slot_lem (set_state running) i ts i)
]

make_ready_keeps : (p : Option ℕ) (ts : Tasks) (i : ℕ) → IsReady ts i → IsReady (make_ready p ts) i
unfolding make_ready set_state
make_ready_keeps none ts i h t e = h t e
make_ready_keeps (some k) ts i h t e = elim (Option-cases (ts i)) [
  | inl f ↦ ground (arith, at_slot_lem (set_state running) k ts i)
  | inr (u, f) ↦ ground (arith, at_slot_lem (set_state running) k ts i, h u f)
]

resume_keeps :
    (rest : Sleepers) (q : Waiting) (i : ℕ) → IsReady q.task i → IsReady (resume_all rest q).task i
unfolding resume_all sleep_on_resume
resume_keeps [] q i h = h
resume_keeps ((k, tmp) ∷ rest) q i h =
    resume_keeps rest (sleep_on_resume tmp q) i (make_ready_keeps tmp q.task i h)

-- When the first sleeper of a chain is ready and each runs on in turn, all become ready and the
-- queue is empty at the end.
resume_all-AllReady :
    (rest : Sleepers) (i : ℕ) (tmp : Option ℕ) (q : Waiting)
    → IsChain tmp rest
    → IsReady q.task i
    → AllReady (resume_all ((i, tmp) ∷ rest) q).task ((i, tmp) ∷ rest)
      × ((resume_all ((i, tmp) ∷ rest) q).head ≡ none)
unfolding resume_all sleep_on_resume
resume_all-AllReady [] i tmp q chain h = ((make_ready_keeps tmp q.task i h, tt), chain)
resume_all-AllReady ((k, tmp') ∷ rest) i tmp q (e, chain) h =
    let ready : IsReady (sleep_on_resume tmp q).task k = rw e (make_ready-IsReady k q.task) in
    let (later, empty) = resume_all-AllReady rest k tmp' (sleep_on_resume tmp q) chain ready in
    (
      (
        resume_keeps ((k, tmp') ∷ rest) (sleep_on_resume tmp q) i (make_ready_keeps tmp q.task i h),
        later,
      ),
      empty,
    )

sleep_on_ne : (i : ℕ) (q : Waiting) (e : Panic) → i ≢ 0 → sleep_on i q ≢ panic e
unfolding sleep_on
sleep_on_ne i q e ne f = ground arith

slept :
    (i : ℕ) (q : Waiting) {tmp : Option ℕ} {q' : Waiting}
    → sleep_on i q ≡ ok tmp q'
    → (q'.head ≡ some i) × (tmp ≡ q.head)
unfolding sleep_on
slept i q run = ground arith

-- None of the slots is that of task 0.
abbrev pub NoTask0 : List ℕ → Type 0
NoTask0 [] = Unit
NoTask0 (i ∷ is) = (i ≢ 0) × NoTask0 is

abbrev pub slots : Sleepers → List ℕ
slots = map (λ p. p.0)

sleep_all-IsChain :
    (is : List ℕ) (q : Waiting) (rest : Sleepers)
    → NoTask0 is
    → IsChain q.head rest
    → (all : Sleepers) × (q' : Waiting) × (sleep_all is q rest ≡ ok all q')
      × IsChain q'.head all
      × (slots all ≡ reverse_aux is (slots rest))
unfolding sleep_all
sleep_all-IsChain [] q rest safe chain = (rest, q, refl, chain, refl)
sleep_all-IsChain (i ∷ is) q rest (ne, safe) chain = elim (Run-cases (sleep_on i q)) [
  | inr (e, f) ↦ absurd (sleep_on_ne i q e ne f)
  | inl (tmp, q1, f) ↦
      let (a, b) = slept i q f in
      let (all, q', run, is_chain, same) =
        sleep_all-IsChain is q1 ((i, tmp) ∷ rest) safe (a, rw b chain) in
      (all, q', rw (f, sleep_all) run, is_chain, same)
]

-- Tasks that go to sleep on an empty queue, none of them task 0, form a chain from the last to the
-- first. One `wake_up`, after which each sleeper in turn runs on, makes every one of them ready and
-- leaves the queue empty.
pub wake_up-sleep_all :
    (is : List ℕ) (q : Waiting)
    → NoTask0 is
    → q.head ≡ none
    → (all : Sleepers) × (q' : Waiting) × (sleep_all is q [] ≡ ok all q')
      × (slots all ≡ reverse is)
      × AllReady (resume_all all (wake_up q')).task all
      × ((resume_all all (wake_up q')).head ≡ none)
unfolding wake_up
wake_up-sleep_all is q safe empty =
    let (all, q', run, chain, same) = sleep_all-IsChain is q [] safe empty in
    (all, q', run, same, (ready all q' chain).0, (ready all q' chain).1)
  where
    ready :
        (all : Sleepers) (q' : Waiting)
        → IsChain q'.head all
        → AllReady (resume_all all (wake_up q')).task all
          × ((resume_all all (wake_up q')).head ≡ none)
    ready [] q' chain = unfold resume_all in (tt, refl)
    ready ((i, tmp) ∷ rest) q' (e, chain) =
        resume_all-AllReady rest i tmp (wake_up q') chain (rw e (make_ready-IsReady i q'.task))
