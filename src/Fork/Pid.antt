-- ===== src/Fork/Pid.antt =====
-- `find_empty_process` of kernel/fork.c: 64 tasks cannot hold 65 pids, so that the search ends.
use hios.Base.{
  ℕ, zero, suc, ◌+◌, ◌≤◌, ◌<◌, ◌^◌, ◌≡◌, ◌≢◌, refl, ◌⊎◌, inl, inr, arith, ltb, leb, ◌==◌, ◌&&◌,
  ◌||◌, if◌then◌else◌, Bool, true, false, Bool-cases, Option-cases, Option, none, some, first,
  is_null, first-cases,
}
use hios.Sched.{Task}
use hios.Proc.{Proc, find_pid}
use hios.Proc.Exit.{has_pid}
use hios.System.{System}
use hios.Fork.{choose_pid, find_empty_process}

-- The number of tasks in the `n` slots from `i` on whose pid passes the test.
abbrev passes : (ℕ → Bool) → Option Task → Bool
passes p none = false
passes p (some t) = p t.pid

unfoldable tally : (ℕ → Bool) → ℕ → ℕ → Proc → ℕ
tally p i zero k = 0
tally p i (suc n) k = (if passes p (k.task i) then 1 else 0) + tally p (suc i) n k

tally-le : (p : ℕ → Bool) (i n : ℕ) (k : Proc) → tally p i n k ≤ n
unfolding tally
tally-le p i zero k = omega arith
tally-le p i (suc n) k = ground (arith, tally-le p (suc i) n k)

tally_mono :
    (p q : ℕ → Bool) (i n : ℕ) (k : Proc)
    → ((x : ℕ) → p x ≡ true → q x ≡ true)
    → tally p i n k ≤ tally q i n k
unfolding tally
tally_mono p q i zero k h = omega arith
tally_mono p q i (suc n) k h = elim (Option-cases (k.task i)) [
  | inl e ↦ ground (arith, tally_mono p q (suc i) n k h)
  | inr (t, e) ↦ ground (arith, tally_mono p q (suc i) n k h, h t.pid)
]

-- A pid that is in use counts once more when the test takes it in.
tally_more :
    (p q : ℕ → Bool) (x i n j : ℕ) (k : Proc)
    → ((y : ℕ) → p y ≡ true → q y ≡ true)
    → p x ≡ false
    → q x ≡ true
    → find_pid x i n k ≡ some j
    → tally p i n k + 1 ≤ tally q i n k
unfolding tally find_pid
tally_more p q x i zero j k h out new found = absurd (ground arith)
tally_more p q x i (suc n) j k h out new found = elim (Option-cases (k.task i)) [
  | inl e ↦ ground (arith, tally_more p q x (suc i) n j k h out new)
  | inr (t, e) ↦ elim (Bool-cases (t.pid == x)) [
    | inl same ↦ let pid : t.pid ≡ x = ground arith in ground (arith, tally_mono p q (suc i) n k h)
    | inr other ↦ ground (arith, h t.pid, tally_more p q x (suc i) n j k h out new)
  ]
]

-- The pids tried before `p`: those from `tmp` on, and after the wrap also those from 1 on.
abbrev straight : ℕ → ℕ → ℕ → Bool
straight tmp p x = leb tmp x && ltb x p

abbrev wrapped : ℕ → ℕ → ℕ → Bool
wrapped tmp p x = (leb tmp x && ltb x (2 ^ 31)) || (leb 1 x && ltb x p)

-- The search ended at a pid that no task has.
abbrev Found : ℕ → ℕ → ℕ → Proc → Type 0
Found fuel tmp p k =
    (x : ℕ) × (choose_pid fuel tmp p k ≡ some x) × (find_pid x 0 64 k ≡ none) × (x < 2 ^ 31)

here-Found :
    (fuel tmp p : ℕ) (k : Proc) → p < 2 ^ 31 → find_pid p 0 64 k ≡ none → Found (suc fuel) tmp p k
unfolding choose_pid
here-Found fuel tmp p k small e = (p, rw (e, choose_pid) refl, e, small)

next-Found :
    (fuel tmp p q i : ℕ) (k : Proc)
    → find_pid p 0 64 k ≡ some i
    → p + 1 ≢ tmp
    → (if leb (2 ^ 31) (p + 1) then 1 else p + 1) ≡ q
    → Found fuel tmp q k
    → Found (suc fuel) tmp p k
unfolding choose_pid
next-Found fuel tmp p q i k e ne step (x, run, free, small) =
    let other : (p + 1 == tmp) ≡ false = ground arith in
    (x, rw (e, other, step, choose_pid) run, free, small)

after_wrap :
    (fuel tmp p : ℕ) (k : Proc)
    → 1 ≤ p
    → p + fuel < tmp
    → tmp < 2 ^ 31
    → Found fuel tmp p k ⊎ ((q : ℕ → Bool) × (tally (wrapped tmp p) 0 64 k + fuel ≤ tally q 0 64 k))
after_wrap zero tmp p k pos fits small = inr (wrapped tmp p, omega arith)
after_wrap (suc fuel) tmp p k pos fits small = elim (Option-cases (find_pid p 0 64 k)) [
  | inl e ↦ inl (here-Found fuel tmp p k (omega arith) e)
  | inr (i, e) ↦
      let more : tally (wrapped tmp p) 0 64 k + 1 ≤ tally (wrapped tmp (p + 1)) 0 64 k =
        tally_more (wrapped tmp p) (wrapped tmp (p + 1)) p 0 64 i k (λ y h. ground arith)
          (ground arith) (ground arith) e in
      elim (after_wrap fuel tmp (p + 1) k (omega arith) (omega arith) small) [
        | inl f ↦ inl (next-Found fuel tmp p (p + 1) i k e (omega arith) (ground arith) f)
        | inr (q, le) ↦ inr (q, omega arith)
      ]
]

before_wrap :
    (fuel tmp p : ℕ) (k : Proc)
    → tmp ≤ p
    → p < 2 ^ 31
    → p + fuel ≤ tmp + 65
    → Found fuel tmp p k
      ⊎ ((q : ℕ → Bool) × (tally (straight tmp p) 0 64 k + fuel ≤ tally q 0 64 k))
before_wrap zero tmp p k le small fits = inr (straight tmp p, omega arith)
before_wrap (suc fuel) tmp p k le small fits = elim (Option-cases (find_pid p 0 64 k)) [
  | inl e ↦ inl (here-Found fuel tmp p k small e)
  | inr (i, e) ↦ elim (Bool-cases (leb (2 ^ 31) (p + 1))) [
    | inl wraps ↦
        let more : tally (straight tmp p) 0 64 k + 1 ≤ tally (wrapped tmp 1) 0 64 k =
          tally_more (straight tmp p) (wrapped tmp 1) p 0 64 i k (λ y h. ground arith)
            (ground arith) (ground arith) e in
        elim (after_wrap fuel tmp 1 k (omega arith) (ground arith) (omega arith)) [
          | inl f ↦ inl (next-Found fuel tmp p 1 i k e (omega arith) (ground arith) f)
          | inr (q, le') ↦ inr (q, omega arith)
        ]
    | inr stays ↦
        let more : tally (straight tmp p) 0 64 k + 1 ≤ tally (straight tmp (p + 1)) 0 64 k =
          tally_more (straight tmp p) (straight tmp (p + 1)) p 0 64 i k (λ y h. ground arith)
            (ground arith) (ground arith) e in
        elim (before_wrap fuel tmp (p + 1) k (omega arith) (ground arith) (omega arith)) [
          | inl f ↦ inl (next-Found fuel tmp p (p + 1) i k e (omega arith) (ground arith) f)
          | inr (q, le') ↦ inr (q, omega arith)
        ]
  ]
]

find_pid-none :
    (x i n : ℕ) (k : Proc)
    → find_pid x i n k ≡ none
    → (j : ℕ) → i ≤ j
    → j < i + n
    → has_pid x (k.task j) ≡ false
unfolding find_pid
find_pid-none x i zero k h j lo hi = absurd (omega arith)
find_pid-none x i (suc n) k h j lo hi = elim (Bool-cases (i == j)) [
  | inl same ↦ elim (Option-cases (k.task j)) [ inl e ↦ ground arith | inr (t, e) ↦ ground arith ]
  | inr other ↦ find_pid-none x (suc i) n k (ground arith) j (ground arith) (omega arith)
]

pub choose_pid-free :
    (last_pid : ℕ) (k : Proc)
    → last_pid < 2 ^ 31
    → (x : ℕ) × (choose_pid 65 last_pid last_pid k ≡ some x)
      × (x < 2 ^ 31)
      × ((j : ℕ) → j < 64 → has_pid x (k.task j) ≡ false)
choose_pid-free last_pid k small =
    elim (before_wrap 65 last_pid last_pid k (omega arith) small (omega arith)) [
      | inl (x, run, free, lt) ↦ (x, run, lt, λ j h. find_pid-none x 0 64 k free j (omega arith) h)
      | inr (q, le) ↦ absurd (omega (arith, tally-le q 0 64 k))
    ]

-- `find_empty_process` ends: 65 rounds are enough for the search of a pid, whatever the last one was.
-- Then no task has the new pid, and the result is the first empty slot but slot 0, or -1 if there is
-- none. Nothing else changes.
pub find_empty_process-IsUnused :
    (s : System)
    → s.last_pid < 2 ^ 31
    → (x : ℕ) × (slot : Option ℕ) × (find_empty_process 65 s
        ≡ some (slot, record s { last_pid = x }))
      × (x < 2 ^ 31)
      × ((j : ℕ) → j < 64 → has_pid x (s.proc.task j) ≡ false)
      × ((slot ≡ none) × ((j : ℕ) → 1 ≤ j → j < 64 → s.proc.task j ≢ none)
          ⊎ ((nr : ℕ) × (slot ≡ some nr)
              × (1 ≤ nr)
              × (nr < 64)
              × (s.proc.task nr ≡ none)
              × ((j : ℕ) → 1 ≤ j → j < nr → s.proc.task j ≢ none)))
unfolding find_empty_process
find_empty_process-IsUnused s small =
    let (x, run, lt, free) = choose_pid-free s.last_pid s.proc small in
    (
      x,
      first (λ i. is_null (s.proc.task i)) 1 63,
      rw (run, find_empty_process) refl,
      lt,
      free,
      elim (first-cases (λ i. is_null (s.proc.task i)) 1 63) [
        | inl (e, all) ↦ inl (e, λ j lo hi empty. ground (arith, all j lo (omega arith)))
        | inr (nr, e, lo, hi, null, before) ↦ inr (
          nr,
          e,
          lo,
          omega arith,
          is_null-none (s.proc.task nr) null,
          λ j lj hj empty. ground (arith, before j lj hj),
        )
      ],
    )
  where
    is_null-none : (o : Option Task) → is_null o ≡ true → o ≡ none
    is_null-none none h = refl
    is_null-none (some t) h = absurd (ground arith)
