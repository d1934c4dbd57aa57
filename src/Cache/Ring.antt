-- ===== src/Cache/Ring.antt =====
-- The ring of free buffers of fs/buffer.c, and the search along it in `getblk`.
use hios.Base.{
  ℕ, zero, suc, ◌≤◌, ◌<◌, ◌≡◌, ◌≢◌, refl, sym, ◌∙◌, ap, ◌⊎◌, inl, inr, arith, true, false,
  Bool-cases, ◌==◌, ltb, Option, none, some, List, [], ◌∷◌, length,
}
use hios.Cache.{Cache, badness, better, choose, stops, follow, scan_free}
use hios.Cache.Chain.{has}

-- From buffer `i`, `next` leads through the buffers of the list to `stop`.
pub data Round (next : ℕ → Option ℕ) (stop : ℕ) : ℕ → List ℕ → Type 0 where
  last : {i : ℕ} → next i ≡ some stop → Round next stop i (i ∷ [])
  more :
      {i j : ℕ} {l : List ℕ}
      → next i ≡ some j
      → j ≢ stop
      → Round next stop j l
      → Round next stop i (i ∷ l)

-- The ring holds all the buffers, each once.
pub record IsRing (s : Cache) : Type 0 where
  pub ring : List ℕ
  pub round : Round s.b_next_free s.free_list s.free_list ring
  pub size : length ring ≡ s.nr_buffers
  pub all : (i : ℕ) → i < s.nr_buffers → has i ring ≡ true
  pub inside : (i : ℕ) → has i ring ≡ true → i < s.nr_buffers
  pub back : (i j : ℕ) → i < s.nr_buffers → s.b_next_free i ≡ some j → s.b_prev_free j ≡ some i
  pub joined :
      (i : ℕ)
      → i < s.nr_buffers
      → (p : ℕ) × (q : ℕ) × (s.b_prev_free i ≡ some p) × (s.b_next_free i ≡ some q)

some-inj : {i j : ℕ} → some i ≡ some j → i ≡ j
some-inj {i = i} e = ap (λ (o : Option ℕ). elim o [ none ↦ i | some k ↦ k ]) e

-- The buffer `d` that is the best so far after the idle buffer `tmp`
better-cases :
    (tmp : ℕ) (best : Option ℕ) (s : Cache)
    → (d : ℕ) × (better tmp best s ≡ some d)
      × ((best ≡ some d) ⊎ (d ≡ tmp))
      × (badness d s ≤ badness tmp s)
      × ((c : ℕ) → best ≡ some c → badness d s ≤ badness c s)
unfolding better
better-cases tmp none s = (tmp, refl, inr refl, omega arith, λ c e. absurd (ground arith))
better-cases tmp (some b) s = elim (Bool-cases (ltb (badness tmp s) (badness b s))) [
  | inl less ↦ (
    tmp,
    rw less refl,
    inr refl,
    omega arith,
    λ c e. let bc : badness b s ≡ badness c s = ap (bad b) e in ground arith,
  )
  | inr not_less ↦ (
    b,
    rw not_less refl,
    inl refl,
    ground arith,
    λ c e. let bc : badness b s ≡ badness c s = ap (bad b) e in ground arith,
  )
]
  where
    bad : ℕ → Option ℕ → ℕ
    bad b none = badness b s
    bad b (some c) = badness c s

-- What the search gives, from the buffers of a list and the best before them: nothing, if all are in
-- use; or else an idle buffer that is no worse than any of the idle ones.
unfoldable pub Best : Option ℕ → List ℕ → Cache → Option ℕ → Type 0
Best best l s r =
    (r ≡ none) × (best ≡ none) × ((i : ℕ) → has i l ≡ true → s.b_count i ≢ 0)
    ⊎ ((b : ℕ) × (r ≡ some b)
        × ((best ≡ some b) ⊎ ((has b l ≡ true) × (s.b_count b ≡ 0)))
        × ((i : ℕ) → has i l ≡ true → s.b_count i ≡ 0 → badness b s ≤ badness i s)
        × ((c : ℕ) → best ≡ some c → badness b s ≤ badness c s))

-- A round begins at its first buffer, and ends there or goes on.
Round-first :
    {next : ℕ → Option ℕ} {stop i : ℕ} {l : List ℕ}
    → Round next stop i l
    → (tail : List ℕ) × (l ≡ i ∷ tail)
      × ((tail ≡ []) × (next i ≡ some stop)
          ⊎ ((j : ℕ) × (next i ≡ some j) × (j ≢ stop) × Round next stop j tail))
Round-first (last e) = ([], refl, inl (refl, e))
Round-first (more {j = j} {l = l} e ne r) = (l, refl, inr (j, e, ne, r))

-- The rest of the loop, after the buffer `tmp`
unfoldable go_on : ℕ → ℕ → Option ℕ → Cache → Option ℕ
go_on fuel tmp best s =
    follow (s.b_next_free tmp) s.free_list best (λ next. scan_free fuel next best s)

busy-Best :
    (tmp : ℕ) (best : Option ℕ) (l : List ℕ) (s : Cache) (r : Option ℕ)
    → s.b_count tmp ≢ 0
    → Best best l s r
    → Best best (tmp ∷ l) s r
unfolding Best
busy-Best tmp best l s r busy (inl (none_is, no_best, all)) = inl (
  none_is,
  no_best,
  λ i m. elim (Bool-cases (i == tmp)) [
    | inl same ↦ let e : i ≡ tmp = ground arith in rw e busy
    | inr other ↦ all i (ground arith)
  ],
)
busy-Best tmp best l s r busy (inr (b, is, from, least, no_worse)) = inr (
  b,
  is,
  elim from [ inl e ↦ inl e | inr (m, idle) ↦ inr (ground arith, idle) ],
  λ i m idle. elim (Bool-cases (i == tmp)) [
    | inl same ↦ let e : i ≡ tmp = ground arith in absurd (busy (ap s.b_count (sym e) ∙ idle))
    | inr other ↦ least i (ground arith) idle
  ],
  no_worse,
)

idle-Best :
    (tmp d : ℕ) (best : Option ℕ) (l : List ℕ) (s : Cache) (r : Option ℕ)
    → s.b_count tmp ≡ 0
    → (best ≡ some d) ⊎ (d ≡ tmp)
    → badness d s ≤ badness tmp s
    → ((c : ℕ) → best ≡ some c → badness d s ≤ badness c s)
    → Best (some d) l s r
    → Best best (tmp ∷ l) s r
unfolding Best
idle-Best tmp d best l s r idle choice le no_worse (inl (none_is, no_best, all)) =
    absurd (ground arith)
idle-Best tmp d best l s r idle choice le no_worse (inr (b, is, from, least, better)) = inr (
  b,
  is,
  elim from [
    | inl e ↦ elim choice [
      | inl q ↦ inl (q ∙ e)
      | inr q ↦
          let bt : b ≡ tmp = some-inj (sym e ∙ ap some q) in
          inr (ground arith, ap s.b_count bt ∙ idle)
    ]
    | inr (m, free) ↦ inr (ground arith, free)
  ],
  λ i m free. elim (Bool-cases (i == tmp)) [
    | inl same ↦
        let e : badness i s ≡ badness tmp s = ap (λ x. badness x s) (ground arith) in
        omega (arith, better d refl)
    | inr other ↦ least i (ground arith) free
  ],
  λ c e. omega (arith, better d refl, no_worse c e),
)

end-Best : (best : Option ℕ) (s : Cache) → Best best [] s best
unfolding Best
end-Best none s = inl (refl, refl, λ i m. absurd (ground arith))
end-Best (some b) s = inr (
  b,
  refl,
  inl refl,
  λ i m. absurd (ground arith),
  λ c e. let bc : b ≡ c = some-inj e in omega (arith, ap (λ x. badness x s) bc),
)

go_on-Best :
    (fuel tmp : ℕ) (best : Option ℕ) (tail : List ℕ) (s : Cache)
    → ((tail ≡ []) × (s.b_next_free tmp ≡ some s.free_list)
        ⊎ ((j : ℕ) × (s.b_next_free tmp ≡ some j)
            × (j ≢ s.free_list)
            × Best best tail s (scan_free fuel j best s)))
    → Best best tail s (go_on fuel tmp best s)
unfolding go_on follow
go_on-Best fuel tmp best tail s (inl (empty, e)) =
    let run : go_on fuel tmp best s ≡ best = rw (e, follow) (ground arith) in
    rw (run, empty) (end-Best best s)
go_on-Best fuel tmp best tail s (inr (j, e, ne, rest)) =
    let far : (j == s.free_list) ≡ false = ground arith in
    let run : go_on fuel tmp best s ≡ scan_free fuel j best s = rw (e, far, follow) refl in
    rw run rest

scan_free-stop :
    (fuel tmp : ℕ) (best m : Option ℕ) (s : Cache)
    → choose tmp best s ≡ m
    → stops tmp m s ≡ true
    → scan_free (suc fuel) tmp best s ≡ m
unfolding scan_free
scan_free-stop fuel tmp best m s e stop = rw (e, stop, scan_free) refl

scan_free-go_on :
    (fuel tmp : ℕ) (best m : Option ℕ) (s : Cache)
    → choose tmp best s ≡ m
    → stops tmp m s ≡ false
    → scan_free (suc fuel) tmp best s ≡ go_on fuel tmp m s
unfolding scan_free go_on
scan_free-go_on fuel tmp best m s e go = rw (e, go, scan_free) refl

stop-Best :
    (tmp d : ℕ) (l : List ℕ) (s : Cache) → stops tmp (some d) s ≡ true → Best (some d) l s (some d)
unfolding Best stops
stop-Best tmp d l s stop =
    let dt : d ≡ tmp = ground arith in
    let free : badness tmp s ≡ 0 = ground arith in
    let least : badness d s ≡ 0 = ap (λ x. badness x s) dt ∙ free in
    inr (d, refl, inl refl, λ i m idle. omega arith, λ c e. omega arith)

-- The search along a round of at most `fuel` buffers gives the best of them.
pub scan_free-Best :
    (s : Cache) (fuel tmp : ℕ) (best : Option ℕ) {l : List ℕ}
    → Round s.b_next_free s.free_list tmp l
    → length l ≤ fuel
    → Best best l s (scan_free fuel tmp best s)
unfolding choose stops
scan_free-Best s zero tmp best r fits =
    let (tail, e, _) = Round-first r in absurd (omega (arith, ap length e))
scan_free-Best s (suc fuel) tmp best {l = l} r fits =
    let (tail, e, on) = Round-first r in
    let short : length tail ≤ fuel = omega (arith, ap length e) in
    let rest : (m : Option ℕ) → Best m tail s (go_on fuel tmp m s) = λ m.
      go_on-Best fuel tmp m tail s (elim on [
        | inl q ↦ inl q
        | inr (j, q, ne, r') ↦ inr (j, q, ne, scan_free-Best s fuel j m r' short)
      ]) in
    rw e (elim (Bool-cases (s.b_count tmp == 0)) [
      | inl idle ↦
          let (d, run, choice, le, no_worse) = better-cases tmp best s in
          let at : choose tmp best s ≡ some d = rw (idle, choose) run in
          idle-Best tmp d best tail s (scan_free (suc fuel) tmp best s) (ground arith) choice le
            no_worse
            (elim (Bool-cases (stops tmp (some d) s)) [
              | inl stop ↦
                  rw (scan_free-stop fuel tmp best (some d) s at stop) (stop-Best tmp d tail s stop)
              | inr go ↦ rw (scan_free-go_on fuel tmp best (some d) s at go) (rest (some d))
            ])
      | inr busy ↦
          let at : choose tmp best s ≡ best = rw (busy, choose) refl in
          let go : stops tmp best s ≡ false = rw (busy, stops) refl in
          busy-Best tmp best tail s (scan_free (suc fuel) tmp best s) (ground arith)
            (rw (scan_free-go_on fuel tmp best best s at go) (rest best))
    ])
