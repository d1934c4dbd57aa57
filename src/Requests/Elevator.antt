-- ===== src/Requests/Elevator.antt =====
-- The order in which add_request of kernel/blk_drv/ll_rw_blk.c puts a request into a queue.
use hios.Base.{
  ℕ, zero, suc, ◌+◌, ◌≤◌, ◌≡◌, ◌≢◌, refl, sym, ◌∙◌, ap, ◌⊎◌, inl, inr, arith, Bool, true, false,
  not, ◌&&◌, ◌||◌, Bool-cases, if◌then◌else◌, Option, none, some, update, List, [], ◌∷◌, length,
}
use hios.Run.{ok, Cmd}
use hios.Cache.Chain.{has, Chain, end, link, Chain-frame, along-Chain}
use hios.Requests.{
  Requests, nr_request, dev_of, in_order, find_place, insert_after, start_request, add_request,
}

-- `req` goes between these two neighbours.
unfoldable pub fits_between : Requests → ℕ → ℕ → ℕ → Bool
fits_between s req a b = (in_order s a req || not (in_order s a b)) && in_order s req b

-- The queue with `req` in the first place where it fits, but never first
unfoldable pub placed : Requests → ℕ → ℕ → List ℕ → List ℕ
placed s req a [] = a ∷ req ∷ []
placed s req a (b ∷ l) =
    let rest = placed s req b l in if fits_between s req a b then a ∷ req ∷ b ∷ l else a ∷ rest

-- How often the order turns back along a queue
unfoldable pub turns : Requests → ℕ → List ℕ → ℕ
turns s a [] = 0
turns s a (b ∷ l) = (if in_order s a b then 0 else 1) + turns s b l

unfoldable pub turns_of : Requests → List ℕ → ℕ
turns_of s [] = 0
turns_of s (a ∷ l) = turns s a l

Chain-last : {next : ℕ → Option ℕ} {p : Option ℕ} → Chain next p [] → p ≡ none
Chain-last end = refl

Chain-rest :
    {next : ℕ → Option ℕ} {p : Option ℕ} {b : ℕ} {l : List ℕ}
    → Chain next p (b ∷ l)
    → (p ≡ some b) × (has b l ≡ false) × Chain next (next b) l
Chain-rest (link new c) = (refl, new, c)

-- Requests that differ are in one order or the other.
unfoldable pub Differ : Requests → ℕ → ℕ → Type 0
Differ s a b =
    (s.r_cmd a ≢ s.r_cmd b)
    ⊎ (dev_of (s.r_dev a) ≢ dev_of (s.r_dev b))
    ⊎ (s.r_sector a ≢ s.r_sector b)

in_order-total :
    (s : Requests) (a b : ℕ) → Differ s a b → in_order s a b ≡ false → in_order s b a ≡ true
unfolding Differ in_order
in_order-total s a b (inl ne) h = ground arith
in_order-total s a b (inr (inl ne)) h = ground arith
in_order-total s a b (inr (inr ne)) h = ground arith

-- The first of the queue stays the first.
turns-placed :
    (s : Requests) (req x b : ℕ) (l : List ℕ)
    → turns s x (placed s req b l)
      ≡ (if in_order s x b then 0 else 1) + turns_of s (placed s req b l)
unfolding turns placed turns_of
turns-placed s req x b [] = refl
turns-placed s req x b (c ∷ l) = elim (Bool-cases (fits_between s req b c)) [
  | inl fit ↦ rw fit refl
  | inr no_fit ↦ rw no_fit refl
]

placed-fits :
    (s : Requests) (req a b : ℕ) (l : List ℕ)
    → fits_between s req a b ≡ true
    → turns_of s (placed s req a (b ∷ l)) ≡ turns s a (req ∷ b ∷ l)
unfolding placed turns_of
placed-fits s req a b l fit = rw fit refl

placed-on :
    (s : Requests) (req a b : ℕ) (l : List ℕ)
    → fits_between s req a b ≡ false
    → turns_of s (placed s req a (b ∷ l))
      ≡ (if in_order s a b then 0 else 1) + turns_of s (placed s req b l)
unfolding placed turns_of
placed-on s req a b l no_fit = rw no_fit (turns-placed s req a b l)

-- After a request that comes before `req`, the queue does not turn once more.
turns-above :
    (s : Requests) (req a : ℕ) (l : List ℕ)
    → ((x : ℕ) → has x l ≡ true → Differ s req x)
    → in_order s a req ≡ true
    → turns_of s (placed s req a l) ≤ turns s a l
unfolding turns placed turns_of fits_between
turns-above s req a [] differ up = rw up (omega arith)
turns-above s req a (b ∷ l) differ up = elim (Bool-cases (in_order s req b)) [
  | inl lower ↦
      let fit : fits_between s req a b ≡ true = rw (up, lower, fits_between) refl in
      rw (placed-fits s req a b l fit, up, lower) (omega arith)
  | inr not_lower ↦
      let no_fit : fits_between s req a b ≡ false = rw (up, not_lower, fits_between) refl in
      let up' = in_order-total s req b (differ b (ground arith)) not_lower in
      let ih = turns-above s req b l (λ x m. differ x (ground arith)) up' in
      rw (placed-on s req a b l no_fit) (omega (arith, ih))
]

-- A queue that turns at most once still does so with `req`.
turns-once :
    (s : Requests) (req a : ℕ) (l : List ℕ)
    → ((x : ℕ) → has x l ≡ true → Differ s req x)
    → turns s a l ≤ 1
    → turns_of s (placed s req a l) ≤ 1
unfolding turns placed turns_of fits_between
turns-once s req a [] differ once = ground arith
turns-once s req a (b ∷ l) differ once = elim (Bool-cases (fits_between s req a b)) [
  | inl fit ↦ rw (placed-fits s req a b l fit) (ground arith)
  | inr no_fit ↦ elim (Bool-cases (in_order s a b)) [
    | inl up ↦
        let ih = turns-once s req b l (λ x m. differ x (ground arith)) (ground arith) in
        rw (placed-on s req a b l no_fit, up) (omega (arith, ih))
    | inr down ↦
        let not_lower : in_order s req b ≡ false = ground arith in
        let up' = in_order-total s req b (differ b (ground arith)) not_lower in
        let ih = turns-above s req b l (λ x m. differ x (ground arith)) up' in
        rw (placed-on s req a b l no_fit, down) (ground (arith, ih))
  ]
]

has-placed :
    (s : Requests) (req a x : ℕ) (l : List ℕ) → x ≢ req → has x (placed s req a l) ≡ has x (a ∷ l)
unfolding placed
has-placed s req a x [] ne = ground arith
has-placed s req a x (b ∷ l) ne = elim (Bool-cases (fits_between s req a b)) [
  | inl fit ↦ rw fit (ground arith)
  | inr no_fit ↦ let ih = has-placed s req b x l ne in rw no_fit (ground (arith, ih))
]

placed-has : (s : Requests) (req a : ℕ) (l : List ℕ) → has req (placed s req a l) ≡ true
unfolding placed
placed-has s req a [] = ground arith
placed-has s req a (b ∷ l) = elim (Bool-cases (fits_between s req a b)) [
  | inl fit ↦ rw fit (ground arith)
  | inr no_fit ↦ let ih = placed-has s req b l in rw no_fit (ground (arith, ih))
]

find_place-here :
    (s : Requests) (fuel req a b : ℕ)
    → s.r_next a ≡ some b
    → fits_between s req a b ≡ true
    → find_place (suc fuel) req a s ≡ a
unfolding find_place fits_between
find_place-here s fuel req a b e fit = rw (e, find_place) (rw fit refl)

find_place-on :
    (s : Requests) (fuel req a b : ℕ)
    → s.r_next a ≡ some b
    → fits_between s req a b ≡ false
    → find_place (suc fuel) req a s ≡ find_place fuel req b s
unfolding find_place fits_between
find_place-on s fuel req a b e no_fit = rw (e, find_place) (rw no_fit refl)

find_place-last : (s : Requests) (fuel req a : ℕ) → s.r_next a ≡ none → find_place fuel req a s ≡ a
unfolding find_place
find_place-last s zero req a e = refl
find_place-last s (suc fuel) req a e = rw (e, find_place) refl

-- The pointers after `req` has gone in after `p`
with_request : (ℕ → Option ℕ) → ℕ → ℕ → ℕ → Option ℕ
with_request next p req = update (update next req (next p)) p (some req)

unmoved : (next : ℕ → Option ℕ) (p req a : ℕ) → p ≢ a → a ≢ req → with_request next p req a ≡ next a
unfolding with_request
unmoved next p req a far ne = ground arith

-- `req` goes in right after the first of a chain.
right_after :
    (next : ℕ → Option ℕ) (req a : ℕ) (l : List ℕ)
    → has a l ≡ false
    → has req (a ∷ l) ≡ false
    → Chain next (next a) l
    → Chain (with_request next a req) (some a) (a ∷ req ∷ l)
unfolding with_request
right_after next req a l new out c =
    let ne : a ≢ req = ground arith in
    let first : with_request next a req a ≡ some req = ground arith in
    let second : with_request next a req req ≡ next a = ground arith in
    let same : Chain (with_request next a req) (next a) l = Chain-frame c (λ j m.
      (let ja : a ≢ j = λ e. ground (arith, ap (λ x. has x l) e) in
        let jr : req ≢ j = λ e. ground (arith, ap (λ x. has x l) e) in ground arith)) in
    link (ground arith)
      (along-Chain (sym first) (link (ground arith) (along-Chain (sym second) same)))

behind : (x a : ℕ) (l : List ℕ) → has x l ≡ true → has x (a ∷ l) ≡ true
behind x a l m = ground arith

find_place-placed :
    (s : Requests) (fuel req a : ℕ) (l : List ℕ)
    → length l ≤ fuel
    → has a l ≡ false
    → has req (a ∷ l) ≡ false
    → Chain s.r_next (s.r_next a) l
    → (has (find_place fuel req a s) (a ∷ l) ≡ true)
      × Chain (with_request s.r_next (find_place fuel req a s) req) (some a) (placed s req a l)
unfolding placed
find_place-placed s fuel req a [] short new out c =
    rw (find_place-last s fuel req a (Chain-last c))
      (ground arith, right_after s.r_next req a [] new out c)
find_place-placed s zero req a (b ∷ l) short new out c = absurd (omega arith)
find_place-placed s (suc fuel) req a (b ∷ l) short new out c =
    let (e, new', c') = Chain-rest c in
    elim (Bool-cases (fits_between s req a b)) [
      | inl fit ↦
          rw (find_place-here s fuel req a b e fit, fit)
            (ground arith, right_after s.r_next req a (b ∷ l) new out c)
      | inr no_fit ↦
          let p = find_place fuel req b s in
          let (m, c2) = find_place-placed s fuel req b l (omega arith) new' (ground arith) c' in
          let ne : a ≢ req = ground arith in
          let far : p ≢ a = λ q. ground (arith, ap (λ x. has x (b ∷ l)) q) in
          let kept : with_request s.r_next p req a ≡ some b = unmoved s.r_next p req a far ne ∙ e in
          let away : has a (placed s req b l) ≡ false = has-placed s req b a l ne ∙ new in
          let q : find_place (suc fuel) req a s ≡ p = find_place-on s fuel req a b e no_fit in
          (
            ap (λ z. has z (a ∷ b ∷ l)) q ∙ behind p a (b ∷ l) m,
            rw (q, no_fit) (link away (along-Chain (sym kept) c2)),
          )
    ]

-- Only the order of the requests matters to where one goes.
placed_cong :
    (s t : Requests) (req a : ℕ) (l : List ℕ)
    → ((x y : ℕ) → in_order t x y ≡ in_order s x y)
    → placed t req a l ≡ placed s req a l
unfolding placed fits_between
placed_cong s t req a [] same = refl
placed_cong s t req a (b ∷ l) same =
    rw (same a req, same a b, same req b, placed_cong s t req b l same) refl

turns_cong :
    (s t : Requests) (l : List ℕ)
    → ((x y : ℕ) → in_order t x y ≡ in_order s x y)
    → turns_of t l ≡ turns_of s l
unfolding turns_of turns
turns_cong s t [] same = refl
turns_cong s t (a ∷ []) same = refl
turns_cong s t (a ∷ b ∷ l) same = rw (same a b, turns_cong s t (b ∷ l) same) refl

start_request-in_order :
    (s : Requests) (req x y : ℕ) → in_order (start_request req s) x y ≡ in_order s x y
unfolding in_order
start_request-in_order s req x y = refl

insert_after-in_order :
    (s : Requests) (p req x y : ℕ) → in_order (insert_after p req s) x y ≡ in_order s x y
unfolding in_order
insert_after-in_order s p req x y = refl

-- On a device that is busy, add_request puts the request into the queue of the device, behind the
-- current one and between the first two neighbours that it fits between, or last; the others keep their
-- order. The queue has at most 32 requests behind the current one, and the new one is not among them.
pub add_request-placed :
    (request_fn : ℕ → Option (Cmd Requests (Unit {0})))
    (sleep_on : Option ℕ → Cmd Requests (Unit {0})) (s : Requests) (major req a : ℕ) (l : List ℕ)
    → s.current_request major ≡ some a
    → Chain s.r_next (some a) (a ∷ l)
    → length l ≤ nr_request
    → has req (a ∷ l) ≡ false
    → (s' : Requests) × (add_request request_fn sleep_on major req s ≡ ok tt s')
      × Chain s'.r_next (s'.current_request major) (placed s req a l)
      × ((x y : ℕ) → in_order s' x y ≡ in_order s x y)
unfolding add_request with_request
add_request-placed request_fn sleep_on s major req a l busy c short out =
    let t = start_request req s in
    let p = find_place nr_request req a t in
    let (_, new, rest) = Chain-rest c in
    let ne : req ≢ a = ground arith in
    let same : t.r_next a ≡ s.r_next a = ground arith in
    let rest' : Chain t.r_next (t.r_next a) l = along-Chain (sym same) (
      Chain-frame rest
        (λ j m. (let nj : req ≢ j = λ e. ground (arith, ap (λ x. has x l) e) in ground arith))) in
    let (_, done) = find_place-placed t nr_request req a l short new out rest' in
    let where_to = placed_cong s t req a l (start_request-in_order s req) in
    (
      insert_after p req t,
      rw (busy, add_request) refl,
      rw (busy, sym where_to) done,
      λ x y. insert_after-in_order t p req x y ∙ start_request-in_order s req x y,
    )

-- The queue stays an elevator's. On a device that is busy, where the order of the queue turns back at
-- most once and no request that waits in it has the command, device and sector of the new one, the
-- order of the queue that add_request makes turns back at most once too. The queue has at most 32
-- requests behind the current one, and the new one is not among them.
pub add_request-turns :
    (request_fn : ℕ → Option (Cmd Requests (Unit {0})))
    (sleep_on : Option ℕ → Cmd Requests (Unit {0})) (s : Requests) (major req a : ℕ) (l : List ℕ)
    → s.current_request major ≡ some a
    → Chain s.r_next (some a) (a ∷ l)
    → length l ≤ nr_request
    → has req (a ∷ l) ≡ false
    → ((x : ℕ) → has x l ≡ true → Differ s req x)
    → turns s a l ≤ 1
    → (s' : Requests) × (queue : List ℕ) × (add_request request_fn sleep_on major req s ≡ ok tt s')
      × Chain s'.r_next (s'.current_request major) queue
      × (has req queue ≡ true)
      × ((x : ℕ) → x ≢ req → has x queue ≡ has x (a ∷ l))
      × (turns_of s' queue ≤ 1)
add_request-turns request_fn sleep_on s major req a l busy c short out differ once =
    let (s', run, chain, order) =
      add_request-placed request_fn sleep_on s major req a l busy c short out in
    (
      s',
      placed s req a l,
      run,
      chain,
      placed-has s req a l,
      λ x ne. has-placed s req a x l ne,
      rw (turns_cong s s' (placed s req a l) order) (turns-once s req a l differ once),
    )
