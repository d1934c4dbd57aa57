-- ===== src/Cache/Chain.antt =====
-- Hash queues of fs/buffer.c as lists of buffers: `b_next` and `b_prev` as functions, what taking a
-- buffer out and putting it in front does to them.
use hios.Base.{
  ℕ, zero, suc, ◌+◌, ◌≤◌, ◌<◌, ◌≡◌, ◌≢◌, refl, sym, ap, inl, inr, arith, Bool, true, false,
  Bool-cases, ◌||◌, ◌==◌, if◌then◌else◌, Option, none, some, List, [], ◌∷◌, length,
}

-- Membership in a list of indices, and a list without an index
abbrev pub has : ℕ → List ℕ → Bool
has i [] = false
has i (j ∷ l) = (i == j) || has i l

abbrev pub erase : ℕ → List ℕ → List ℕ
erase i [] = []
erase i (j ∷ l) = if i == j then erase i l else j ∷ erase i l

-- A pointer that steps over buffer `i`
abbrev pub skip : (ℕ → Option ℕ) → ℕ → Option ℕ → Option ℕ
skip f i none = none
skip f i (some j) = if i == j then f i else some j

pub has-erase_self : (i : ℕ) (l : List ℕ) → has i (erase i l) ≡ false
has-erase_self i [] = refl
has-erase_self i (j ∷ l) = ground (arith, has-erase_self i l)

pub has-erase_ne : (i j : ℕ) (l : List ℕ) → i ≢ j → has j (erase i l) ≡ has j l
has-erase_ne i j [] ne = refl
has-erase_ne i j (k ∷ l) ne = ground (arith, has-erase_ne i j l ne)

pub erase_out : (i : ℕ) (l : List ℕ) → has i l ≡ false → erase i l ≡ l
erase_out i [] out = refl
erase_out i (j ∷ l) out = ground (arith, erase_out i l)

-- From a pointer, `next` leads through the different buffers of the list to the null pointer.
pub data Chain (next : ℕ → Option ℕ) : Option ℕ → List ℕ → Type 0 where
  end : Chain next none []
  link :
      {i : ℕ} {l : List ℕ} → has i l ≡ false → Chain next (next i) l → Chain next (some i) (i ∷ l)

pub skip_out :
    {next : ℕ → Option ℕ} (f : ℕ → Option ℕ) {p : Option ℕ} {l : List ℕ} (i : ℕ)
    → Chain next p l
    → has i l ≡ false
    → skip f i p ≡ p
skip_out f i end out = refl
skip_out f i (link {i = j} new c) out = ground arith

-- Only the pointers of the chain's own buffers matter to it.
pub Chain-frame :
    {next next' : ℕ → Option ℕ} {p : Option ℕ} {l : List ℕ}
    → Chain next p l
    → ((j : ℕ) → has j l ≡ true → next' j ≡ next j)
    → Chain next' p l
Chain-frame end same = end
Chain-frame {next = next} {next' = next'} (link {i = i} {l = l} new c) same =
    let c' : Chain next' (next i) l = Chain-frame c (λ j h. same j (ground arith)) in
    link new (rw (same i (ground arith)) c')

-- The first buffer is of the chain.
pub first-Chain :
    {next : ℕ → Option ℕ} {p : Option ℕ} {l : List ℕ} (i : ℕ)
    → Chain next p l
    → p ≡ some i
    → has i l ≡ true
first-Chain i end e = absurd (ground arith)
first-Chain i (link {i = j} new c) e =
    let ji : j ≡ i = ap (λ (o : Option ℕ). elim o [ none ↦ j | some k ↦ k ]) e in ground arith

pub along-Chain :
    {next : ℕ → Option ℕ} {p q : Option ℕ} {l : List ℕ} → p ≡ q → Chain next p l → Chain next q l
along-Chain e c = rw (sym e) c

pub Chain-erase :
    {next next' : ℕ → Option ℕ} {p : Option ℕ} {l : List ℕ} (i : ℕ)
    → ((j : ℕ) → j ≢ i → next' j ≡ skip next i (next j))
    → Chain next p l
    → Chain next' (skip next i p) (erase i l)
Chain-erase i over end = end
Chain-erase {next = next} {next' = next'} i over (link {i = j} {l = l} new c) =
    let rest = Chain-erase i over c in
    elim (Bool-cases (i == j)) [
      | inl same ↦
          let e : i ≡ j = ground arith in
          let out : has i l ≡ false = rw e new in
          let here : skip next i (next j) ≡ next j = skip_out next i c out in
          rw (same, e) (along-Chain here rest)
      | inr other ↦
          let ne : j ≢ i = ground arith in
          let out : has j (erase i l) ≡ false = ground (arith, has-erase_ne i j l) in
          rw other (link out (along-Chain (sym (over j ne)) rest))
    ]

-- A chain of buffers below `n` has at most `n` of them.
Distinct : List ℕ → Type 0
Distinct [] = Unit {0}
Distinct (i ∷ l) = (has i l ≡ false) × Distinct l

Chain-Distinct : {next : ℕ → Option ℕ} {p : Option ℕ} {l : List ℕ} → Chain next p l → Distinct l
unfolding Distinct
Chain-Distinct end = tt
Chain-Distinct (link new c) = (new, Chain-Distinct c)

erase-Distinct : (i : ℕ) (l : List ℕ) → Distinct l → Distinct (erase i l)
unfolding Distinct
erase-Distinct i [] d = tt
erase-Distinct i (j ∷ l) (new, d) = elim (Bool-cases (i == j)) [
  | inl same ↦ rw same (erase-Distinct i l d)
  | inr other ↦ rw other (ground (arith, has-erase_ne i j l), erase-Distinct i l d)
]

length-erase : (i : ℕ) (l : List ℕ) → Distinct l → length l ≤ length (erase i l) + 1
unfolding Distinct
length-erase i [] d = ground arith
length-erase i (j ∷ l) (new, d) = elim (Bool-cases (i == j)) [
  | inl same ↦ let e : i ≡ j = ground arith in ground (arith, erase_out i l)
  | inr other ↦ ground (arith, length-erase i l d)
]

length-Distinct :
    (n : ℕ) (l : List ℕ) → Distinct l → ((i : ℕ) → has i l ≡ true → i < n) → length l ≤ n
unfolding Distinct
length-Distinct zero [] d below = omega arith
length-Distinct zero (i ∷ l) d below = absurd (omega (arith, below i (ground arith)))
length-Distinct (suc n) l d below =
    let rest : length (erase n l) ≤ n = length-Distinct n (erase n l) (erase-Distinct n l d) (λ i m.
      elim (Bool-cases (n == i)) [
        | inl same ↦ let e : n ≡ i = ground arith in ground (arith, has-erase_self n l)
        | inr other ↦
            let m' : has i l ≡ true = ground (arith, has-erase_ne n i l) in
            ground (arith, below i m')
      ]) in
    omega (arith, length-erase n l d)

pub Chain-length :
    {next : ℕ → Option ℕ} {p : Option ℕ} {l : List ℕ} (n : ℕ)
    → Chain next p l
    → ((i : ℕ) → has i l ≡ true → i < n)
    → length l ≤ n
Chain-length {l = l} n c below = length-Distinct n l (Chain-Distinct c) below
