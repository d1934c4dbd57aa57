-- ===== src/Base/Search.antt =====
-- The first index of a table whose entry passes a test, as the loops over tables look for it.
use Prim.Native.Nat.{ℕ, zero, suc, ◌+◌, ◌≤◌, ◌<◌}
use mathlib.Core.Path.{◌≡◌, refl}
use mathlib.Core.Logic.{◌⊎◌, inl, inr}
use mathlib.Core.Bool.{Bool, true, false}
use mathlib.Core.Option.{Option, none, some}
use native.Mathlib.Omega.{arith}
use hios.Base.Tests.{◌==◌, Bool-cases}

abbrev pub is_null : {A : Type 0} → Option A → Bool
is_null none = true
is_null (some a) = false

-- The first of the `n` indices from `i` on that passes a test.
unfoldable pub first : (ℕ → Bool) → ℕ → ℕ → Option ℕ
first p i zero = none
first p i (suc n) = elim (p i) [ true ↦ some i | false ↦ first p (suc i) n ]

-- What `first` finds: the least index that passes, or that none does.
pub first-cases :
    (p : ℕ → Bool) (i n : ℕ)
    → (first p i n ≡ none) × ((j : ℕ) → i ≤ j → j < i + n → p j ≡ false)
      ⊎ ((k : ℕ) × (first p i n ≡ some k)
          × (i ≤ k)
          × (k < i + n)
          × (p k ≡ true)
          × ((j : ℕ) → i ≤ j → j < k → p j ≡ false))
unfolding first
first-cases p i zero = inl (refl, λ j lo hi. absurd (omega arith))
first-cases p i (suc n) = elim (Bool-cases (p i)) [
  | inl e ↦
      inr (i, rw (e, first) refl, omega arith, omega arith, e, λ j lo hi. absurd (omega arith))
  | inr e ↦ elim (first-cases p (suc i) n) [
    | inl (run, all) ↦ inl (
      rw (e, run, first) refl,
      λ j lo hi. elim (Bool-cases (i == j)) [
        | inl same ↦ ground arith
        | inr other ↦ all j (ground arith) (omega arith)
      ],
    )
    | inr (k, run, lo, hi, ok, before) ↦ inr (
      k,
      rw (e, run, first) refl,
      omega arith,
      omega arith,
      ok,
      λ j lj hj. elim (Bool-cases (i == j)) [
        | inl same ↦ ground arith
        | inr other ↦ before j (ground arith) hj
      ],
    )
  ]
]
