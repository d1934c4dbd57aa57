-- ===== src/Files/Refs.antt =====
-- How many descriptors stand for an entry of the file table.
use hios.Base.{
  ℕ, zero, suc, ◌+◌, ◌*◌, ◌≤◌, ◌<◌, ◌≡◌, ◌≢◌, refl, inl, inr, arith, ◌==◌, Bool, true, false,
  Bool-cases, Option-cases, Option, none, some, if◌then◌else◌, update,
}
use hios.Sched.{Tasks}
use hios.System.{nr_open}

-- 1 if the descriptor stands for file `f`
abbrev pub ref : ℕ → Option ℕ → ℕ
ref f none = 0
ref f (some g) = if g == f then 1 else 0

-- The descriptors of one task, below `n`.
unfoldable pub row : (ℕ → Option ℕ) → ℕ → ℕ → ℕ
row g f zero = 0
row g f (suc n) = row g f n + ref f (g n)

-- A slot that holds a task
abbrev pub living : Tasks → ℕ → Bool
living ts k = elim (ts k) [ none ↦ false | some t ↦ true ]

-- The descriptors of the tasks in the `n` first slots.
unfoldable pub refs : (ℕ → Bool) → (ℕ → ℕ → Option ℕ) → ℕ → ℕ → ℕ
refs live h f zero = 0
refs live h f (suc n) = refs live h f n + (if live n then row (h n) f nr_open else 0)

pub row-below :
    (g : ℕ → Option ℕ) (f fd n : ℕ) (b : Option ℕ) → n ≤ fd → row (update g fd b) f n ≡ row g f n
unfolding row
row-below g f fd zero b le = refl
row-below g f fd (suc n) b le = ground (arith, row-below g f fd n b (omega arith))

pub row-update :
    (g : ℕ → Option ℕ) (f fd n : ℕ) (b : Option ℕ)
    → fd < n
    → row (update g fd b) f n + ref f (g fd) ≡ row g f n + ref f b
unfolding row
row-update g f fd zero b lt = absurd (omega arith)
row-update g f fd (suc n) b lt = elim (Bool-cases (fd == n)) [
  | inl here ↦
      let same : fd ≡ n = ground arith in ground (arith, row-below g f fd n b (omega arith))
  | inr there ↦ ground (arith, row-update g f fd n b (ground arith))
]

pub row-ge : (g : ℕ → Option ℕ) (f fd n : ℕ) → fd < n → g fd ≡ some f → 1 ≤ row g f n
unfolding row
row-ge g f fd zero lt e = absurd (omega arith)
row-ge g f fd (suc n) lt e = elim (Bool-cases (fd == n)) [
  | inl here ↦ ground arith
  | inr there ↦ ground (arith, row-ge g f fd n (ground arith) e)
]

pub row-le : (g : ℕ → Option ℕ) (f n : ℕ) → row g f n ≤ n
unfolding row
row-le g f zero = omega arith
row-le g f (suc n) = elim (Option-cases (g n)) [
  | inl e ↦ ground (arith, row-le g f n)
  | inr (x, e) ↦ ground (arith, row-le g f n)
]

pub row_cong : (g g' : ℕ → Option ℕ) (f n : ℕ) → ((fd : ℕ) → g' fd ≡ g fd) → row g' f n ≡ row g f n
unfolding row
row_cong g g' f zero h = refl
row_cong g g' f (suc n) h = rw (h n, row_cong g g' f n h) refl

pub refs-le : (live : ℕ → Bool) (h : ℕ → ℕ → Option ℕ) (f n : ℕ) → refs live h f n ≤ 20 * n
unfolding refs
refs-le live h f zero = omega arith
refs-le live h f (suc n) = ground (arith, refs-le live h f n, row-le (h n) f 20)

pub refs_cong :
    (live live' : ℕ → Bool) (h h' : ℕ → ℕ → Option ℕ) (f n : ℕ)
    → ((j : ℕ) → j < n → live' j ≡ live j)
    → ((j fd : ℕ) → j < n → h' j fd ≡ h j fd)
    → refs live' h' f n ≡ refs live h f n
unfolding refs
refs_cong live live' h h' f zero e d = refl
refs_cong live live' h h' f (suc n) e d =
    let before =
      refs_cong live live' h h' f n (λ j lt. e j (omega arith)) (λ j fd lt. d j fd (omega arith)) in
    let last = row_cong (h n) (h' n) f 20 (λ fd. d n fd (omega arith)) in
    rw (before, e n (omega arith), last) refl

-- The descriptors of slot `k`, if it holds a task.
abbrev pub share : (ℕ → Bool) → (ℕ → ℕ → Option ℕ) → ℕ → ℕ → ℕ
share live h f k = if live k then row (h k) f nr_open else 0

-- A change of one slot.
pub refs-change :
    (live live' : ℕ → Bool) (h h' : ℕ → ℕ → Option ℕ) (f k n : ℕ)
    → k < n
    → ((j : ℕ) → j ≢ k → live' j ≡ live j)
    → ((j fd : ℕ) → j ≢ k → h' j fd ≡ h j fd)
    → refs live' h' f n + share live h f k ≡ refs live h f n + share live' h' f k
unfolding refs
refs-change live live' h h' f k zero lt e d = absurd (omega arith)
refs-change live live' h h' f k (suc n) lt e d = elim (Bool-cases (k == n)) [
  | inl here ↦
      let same : k ≡ n = ground arith in
      ground (
        arith,
        refs_cong live live' h h' f n (λ j lt. e j (omega arith)) (λ j fd lt. d j fd (omega arith)),
      )
  | inr there ↦
      let last = row_cong (h n) (h' n) f 20 (λ fd. d n fd (ground arith)) in
      ground (arith, e n, refs-change live live' h h' f k n (ground arith) e d, last)
]

pub refs-ge :
    (live : ℕ → Bool) (h : ℕ → ℕ → Option ℕ) (f k fd n : ℕ)
    → k < n
    → fd < nr_open
    → live k ≡ true
    → h k fd ≡ some f
    → 1 ≤ refs live h f n
unfolding refs
refs-ge live h f k fd zero lt ltf l e = absurd (omega arith)
refs-ge live h f k fd (suc n) lt ltf l e = elim (Bool-cases (k == n)) [
  | inl here ↦ ground (arith, row-ge (h k) f fd 20 ltf e)
  | inr there ↦ ground (arith, refs-ge live h f k fd n (ground arith) ltf l e)
]
