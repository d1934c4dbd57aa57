-- ===== src/Mm/Pages/Scan.antt =====
-- Lemmas on the loops of the page allocator.
use hios.Base.{
  ℕ, zero, suc, ◌+◌, ◌*◌, ◌≤◌, ◌<◌, ◌≡◌, ◌≢◌, refl, ◌⊎◌, inl, inr, ◌∙◌, none, some, arith, ◌==◌,
  Bool-cases, update,
}
use hios.Mm.Pages.{fill, count_free, find_free, clear_words}

-- What `fill` leaves at `j`.
pub fill_lem :
    (f : ℕ → ℕ) (i v k j : ℕ)
    → ((i ≤ j) × (j < i + k) × (fill f i v k j ≡ v))
      ⊎ (((j < i) ⊎ (i + k ≤ j)) × (fill f i v k j ≡ f j))
unfolding fill
fill_lem f i v zero j = inr (ground arith, refl)
fill_lem f i v (suc k) j = ground (arith, fill_lem (update f i v) (suc i) v k j)

pub find_free-none : (f : ℕ → ℕ) (n i : ℕ) → find_free f n ≡ none → i < n → f i ≢ 0
unfolding find_free
find_free-none f zero i e h = absurd (omega arith)
find_free-none f (suc n) i e h = ground (arith, find_free-none f n i)

-- The index found is free, and every index above it is in use.
pub find_free-some : (f : ℕ → ℕ) (n i : ℕ) → find_free f n ≡ some i → (i < n) × (f i ≡ 0)
unfolding find_free
find_free-some f zero i e = ground arith
find_free-some f (suc n) i e = ground (arith, find_free-some f n i)

pub find_free-highest : (f : ℕ → ℕ) (n i j : ℕ) → find_free f n ≡ some i → i < j → j < n → f j ≢ 0
unfolding find_free
find_free-highest f zero i j e lo hi = absurd (omega arith)
find_free-highest f (suc n) i j e lo hi = ground (arith, find_free-highest f n i j)

pub clear_words_outside :
    (w : ℕ → ℕ) (base n a : ℕ) → (a < base) ⊎ (base + 4 * n ≤ a) → clear_words w base n a ≡ w a
unfolding clear_words
clear_words_outside w base zero a h = refl
clear_words_outside w base (suc n) a h =
    ground (arith, clear_words_outside (update w (base + 4 * n) 0) base n a)

pub clear_words_either :
    (w : ℕ → ℕ) (base n a : ℕ) → (clear_words w base n a ≡ w a) ⊎ (clear_words w base n a ≡ 0)
unfolding clear_words
clear_words_either w base zero a = inl refl
clear_words_either w base (suc n) a =
    ground (arith, clear_words_either (update w (base + 4 * n) 0) base n a)

pub clear_words_inside :
    (w : ℕ → ℕ) (base n k : ℕ) → k < n → clear_words w base n (base + 4 * k) ≡ 0
unfolding clear_words
clear_words_inside w base zero k h = absurd (omega arith)
clear_words_inside w base (suc n) k h = elim (Bool-cases (k == n)) [
  | inl e ↦
      clear_words_outside (update w (base + 4 * n) 0) base n (base + 4 * k) (inr (ground arith))
      ∙ ground arith
  | inr e ↦ clear_words_inside (update w (base + 4 * n) 0) base n k (ground arith)
]

pub count_free-update_above :
    (f : ℕ → ℕ) (n i v : ℕ) → n ≤ i → count_free (update f i v) n ≡ count_free f n
unfolding count_free
count_free-update_above f zero i v h = refl
count_free-update_above f (suc n) i v h = ground (arith, count_free-update_above f n i v)

-- Taking a free page lowers the count by one.
pub count_free-update :
    (f : ℕ → ℕ) (n i v : ℕ)
    → i < n
    → f i ≡ 0
    → v ≢ 0
    → count_free (update f i v) n + 1 ≡ count_free f n
unfolding count_free
count_free-update f zero i v h e p = absurd (omega arith)
count_free-update f (suc n) i v h e p =
    ground (arith, count_free-update f n i v, count_free-update_above f n i v)

pub count_free_zero : (f : ℕ → ℕ) (n : ℕ) → ((i : ℕ) → i < n → f i ≢ 0) → count_free f n ≡ 0
unfolding count_free
count_free_zero f zero h = refl
count_free_zero f (suc n) h = ground (arith, count_free_zero f n (λ i lt. h i (omega arith)), h n)
