-- ===== src/Bitmap/Bits.antt =====
-- The bits of the bitmaps of fs/bitmap.c.
use hios.Base.{
  ℕ, zero, suc, ◌+◌, ◌-◌, ◌/◌, ◌%◌, ◌^◌, ◌≤◌, ◌<◌, ◌≡◌, ◌≢◌, refl, sym, ◌∙◌, ap, ◌⊎◌, inl, inr,
  arith, Bool, true, false, not, ◌&&◌, ◌||◌, Bool-cases, Option-cases, ltb, leb, ◌==◌,
  if◌then◌else◌, Option, some,
}
use hios.Run.{Run, ok, panic, bit_already_cleared}
use hios.Bitmap.{MapLayer, SuperBlock, bit_at, cleared_byte, clear_bit, free_bit, free_block}

-- A test of all the numbers below `n`
all_below : ℕ → (ℕ → Bool) → Bool
all_below zero p = true
all_below (suc n) p = p n && all_below n p

all_below-lt : (n : ℕ) (p : ℕ → Bool) (i : ℕ) → all_below n p ≡ true → i < n → p i ≡ true
unfolding all_below
all_below-lt zero p i all lt = absurd (omega arith)
all_below-lt (suc n) p i all lt = elim (Bool-cases (n == i)) [
  | inl same ↦ let e : n ≡ i = ground arith in rw (sym e) (ground arith)
  | inr other ↦ all_below-lt n p i (ground arith) (ground arith)
]

-- The bit `j` of a byte, and the byte without its bit `k`
abbrev bit : ℕ → ℕ → Bool
bit byte j = not (byte / 2 ^ j % 2 == 0)

abbrev without : ℕ → ℕ → ℕ
without byte k = if bit byte k then byte - 2 ^ k else byte

abbrev same : Bool → Bool → Bool
same true c = c
same false c = not c

-- Clearing the bit `k` of `byte` clears it, and no other bit.
abbrev keeps : ℕ → ℕ → ℕ → Bool
keeps byte k j = same (bit (without byte k) j) (if j == k then false else bit byte j)

all_bytes : all_below 256 (λ byte. all_below 8 (λ k. all_below 8 (keeps byte k))) ≡ true
unfolding all_below
all_bytes = refl

same-true : (b c : Bool) → same b c ≡ true → b ≡ c
same-true true true h = refl
same-true true false h = absurd (ground arith)
same-true false true h = absurd (ground arith)
same-true false false h = refl

without-bit :
    (byte k j : ℕ)
    → byte < 256
    → k < 8
    → j < 8
    → bit (without byte k) j ≡ (if j == k then false else bit byte j)
without-bit byte k j small hk hj =
    let a = all_below-lt 256 _ byte all_bytes small in
    let b = all_below-lt 8 _ k a hk in same-true _ _ (all_below-lt 8 _ j b hj)

without-lt : (byte k : ℕ) → byte < 256 → without byte k < 256
without-lt byte k small = elim (Bool-cases (bit byte k)) [
  | inl h ↦ rw h (omega arith)
  | inr h ↦ rw h small
]

-- The bytes of the buffers: a write changes one byte, and a byte is below 256.
pub record IsMapLayer (b : MapLayer) : Type 0 where
  pub writes :
      (s : b.State) (bh k v bh' j : ℕ)
      → v < 256
      → b.b_data (b.write_byte bh k v s) bh' j
        ≡ (if (bh' == bh) && (j == k) then v else b.b_data s bh' j)
  pub bytes : (s : b.State) (bh k : ℕ) → b.b_data s bh k < 256

same_bit : (x y m n : ℕ) → x ≡ y → m / 8 ≡ n / 8 → ((x == y) && (m == n)) ≡ (m % 8 == n % 8)
same_bit x y m n e place = elim (Bool-cases (m == n)) [
  | inl h ↦ let mn : m ≡ n = ground arith in ground arith
  | inr h ↦ let mn : m % 8 ≢ n % 8 = λ q. absurd (ground arith) in ground arith
]

other_byte : (x y m n : ℕ) → ((x == y) && (m / 8 == n / 8)) ≡ false → ((x == y) && (m == n)) ≡ false
other_byte x y m n off = elim (Bool-cases (m == n)) [
  | inl h ↦
      let mn : m ≡ n = ground arith in
      let d : (m / 8 == n / 8) ≡ true = ground (arith, ap (λ z. z / 8) mn) in ground arith
  | inr h ↦ ground arith
]

module _ (b : MapLayer) (w : IsMapLayer b) where
  -- `clear_bit` clears the bit, and no other bit of any buffer.
  clear_bit-bit_at :
      (nr bh : ℕ) (s : b.State) (bh' m : ℕ)
      → bit_at (b.b_data (clear_bit b nr bh s).1 bh') m
        ≡ (if (bh' == bh) && (m == nr) then false else bit_at (b.b_data s bh') m)
  unfolding clear_bit bit_at cleared_byte
  clear_bit-bit_at nr bh s bh' m =
      let byte = b.b_data s bh (nr / 8) in
      let law =
        w.writes s bh (nr / 8) (without byte (nr % 8)) bh' (m / 8)
          (without-lt byte (nr % 8) (w.bytes s bh (nr / 8))) in
      elim (Bool-cases ((bh' == bh) && (m / 8 == nr / 8))) [
        | inl at ↦
            let e : bh' ≡ bh = ground arith in
            let place : m / 8 ≡ nr / 8 = ground arith in
            let old : b.b_data s bh' (m / 8) ≡ byte =
              ap (λ x. b.b_data s x (m / 8)) e ∙ ap (b.b_data s bh) place in
            let now =
              without-bit byte (nr % 8) (m % 8) (w.bytes s bh (nr / 8)) (omega arith)
                (omega arith) in
            let written : b.b_data (clear_bit b nr bh s).1 bh' (m / 8) ≡ without byte (nr % 8) =
              law ∙ rw at refl in
            let tests : ((bh' == bh) && (m == nr)) ≡ (m % 8 == nr % 8) =
              same_bit bh' bh m nr e place in
            ap (λ x. bit x (m % 8)) written ∙ now ∙ rw (tests, old) refl
        | inr off ↦
            let kept : b.b_data (clear_bit b nr bh s).1 bh' (m / 8) ≡ b.b_data s bh' (m / 8) =
              law ∙ rw off refl in
            let apart : ((bh' == bh) && (m == nr)) ≡ false = other_byte bh' bh m nr off in
            ap (λ x. bit x (m % 8)) kept ∙ rw apart refl
      ]

  -- What becomes of the bit `nr` of the buffer `bh`, where `bytes` are those of the buffers before: if
  -- it was set, it alone is cleared; if not, the kernel panics.
  unfoldable pub Cleared : (ℕ → ℕ → ℕ) → ℕ → ℕ → Run b.State (Unit {0}) → Type 0
  Cleared bytes nr bh r =
      ((bit_at (bytes bh) nr ≡ true)
        × ((s' : b.State) × (r ≡ ok tt s')
            × ((bh' m : ℕ)
                → bit_at (b.b_data s' bh') m
                  ≡ (if (bh' == bh) && (m == nr) then false else bit_at (bytes bh') m))))
      ⊎ ((bit_at (bytes bh) nr ≡ false) × (r ≡ panic bit_already_cleared))

  free_bit-Cleared :
      (sb : SuperBlock) (nr bh : ℕ) (s : b.State)
      → sb.s_zmap (nr / 8192) ≡ some bh
      → Cleared (b.b_data s) (nr % 8192) bh (free_bit b sb nr s)
  unfolding free_bit clear_bit Cleared
  free_bit-Cleared sb nr bh s map = elim (Bool-cases (bit_at (b.b_data s bh) (nr % 8192))) [
    | inl set ↦ inl (
      set,
      (
        (clear_bit b (nr % 8192) bh s).1,
        rw (map, free_bit) (rw set refl),
        clear_bit-bit_at (nr % 8192) bh s,
      ),
    )
    | inr clear ↦ inr (clear, rw (map, free_bit) (rw clear refl))
  ]

  -- `free_block` of a block in the data zone, whose bit lies in the buffer `bh` of the bitmap, where
  -- `get_hash_table` gives `found` and the state `s1`, and `brelse` of a buffer that nobody else uses
  -- returns there, both with the bytes as they are. If the block's own buffer is in use by others,
  -- nothing is freed, and the state is what `get_hash_table` left. Else a bit that is set is cleared,
  -- and no other, and one that is clear ends in a panic.
  pub free_block-Cleared :
      (sb : SuperBlock) (dev block bh : ℕ) (s : b.State) (found : Option ℕ) (s1 : b.State)
      → sb.s_firstdatazone ≤ block
      → block < sb.s_nzones
      → sb.s_zmap ((block + 1 - sb.s_firstdatazone) / 8192) ≡ some bh
      → b.get_hash_table dev block s ≡ ok found s1
      → b.b_data s1 ≡ b.b_data s
      → ((own : ℕ)
          → found ≡ some own
          → b.b_count s1 own ≡ 1
          → (s2 : b.State) × (b.brelse own (b.discard own s1) ≡ ok tt s2)
            × (b.b_data s2 ≡ b.b_data s1))
      → ((own : ℕ) × (found ≡ some own)
          × (b.b_count s1 own ≢ 1)
          × (free_block b (some sb) dev block s ≡ ok tt s1))
        ⊎ (((own : ℕ) → found ≡ some own → b.b_count s1 own ≡ 1)
            × Cleared
                (b.b_data s)
                ((block + 1 - sb.s_firstdatazone) % 8192)
                bh
                (free_block b (some sb) dev block s))
  unfolding free_block
  free_block-Cleared sb dev block bh s found s1 lo hi map run d1 releases =
      let zone : (ltb block sb.s_firstdatazone || leb sb.s_nzones block) ≡ false = ground arith in
      let nr = block + 1 - sb.s_firstdatazone in
      elim (Option-cases found) [
        | inl e ↦
            let all : free_block b (some sb) dev block s ≡ free_bit b sb nr s1 =
              rw (zone, run, e) refl in
            inr
              (λ own is. absurd (ground arith), rw (all, sym d1) (free_bit-Cleared sb nr bh s1 map))
        | inr (own, e) ↦ elim (Bool-cases (b.b_count s1 own == 1)) [
          | inl alone ↦
              let one : b.b_count s1 own ≡ 1 = ground arith in
              let (s2, run2, d2) = releases own e one in
              let all : free_block b (some sb) dev block s ≡ free_bit b sb nr s2 =
                rw (zone, run, e, alone, run2) refl in
              inr (
                λ other is. (let same : own ≡ other = ground arith in rw (sym same) one),
                rw (all, sym (d2 ∙ d1)) (free_bit-Cleared sb nr bh s2 map),
              )
          | inr others ↦ inl (own, e, ground arith, rw (zone, run, e, others) refl)
        ]
      ]
