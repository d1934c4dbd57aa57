-- ===== src/Mm/Tables/Loops.antt =====
-- The inner loop of `copy_page_tables` of mm/memory.c, by the references that the entries of a page
-- table hold.
use hios.Base.{
  ℕ, zero, suc, ◌+◌, ◌*◌, ◌^◌, ◌≤◌, ◌<◌, ◌≡◌, ◌≢◌, refl, ◌⊎◌, inl, inr, ◌∙◌, arith, leb, ltb, ◌==◌,
  ◌&&◌, if◌then◌else◌, ℕ-cases,
}
use hios.Mm.{Mm, low_mem, map_nr, frame, present, read_only}
use hios.Mm.Tables.{share_entry, share_entries}

-- 1 if the entry `e` holds a reference to managed page `j`.
abbrev pub ref : ℕ → ℕ → ℕ
ref e j = if present e && (leb low_mem (frame e) && (map_nr (frame e) == j)) then 1 else 0

-- The references to page `j` among the `n` entries from `tbl`.
unfoldable pub refs : (ℕ → ℕ) → ℕ → ℕ → ℕ → ℕ
refs w tbl zero j = 0
refs w tbl (suc n) j = ref (w tbl) j + refs w (tbl + 4) n j

pub refs-le : (w : ℕ → ℕ) (tbl n j : ℕ) → refs w tbl n j ≤ n
unfolding refs
refs-le w tbl zero j = omega arith
refs-le w tbl (suc n) j = ground (arith, refs-le w (tbl + 4) n j)

pub refs_cong :
    (w v : ℕ → ℕ) (tbl n j : ℕ)
    → ((a : ℕ) → tbl ≤ a → a < tbl + 4 * n → w a ≡ v a)
    → refs w tbl n j ≡ refs v tbl n j
unfolding refs
refs_cong w v tbl zero j h = refl
refs_cong w v tbl (suc n) j h =
    ground (arith, h tbl, refs_cong w v (tbl + 4) n j (λ a lo hi. h a (omega arith) (omega arith)))

-- What one round of the copying loop leaves.
abbrev pub shared_from : ℕ → ℕ
shared_from e = if present e && ltb low_mem (read_only e) then read_only e else e

share_entry_word :
    (m : Mm) (from to a : ℕ)
    → from ≢ to
    → (share_entry from to m).word a ≡ (
        if from == a
        then shared_from (m.word from)
        else if present (m.word from) && (to == a)
        then read_only (m.word from)
        else m.word a)
unfolding share_entry
share_entry_word m from to a ne = ground arith

share_entry_map :
    (m : Mm) (from to j : ℕ)
    → m.word from < 2 ^ 32
    → m.mem_map j + ref (m.word from) j < 256
    → (share_entry from to m).mem_map j ≡ m.mem_map j + ref (m.word from) j
unfolding share_entry
share_entry_map m from to j small fits = ground arith

share_entry_top : (m : Mm) (from to : ℕ) → (share_entry from to m).high_memory ≡ m.high_memory
unfolding share_entry
share_entry_top m from to = ground arith

-- After `nr` rounds: each present entry is in both tables, read-only where its page is counted, no
-- other word changes, and the count of each page rises by the references copied.
pub record Shared (m : Mm) (nr from to : ℕ) (m' : Mm) : Type 0 where
  pub child :
      (k : ℕ)
      → k < nr
      → m'.word (to + 4 * k) ≡ (
          if present (m.word (from + 4 * k))
          then read_only (m.word (from + 4 * k))
          else m.word (to + 4 * k))
  pub parent : (k : ℕ) → k < nr → m'.word (from + 4 * k) ≡ shared_from (m.word (from + 4 * k))
  pub others :
      (a : ℕ)
      → (a < from) ⊎ (from + 4 * nr ≤ a)
      → (a < to) ⊎ (to + 4 * nr ≤ a)
      → m'.word a ≡ m.word a
  pub counts :
      (j : ℕ)
      → m.mem_map j + refs m.word from nr j < 256
      → m'.mem_map j ≡ m.mem_map j + refs m.word from nr j
  pub same_top : m'.high_memory ≡ m.high_memory

pub start : (a : ℕ) → a + 4 * 0 ≡ a
start a = omega arith

pub next : (a k : ℕ) → a + 4 * suc k ≡ a + 4 + 4 * k
next a k = omega arith

module _ (m : Mm) (nr from to : ℕ) (small : (a : ℕ) → m.word a < 2 ^ 32)
    (apart : (from + 4 * suc nr ≤ to) ⊎ (to + 4 * suc nr ≤ from)) where
  step_small : (a : ℕ) → (share_entry from to m).word a < 2 ^ 32
  step_small a = ground (arith, share_entry_word m from to a (omega arith), small a, small from)

  module _ (m' : Mm) (s : Shared (share_entry from to m) nr (from + 4) (to + 4) m') where
    child_first :
        m'.word to ≡ (if present (m.word from) then read_only (m.word from) else m.word to)
    child_first = ground (arith, s.others to, share_entry_word m from to to)

    child_rest :
        (k : ℕ)
        → k < nr
        → m'.word (to + 4 + 4 * k) ≡ (
            if present (m.word (from + 4 + 4 * k))
            then read_only (m.word (from + 4 + 4 * k))
            else m.word (to + 4 + 4 * k))
    child_rest k h = ground (
      arith,
      s.child k h,
      share_entry_word m from to (from + 4 + 4 * k),
      share_entry_word m from to (to + 4 + 4 * k),
    )

    child_step :
        (k : ℕ)
        → k < suc nr
        → m'.word (to + 4 * k) ≡ (
            if present (m.word (from + 4 * k))
            then read_only (m.word (from + 4 * k))
            else m.word (to + 4 * k))
    child_step k h = elim (ℕ-cases k) [
      | inl e ↦ rw e (rw (start to, start from) child_first)
      | inr (i, e) ↦ rw e (rw (next to i, next from i) (child_rest i (omega arith)))
    ]

    parent_first : m'.word from ≡ shared_from (m.word from)
    parent_first = ground (arith, s.others from, share_entry_word m from to from)

    parent_rest :
        (k : ℕ) → k < nr → m'.word (from + 4 + 4 * k) ≡ shared_from (m.word (from + 4 + 4 * k))
    parent_rest k h = ground (arith, s.parent k h, share_entry_word m from to (from + 4 + 4 * k))

    parent_step :
        (k : ℕ) → k < suc nr → m'.word (from + 4 * k) ≡ shared_from (m.word (from + 4 * k))
    parent_step k h = elim (ℕ-cases k) [
      | inl e ↦ rw e (rw (start from) parent_first)
      | inr (i, e) ↦ rw e (rw (next from i) (parent_rest i (omega arith)))
    ]

    later_refs :
        (j : ℕ) → refs (share_entry from to m).word (from + 4) nr j ≡ refs m.word (from + 4) nr j
    later_refs j =
        refs_cong (share_entry from to m).word m.word (from + 4) nr j
          λ a lo hi. ground (arith, share_entry_word m from to a)

    counts_step :
        (j : ℕ)
        → m.mem_map j + refs m.word from (suc nr) j < 256
        → m'.mem_map j ≡ m.mem_map j + refs m.word from (suc nr) j
    unfolding refs
    counts_step j fits =
        let here : m.mem_map j + ref (m.word from) j < 256 = omega arith in
        omega (
          arith,
          s.counts j (omega (arith, share_entry_map m from to j (small from) here, later_refs j)),
          share_entry_map m from to j (small from) here,
          later_refs j,
        )

    Shared-step : Shared m (suc nr) from to m'
    Shared-step = record {
      child = child_step;
      parent = parent_step;
      others = λ a out out'. ground (arith, s.others a, share_entry_word m from to a);
      counts = counts_step;
      same_top = s.same_top ∙ share_entry_top m from to;
    }

pub share_entries-Shared :
    (m : Mm) (nr from to : ℕ)
    → ((a : ℕ) → m.word a < 2 ^ 32)
    → (from + 4 * nr ≤ to) ⊎ (to + 4 * nr ≤ from)
    → Shared m nr from to (share_entries nr from to m)
unfolding share_entries refs
share_entries-Shared m zero from to small apart = record {
  child = λ k h. absurd (omega arith);
  parent = λ k h. absurd (omega arith);
  others = λ a out out'. refl;
  counts = λ j fits. omega arith;
  same_top = refl;
}
share_entries-Shared m (suc nr) from to small apart = Shared-step m nr from to small apart _ (
    share_entries-Shared (share_entry from to m) nr (from + 4) (to + 4)
      (step_small m nr from to small apart) (omega arith))
