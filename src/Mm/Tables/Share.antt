-- ===== src/Mm/Tables/Share.antt =====
-- `copy_page_tables` of mm/memory.c for one page table, as `fork` calls it.
use hios.Base.{
  ℕ, ◌+◌, ◌*◌, ◌%◌, ◌^◌, ◌≤◌, ◌<◌, ◌≡◌, ◌≢◌, refl, ◌⊎◌, inl, inr, ◌∙◌, arith, ◌==◌, if◌then◌else◌,
  true, false, not, ◌||◌,
}
use hios.Run.{ok}
use hios.Mm.{
  Mm, low_mem, paging_pages, map_nr, frame, present, with_flags, read_only, dir_entry, set_word,
}
use hios.Mm.Pages.{get_free_page}
use hios.Mm.Pages.Alloc.{Taken, get_free_page-Taken, Taken-bounds}
use hios.Mm.Tables.{share_entries, dir_count, done, minus_one, copy_dirs, copy_page_tables}
use hios.Mm.Tables.Walk.{IsPaged, dir_index, table_ne}
use hios.Mm.Tables.Loops.{refs, refs_cong, shared_from, Shared, share_entries-Shared}

-- The rounds of the inner loop: 160 from linear address 0, else 1024.
abbrev pub rounds : ℕ → ℕ
rounds from = if from == 0 then 0xA0 else 1024

-- A region of one page table that is there, and a place for its copy that is empty.
pub record CanFork (from to size : ℕ) (m : Mm) : Type 0 where
  pub aligned : (from % 2 ^ 22 ≡ 0) × (to % 2 ^ 22 ≡ 0)
  pub one_table : dir_count size ≡ 1
  pub source : present (m.word (dir_entry from)) ≡ true
  pub target : present (m.word (dir_entry to)) ≡ false
  pub paged : IsPaged m
  pub words : (a : ℕ) → m.word a < 2 ^ 32

-- In `m'` the region at `to` has a new page table, in a page that was free, and shares the pages of
-- the region at `from`.
pub record Forked (from to : ℕ) (m m' : Mm) : Type 0 where
  pub table : ℕ
  pub entered : m'.word (dir_entry to) ≡ table + 7
  pub in_memory : (low_mem ≤ table) × (table < 2 ^ 24) × (table % 4096 ≡ 0)
  pub was_free : m.mem_map (map_nr table) ≡ 0
  -- The child's entries are the parent's, write-protected, and none where the parent has none.
  pub child :
      (k : ℕ)
      → k < rounds from
      → m'.word (table + 4 * k) ≡ (
          let e = m.word (frame (m.word (dir_entry from)) + 4 * k) in
          if present e then read_only e else 0)
  pub rest : (k : ℕ) → rounds from ≤ k → k < 1024 → m'.word (table + 4 * k) ≡ 0
  -- The parent's entries are write-protected too, but for pages below 1 MB.
  pub parent :
      (k : ℕ)
      → k < rounds from
      → m'.word (frame (m.word (dir_entry from)) + 4 * k)
        ≡ shared_from (m.word (frame (m.word (dir_entry from)) + 4 * k))
  -- Each page gains the references that were copied, and the new table has one.
  pub counts :
      (j : ℕ)
      → m.mem_map j + refs m.word (frame (m.word (dir_entry from))) (rounds from) j < 255
      → m'.mem_map j
        ≡ m.mem_map j
          + refs m.word (frame (m.word (dir_entry from))) (rounds from) j
          + (if map_nr table == j then 1 else 0)
  pub same_top : m'.high_memory ≡ m.high_memory

module _ (from to size : ℕ) (m : Mm) (can : CanFork from to size m) where
  abbrev src : ℕ
  src = frame (m.word (dir_entry from))

  tests : (not (from % 2 ^ 22 == 0) || not (to % 2 ^ 22 == 0)) ≡ false
  tests = ground (arith, can.aligned)

  runs_full : get_free_page m ≡ (0, m) → copy_page_tables from to size m ≡ ok minus_one m
  unfolding copy_page_tables copy_dirs
  runs_full e = rw (tests, can.one_table, can.target, can.source, e)

  module _ (page : ℕ) (m1 : Mm) (t : Taken m page m1) where
    -- the state before the entries are shared, and after it
    entered : Mm
    entered = set_word (dir_entry to) (with_flags page) m1

    final : Mm
    final = share_entries (rounds from) src page entered

    runs : get_free_page m ≡ (page, m1) → copy_page_tables from to size m ≡ ok done final
    unfolding copy_page_tables copy_dirs final share_entries entered
    runs e =
        let nonzero : (page == 0) ≡ false = ground (arith, Taken-bounds t) in
        rw (tests, can.one_table, can.target, can.source, e, nonzero)

    source_bounds : (4096 ≤ src) × ((src + 4096 ≤ page) ⊎ (page + 4096 ≤ src)) × (src < 2 ^ 32)
    source_bounds = ground (
      arith,
      can.paged.tables (dir_index from) (omega arith) can.source,
      table_ne to t can.target can.paged (dir_index from) (omega arith) can.source,
      Taken-bounds t,
    )

    entered_word : (a : ℕ) → 4096 ≤ a → (a < page) ⊎ (page + 4096 ≤ a) → entered.word a ≡ m.word a
    unfolding entered
    entered_word a out apart = ground (arith, t.others a)

    new_words : (a : ℕ) → entered.word a < 2 ^ 32
    unfolding entered
    new_words a = ground (arith, t.either a, can.words a, Taken-bounds t)

    shared : Shared entered (rounds from) src page final
    unfolding final
    shared =
        share_entries-Shared entered (rounds from) src page new_words
          (ground (arith, source_bounds))

    same_refs : (j : ℕ) → refs entered.word src (rounds from) j ≡ refs m.word src (rounds from) j
    same_refs j =
        refs_cong entered.word m.word src (rounds from) j
          λ a lo hi. entered_word a (ground (arith, source_bounds)) (ground (arith, source_bounds))

    child_entry :
        (k : ℕ)
        → k < rounds from
        → final.word (page + 4 * k)
          ≡ (if present (m.word (src + 4 * k)) then read_only (m.word (src + 4 * k)) else 0)
    unfolding entered
    child_entry k h = ground (
      arith,
      shared.child k h,
      entered_word (src + 4 * k),
      t.cleared k,
      source_bounds,
      Taken-bounds t,
    )

    child_rest : (k : ℕ) → rounds from ≤ k → k < 1024 → final.word (page + 4 * k) ≡ 0
    unfolding entered
    child_rest k lo hi =
        ground (arith, shared.others (page + 4 * k), t.cleared k hi, source_bounds, Taken-bounds t)

    parent_entry :
        (k : ℕ) → k < rounds from → final.word (src + 4 * k) ≡ shared_from (m.word (src + 4 * k))
    parent_entry k h = ground (arith, shared.parent k h, entered_word (src + 4 * k), source_bounds)

    dir_entered : final.word (dir_entry to) ≡ page + 7
    unfolding entered
    dir_entered = ground (arith, shared.others (dir_entry to), source_bounds, Taken-bounds t)

    counted :
        (j : ℕ)
        → m.mem_map j + refs m.word src (rounds from) j < 255
        → final.mem_map j
          ≡ m.mem_map j + refs m.word src (rounds from) j + (if map_nr page == j then 1 else 0)
    unfolding entered
    counted j fits =
        ground (arith, shared.counts j, same_refs j, t.marked j, t.was_free, t.address, t.in_range)

    final-Forked : Forked from to m final
    unfolding entered
    final-Forked = record {
      table = page;
      entered = dir_entered;
      in_memory = omega (arith, Taken-bounds t);
      was_free = ground (arith, t.was_free, t.address, t.in_range);
      child = child_entry;
      rest = child_rest;
      parent = parent_entry;
      counts = counted;
      same_top = shared.same_top ∙ t.same_top;
    }

-- Copying one page table either returns -1 because no page is free, and then changes nothing, or
-- gives the child a new page table whose entries are the parent's, write-protected, protects the
-- parent's entries of pages above 1 MB, and counts each reference that was copied.
pub copy_page_tables-Forked :
    (from to size : ℕ) (m : Mm)
    → CanFork from to size m
    → (copy_page_tables from to size m ≡ ok minus_one m)
        × ((i : ℕ) → i < paging_pages → m.mem_map i ≢ 0)
      ⊎ ((m' : Mm) × (copy_page_tables from to size m ≡ ok done m') × Forked from to m m')
copy_page_tables-Forked from to size m can = elim (get_free_page-Taken m) [
  | inl (e, all) ↦ inl (runs_full from to size m can e, all)
  | inr t ↦
      let page = (get_free_page m).0 in
      let m1 = (get_free_page m).1 in
      inr (
        final from to size m can page m1 t,
        runs from to size m can page m1 t refl,
        final-Forked from to size m can page m1 t,
      )
]
