-- ===== src/Mm/Tables/Undo.antt =====
-- `free_page_tables` of mm/memory.c after `copy_page_tables`, as `exit` follows `fork`.
use hios.Base.{
  ℕ, zero, suc, ◌+◌, ◌-◌, ◌*◌, ◌%◌, ◌^◌, ◌≤◌, ◌<◌, ◌≡◌, ◌≢◌, refl, inl, inr, ◌∙◌, ap, arith, ◌==◌,
  leb, if◌then◌else◌, true, false, Bool-cases,
}
use hios.Run.{ok}
use hios.Mm.{Mm, low_mem, map_nr, frame, present, dir_entry, set_word, set_map}
use hios.Mm.Pages.{get_free_page, free_page}
use hios.Mm.Pages.Init.{FreeBelow}
use hios.Mm.Pages.Alloc.{free_page_cases, get_free_page-Taken}
use hios.Mm.Tables.{
  dir_count, done, copy_page_tables, free_entries, free_table, free_dirs, free_page_tables,
}
use hios.Mm.Tables.Loops.{ref, refs, start, next}
use hios.Mm.Tables.Release.{Released, free_entries-Released}
use hios.Mm.Tables.Share.{rounds, CanFork, Forked, copy_page_tables-Forked}

refs_match :
    (w v : ℕ → ℕ) (a b n j : ℕ)
    → ((k : ℕ) → k < n → ref (w (a + 4 * k)) j ≡ ref (v (b + 4 * k)) j)
    → refs w a n j ≡ refs v b n j
unfolding refs
refs_match w v a b zero j h = refl
refs_match w v a b (suc n) j h =
    let first : ref (w a) j ≡ ref (v b) j = rw (start a, start b) at (h 0 (omega arith)) in
    let later : refs w (a + 4) n j ≡ refs v (b + 4) n j =
      refs_match w v (a + 4) (b + 4) n j
        (λ k lt. rw (next a k, next b k) at (h (suc k) (omega arith))) in
    omega (arith, first, later)

refs_zero : (w : ℕ → ℕ) (a n j : ℕ) → ((k : ℕ) → k < n → w (a + 4 * k) ≡ 0) → refs w a n j ≡ 0
unfolding refs
refs_zero w a zero j h = refl
refs_zero w a (suc n) j h =
    let first : w a ≡ 0 = rw (start a) at (h 0 (omega arith)) in
    let later : refs w (a + 4) n j ≡ 0 =
      refs_zero w (a + 4) n j (λ k lt. rw (next a k) at (h (suc k) (omega arith))) in
    ground (arith, first, later)

-- Entries that are 0 hold no reference.
pub refs_pad :
    (w : ℕ → ℕ) (a nr n j : ℕ)
    → nr ≤ n
    → ((k : ℕ) → nr ≤ k → k < n → w (a + 4 * k) ≡ 0)
    → refs w a n j ≡ refs w a nr j
unfolding refs
refs_pad w a zero n j le h = refs_zero w a n j (λ k lt. h k (omega arith) lt)
refs_pad w a (suc nr) zero j le h = absurd (omega arith)
refs_pad w a (suc nr) (suc n) j le h = omega (
  arith,
  refs_pad w (a + 4) nr n j (omega arith)
      (λ k lo lt. rw (next a k) at (h (suc k) (omega arith) (omega arith))),
)

module _ (from to : ℕ) (m m1 : Mm) (f : Forked from to m m1)
    (words : (a : ℕ) → m.word a < 2 ^ 32) where
  abbrev src : ℕ
  src = frame (m.word (dir_entry from))

  -- The child's table holds the references that were copied.
  child_refs : (j : ℕ) → refs m1.word f.table 1024 j ≡ refs m.word src (rounds from) j
  child_refs j =
      refs_pad m1.word f.table (rounds from) 1024 j (ground arith) f.rest
      ∙ refs_match m1.word m.word f.table src (rounds from) j
          (λ k h. ground (arith, f.child k h, words (src + 4 * k)))

  child_frames :
      ((k : ℕ) → k < rounds from → frame (m.word (src + 4 * k)) < m.high_memory)
      → 0 < m.high_memory
      → (k : ℕ) → k < 1024
      → frame (m1.word (f.table + 4 * k)) < m.high_memory
  child_frames low some_memory k h = elim (Bool-cases (leb (rounds from) k)) [
    | inl e ↦ ground (arith, f.rest k)
    | inr e ↦ ground (arith, f.child k, low k)
  ]

  -- What is left when the child's region is freed again.
  abbrev Undone : Mm → Type 0
  Undone m2 = ((j : ℕ) → m2.mem_map j ≡ m.mem_map j) × (m2.word (dir_entry to) ≡ 0)

  freed :
      (m' : Mm)
      → ((j : ℕ) → m.mem_map j + refs m.word src (rounds from) j < 255)
      → FreeBelow m
      → free_entries 1024 f.table m1 ≡ ok tt m'
      → Released m1 1024 f.table m'
      → (m2 : Mm) × (free_table (dir_entry to) m1 ≡ ok tt m2) × Undone m2
  unfolding free_table
  freed m' fits top run r =
      let count : (j : ℕ) → m'.mem_map j ≡ m.mem_map j + (if map_nr f.table == j then 1 else 0) =
        λ j. omega (arith, r.counts j, f.counts j (fits j), child_refs j) in
      let same : m'.word (dir_entry to) ≡ f.table + 7 =
        r.others (dir_entry to) (inl (omega (arith, f.in_memory))) ∙ f.entered in
      let at : frame (m1.word (dir_entry to)) ≡ f.table =
        rw f.entered (omega (arith, f.in_memory)) in
      let at' : frame (m'.word (dir_entry to)) ≡ f.table = rw same (omega (arith, f.in_memory)) in
      let i = map_nr f.table in
      let below : i * 4096 + low_mem < m.high_memory =
        top.1 i (omega (arith, f.in_memory)) f.was_free in
      let given : free_page f.table m' ≡ ok tt (set_map i (m'.mem_map i - 1) m') =
        ground (
          arith,
          free_page_cases f.table m',
          f.in_memory,
          count i,
          r.same_top,
          f.same_top,
          below,
        ) in
      (
        set_word (dir_entry to) 0 (set_map i (m'.mem_map i - 1) m'),
        rw (at, run) (rw (at', given)),
        (λ j. ground (arith, count j, count i, f.was_free), ground arith),
      )

  runs_free :
      (size : ℕ) (m2 : Mm)
      → to % 2 ^ 22 ≡ 0
      → to ≢ 0
      → dir_count size ≡ 1
      → free_table (dir_entry to) m1 ≡ ok tt m2
      → free_page_tables to size m1 ≡ ok tt m2
  unfolding free_page_tables free_dirs
  runs_free size m2 aligned ne one run =
      let a : (to % 2 ^ 22 == 0) ≡ true = ground arith in
      let b : (to == 0) ≡ false = ground arith in
      let c : present (m1.word (dir_entry to)) ≡ true = ground (arith, f.entered, f.in_memory) in
      rw (a, b, one, c, run)

-- The child's region can be freed again: then the kernel does not panic, every page has the count
-- that it had before, and the directory entry is 0. No page at or above the end of memory counts as
-- free, as `mem_init` leaves it; the parent's pages lie below the end of memory, some page is free,
-- and no count reaches 255. `CanFork` is what `copy_page_tables-Forked` needs too: one page table,
-- which the parent has and the child has not yet.
pub free_page_tables-copy_page_tables :
    (from to size : ℕ) (m : Mm)
    → CanFork from to size m
    → to ≢ 0
    → FreeBelow m
    → (get_free_page m).0 ≢ 0
    → ((k : ℕ)
        → k < rounds from
        → frame (m.word (frame (m.word (dir_entry from)) + 4 * k)) < m.high_memory)
    → ((j : ℕ) → m.mem_map j + refs m.word (frame (m.word (dir_entry from))) (rounds from) j < 255)
    → (m1 : Mm) × (m2 : Mm) × (copy_page_tables from to size m ≡ ok done m1)
      × (free_page_tables to size m1 ≡ ok tt m2)
      × ((j : ℕ) → m2.mem_map j ≡ m.mem_map j)
      × (m2.word (dir_entry to) ≡ 0)
free_page_tables-copy_page_tables from to size m can ne top free low fits =
    elim (copy_page_tables-Forked from to size m can) [
      | inl (e, all) ↦ absurd (elim (get_free_page-Taken m) [
        | inl (e', all') ↦ free (ap (λ (r : ℕ × Mm). r.0) e')
        | inr t ↦ all t.index t.in_range t.was_free
      ])
      | inr (m1, run, f) ↦
          let i = map_nr f.table in
          let below : i * 4096 + low_mem < m.high_memory =
            top.1 i (omega (arith, f.in_memory)) f.was_free in
          let (m', frees, r) =
            free_entries-Released 1024 f.table m1 (omega (arith, f.same_top, top.0))
              (λ k h.
                rw f.same_top
                  (child_frames from to m m1 f can.words low (omega (arith, below)) k h))
              (λ j. omega (arith, child_refs from to m m1 f can.words j, f.counts j (fits j))) in
          let (m2, gone, undone) = freed from to m m1 f can.words m' fits top frees r in
          (
            m1,
            m2,
            run,
            runs_free from to m m1 f can.words size m2 can.aligned.1 ne can.one_table gone,
            undone.0,
            undone.1,
          )
    ]
