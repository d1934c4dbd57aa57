-- ===== src/Mm/Tables/Wp.antt =====
-- `un_wp_page` of mm/memory.c and its callers: copy on write.
use hios.Base.{
  ℕ, zero, suc, ◌+◌, ◌*◌, ◌%◌, ◌^◌, ◌≤◌, ◌<◌, ◌≡◌, ◌≢◌, refl, ◌⊎◌, inl, inr, ◌∙◌, ap, arith, leb,
  ◌==◌, ◌&&◌, if◌then◌else◌, Bool, true, false, Bool-cases, update,
}
use hios.Run.{ok, panic, out_of_memory}
use hios.Mm.{Mm, low_mem, paging_pages, map_nr, frame, with_flags, writable, set_word}
use hios.Mm.Pages.{get_free_page}
use hios.Mm.Pages.Alloc.{Taken, get_free_page-Taken, Taken-bounds}
use hios.Mm.Tables.{copy_words, copy_page, drop_reference, un_wp_page}

copy_words_outside :
    (w : ℕ → ℕ) (from to n a : ℕ) → (a < to) ⊎ (to + 4 * n ≤ a) → copy_words w from to n a ≡ w a
unfolding copy_words
copy_words_outside w from to zero a h = refl
copy_words_outside w from to (suc n) a h =
    ground (arith, copy_words_outside (update w to (w from)) (from + 4) (to + 4) n a)

-- Between places that do not overlap, the words arrive as they were.
copy_words_inside :
    (w : ℕ → ℕ) (from to n k : ℕ)
    → k < n
    → (from + 4 * n ≤ to) ⊎ (to + 4 * n ≤ from)
    → copy_words w from to n (to + 4 * k) ≡ w (from + 4 * k)
unfolding copy_words
copy_words_inside w from to zero k h apart = absurd (omega arith)
copy_words_inside w from to (suc n) zero h apart =
    copy_words_outside (update w to (w from)) (from + 4) (to + 4) n (to + 4 * 0) (inl (omega arith))
    ∙ ground arith
copy_words_inside w from to (suc n) (suc k) h apart =
    let next : copy_words (update w to (w from)) (from + 4) (to + 4) n (to + 4 + 4 * k)
        ≡ update w to (w from) (from + 4 + 4 * k) =
      copy_words_inside (update w to (w from)) (from + 4) (to + 4) n k (omega arith)
        (omega arith) in
    ap (copy_words (update w to (w from)) (from + 4) (to + 4) n) (omega arith) ∙ next ∙ ground arith

-- The outcome of a write fault at a page table entry.
pub record Writable (m : Mm) (entry : ℕ) (m' : Mm) : Type 0 where
  -- The entry is present and writable, and the page behind it lies above 1 MB.
  pub may_write : m'.word entry % 4 ≡ 3
  pub in_memory : low_mem ≤ frame (m'.word entry)
  -- The page behind it has the contents that it had.
  pub same_contents :
      (k : ℕ)
      → k < 1024
      → m'.word (frame (m'.word entry) + 4 * k) ≡ m.word (frame (m.word entry) + 4 * k)
  -- Outside the entry and the page now behind it, no word changes.
  pub same_words :
      (a : ℕ)
      → a ≢ entry
      → (a < frame (m'.word entry)) ⊎ (frame (m'.word entry) + 4096 ≤ a)
      → m'.word a ≡ m.word a

-- A page in use by this entry alone stays where it is, and every count stays.
abbrev pub Kept : Mm → ℕ → Mm → Type 0
Kept m entry m' =
    (low_mem ≤ frame (m.word entry))
    × (m.mem_map (map_nr (frame (m.word entry))) ≡ 1)
    × (frame (m'.word entry) ≡ frame (m.word entry))
    × ((j : ℕ) → m'.mem_map j ≡ m.mem_map j)

-- A shared page, or one below 1 MB, is copied to a page that was free; the count of the new page is
-- 1, and that of the old one is one lower.
abbrev pub Copied : Mm → ℕ → Mm → Type 0
Copied m entry m' =
    let old_page = frame (m.word entry) in
    let new_page = frame (m'.word entry) in
    (m.mem_map (map_nr new_page) ≡ 0)
    × (m'.mem_map (map_nr new_page) ≡ 1)
    × (low_mem ≤ old_page → m'.mem_map (map_nr old_page) + 1 ≡ m.mem_map (map_nr old_page))
    × ((j : ℕ)
        → j ≢ map_nr new_page
        → (low_mem ≤ old_page → j ≢ map_nr old_page)
        → m'.mem_map j ≡ m.mem_map j)

-- The page table of `entry` is in use, the entry is present, and the page behind it is in use,
-- with a count that fits a byte.
pub record IsCounted (m : Mm) (entry : ℕ) : Type 0 where
  pub here : m.word entry % 2 ≡ 1
  pub small : (m.word entry < 2 ^ 32) × (entry < 2 ^ 32)
  pub apart : (entry < frame (m.word entry)) ⊎ (frame (m.word entry) + 4096 ≤ entry)
  pub table : low_mem ≤ entry → m.mem_map (map_nr entry) ≢ 0
  pub counted : low_mem ≤ frame (m.word entry) → m.mem_map (map_nr (frame (m.word entry))) ≢ 0
  pub byte : (j : ℕ) → m.mem_map j < 256

abbrev alone : Mm → ℕ → Bool
alone m entry =
    leb low_mem (frame (m.word entry)) && (m.mem_map (map_nr (frame (m.word entry))) == 1)

module _ (m : Mm) (entry : ℕ) (is : IsCounted m entry) where
  un_wp_page-Kept :
      alone m entry ≡ true
      → (m' : Mm) × (un_wp_page entry m ≡ ok tt m') × Writable m entry m' × Kept m entry m'
  unfolding un_wp_page
  un_wp_page-Kept e = (
    set_word entry (writable (m.word entry)) m,
    rw e,
    record {
      may_write = ground (arith, is.here);
      in_memory = ground (arith, is.here);
      same_contents = λ k h. ground (arith, is.here, is.apart);
      same_words = λ a ne out. ground arith;
    },
    (ground arith, ground arith, ground (arith, is.here), λ j. refl),
  )

  module _ (m1 : Mm) (new_page : ℕ) (t : Taken m new_page m1) where
    abbrev old_page : ℕ
    old_page = frame (m.word entry)

    -- the state before the copy, and after it
    entered : Mm
    entered = set_word entry (with_flags new_page) (drop_reference old_page m1)

    final : Mm
    final = copy_page old_page new_page entered

    new_apart :
        ((entry < new_page) ⊎ (new_page + 4096 ≤ entry))
        × ((frame (m.word entry) + 4096 ≤ new_page) ⊎ (new_page + 4096 ≤ frame (m.word entry)))
    new_apart =
        ground
          (arith, Taken-bounds t, t.was_free, t.address, t.in_range, is.table, is.counted, is.small)

    entered_word : (a : ℕ) → entered.word a ≡ update m1.word entry (with_flags new_page) a
    unfolding entered drop_reference
    entered_word a = ground arith

    final_map :
        (j : ℕ)
        → final.mem_map j ≡ (
            if leb low_mem old_page && (map_nr old_page == j)
            then (m1.mem_map j + 255) % 256
            else m1.mem_map j)
    unfolding final entered drop_reference copy_page
    final_map j = ground arith

    final_outside :
        (a : ℕ)
        → (a < new_page) ⊎ (new_page + 4096 ≤ a)
        → final.word a ≡ update m1.word entry (with_flags new_page) a
    unfolding final copy_page
    final_outside a out =
        copy_words_outside entered.word old_page new_page 1024 a (omega arith) ∙ entered_word a

    final_inside : (k : ℕ) → k < 1024 → final.word (new_page + 4 * k) ≡ m.word (old_page + 4 * k)
    unfolding final copy_page
    final_inside k h =
        copy_words_inside entered.word old_page new_page 1024 k h (ground (arith, new_apart))
        ∙ entered_word (old_page + 4 * k)
        ∙ ground (arith, is.apart, new_apart, t.others (old_page + 4 * k))

    final_entry : frame (final.word entry) ≡ new_page
    final_entry = ground (arith, final_outside entry, new_apart, Taken-bounds t)

    final-Writable : Writable m entry final
    final-Writable = record {
      may_write = ground (arith, final_outside entry, new_apart, Taken-bounds t);
      in_memory = rw final_entry (Taken-bounds t).0;
      same_contents = λ k h. rw final_entry (final_inside k h);
      same_words =
          λ a ne out. ground (arith, final_entry, final_outside a, t.others a, Taken-bounds t);
    }

    final-Copied : Copied m entry final
    final-Copied = rw final_entry (
      ground (arith, t.was_free, t.address, t.in_range),
      ground (
        arith,
        final_map (map_nr new_page),
        t.marked (map_nr new_page),
        t.address,
        t.in_range,
        t.was_free,
        is.counted,
      ),
      λ low. ground (
        arith,
        final_map (map_nr old_page),
        t.marked (map_nr old_page),
        t.was_free,
        is.counted low,
        is.byte (map_nr old_page),
      ),
      λ j ne ne'. ground (arith, final_map j, t.marked j, t.address, t.in_range),
    )

    un_wp_page-final :
        alone m entry ≡ false → get_free_page m ≡ (new_page, m1) → un_wp_page entry m ≡ ok tt final
    unfolding un_wp_page final entered
    un_wp_page-final e got =
        let nonzero : (new_page == 0) ≡ false = ground (arith, Taken-bounds t) in
        rw (e, got, nonzero)

-- A write fault at an entry whose table and page are in use has one of three outcomes. A page above
-- 1 MB that this entry alone uses becomes writable where it is. Otherwise, if no page is free, the
-- kernel panics; else the page is copied to a free one, with the same contents, behind a writable
-- entry, and the old page loses one reference. No word outside the entry and the new page changes.
pub un_wp_page-Writable :
    (entry : ℕ) (m : Mm)
    → IsCounted m entry
    → ((m' : Mm) × (un_wp_page entry m ≡ ok tt m')
        × Writable m entry m'
        × (Kept m entry m' ⊎ Copied m entry m'))
      ⊎ (un_wp_page entry m ≡ panic out_of_memory) × ((i : ℕ) → i < paging_pages → m.mem_map i ≢ 0)
unfolding un_wp_page
un_wp_page-Writable entry m is = elim (Bool-cases (alone m entry)) [
  | inl e ↦ let (m', run, w, k) = un_wp_page-Kept m entry is e in inl (m', run, w, inl k)
  | inr e ↦ elim (get_free_page-Taken m) [
    | inl (got, all) ↦ inr (rw (e, got), all)
    | inr t ↦
        let m1 = (get_free_page m).1 in
        let new_page = (get_free_page m).0 in
        inl (
          final m entry is m1 new_page t,
          un_wp_page-final m entry is m1 new_page t e refl,
          final-Writable m entry is m1 new_page t,
          inr (final-Copied m entry is m1 new_page t),
        )
  ]
]
