-- ===== src/Mm/Tables/Walk.antt =====
-- `put_page` of mm/memory.c against the processor's walk of the tables.
use hios.Base.{
  ℕ, ◌+◌, ◌*◌, ◌/◌, ◌%◌, ◌^◌, ◌≤◌, ◌<◌, ◌≡◌, ◌≢◌, inl, Option, none, some, arith, if◌then◌else◌,
  true, false, update,
}
use hios.Mm.{Mm, low_mem, map_nr, frame, present, with_flags, dir_entry, table_offset, set_word}
use hios.Mm.Pages.Alloc.{Taken, Taken-bounds}
use hios.Mm.Tables.{put_entry}

-- The page table entry that translates a linear address, if it is present: what the processor
-- finds from the page directory at address 0.
unfoldable pub walk : Mm → ℕ → Option ℕ
walk m address =
    let pde = m.word (dir_entry address) in
    let pte = m.word (frame pde + table_offset address) in
    if present pde then (if present pte then some pte else none) else none

-- The page tables in use are pages of their own: not the directory, not shared, and not free.
pub record IsPaged (m : Mm) : Type 0 where
  pub tables :
      (d : ℕ)
      → d < 1024
      → present (m.word (d * 4)) ≡ true
      → (4096 ≤ frame (m.word (d * 4))) × (frame (m.word (d * 4)) < 2 ^ 32)
  pub counted :
      (d : ℕ)
      → d < 1024
      → present (m.word (d * 4)) ≡ true
      → low_mem ≤ frame (m.word (d * 4))
      → m.mem_map (map_nr (frame (m.word (d * 4)))) ≢ 0
  pub apart :
      (d e : ℕ)
      → d < 1024
      → e < 1024
      → present (m.word (d * 4)) ≡ true
      → present (m.word (e * 4)) ≡ true
      → frame (m.word (d * 4)) ≡ frame (m.word (e * 4))
      → d ≡ e

abbrev pub dir_index : ℕ → ℕ
dir_index a = a / 2 ^ 22 % 1024

module _ (m : Mm) (page address tbl : ℕ) (here : present (m.word (dir_entry address)) ≡ true)
    (is : frame (m.word (dir_entry address)) ≡ tbl) (out : 4096 ≤ tbl)
    (aligned : page % 4096 ≡ 0) where
  pub put_entry-walk : walk (put_entry tbl page address m).1 address ≡ some (page + 7)
  unfolding walk put_entry
  put_entry-walk = ground arith

  pub put_entry-walk_ne :
      IsPaged m
      → (b : ℕ) → b < 2 ^ 32
      → address < 2 ^ 32
      → frame b ≢ frame address
      → walk (put_entry tbl page address m).1 b ≡ walk m b
  unfolding walk put_entry
  put_entry-walk_ne paged b hb ha ne = ground (
    arith,
    paged.apart (dir_index b) (dir_index address) (omega arith) (omega arith),
    paged.tables (dir_index b) (omega arith),
  )

  pub put_entry-IsPaged : IsPaged m → IsPaged (put_entry tbl page address m).1
  unfolding put_entry
  put_entry-IsPaged paged = record {
    tables = λ d hd pd. ground (arith, paged.tables d hd);
    counted = λ d hd pd low. ground (arith, paged.counted d hd);
    apart = λ d e hd he pd pe same. ground (arith, paged.apart d e hd he);
  }

-- The new page table that `put_page` enters into the directory.
abbrev pub enter_table : ℕ → ℕ → Mm → Mm
enter_table dir tmp m = set_word dir (with_flags tmp) m

module _ {m m1 : Mm} {tmp : ℕ} (address : ℕ) (taken : Taken m tmp m1)
    (absent : present (m.word (dir_entry address)) ≡ false) (paged : IsPaged m) where
  -- No table in use is the page that was taken.
  pub table_ne : (d : ℕ) → d < 1024 → present (m.word (d * 4)) ≡ true → frame (m.word (d * 4)) ≢ tmp
  table_ne d hd pd e =
      paged.counted d hd pd (omega (arith, taken.address))
        (ground (arith, taken.address, taken.was_free, taken.in_range))

  same_dir : (d : ℕ) → d < 1024 → m1.word (d * 4) ≡ m.word (d * 4)
  same_dir d hd = taken.others (d * 4) (inl (omega (arith, taken.address)))

  pub enter_table-IsPaged : IsPaged (enter_table (dir_entry address) tmp m1)
  enter_table-IsPaged = record {
    tables = λ d hd pd. ground (arith, paged.tables d hd, same_dir d hd, Taken-bounds taken);
    counted = λ d hd pd low. ground (
      arith,
      paged.counted d hd,
      same_dir d hd,
      Taken-bounds taken,
      taken.marked (map_nr (frame (update m1.word (dir_entry address) (with_flags tmp) (d * 4)))),
      taken.address,
      taken.in_range,
    );
    apart = λ d e hd he pd pe same. ground (
      arith,
      paged.apart d e hd he,
      same_dir d hd,
      same_dir e he,
      table_ne d hd,
      table_ne e he,
      Taken-bounds taken,
    );
  }

  pub enter_table-walk : (b : ℕ) → walk (enter_table (dir_entry address) tmp m1) b ≡ walk m b
  unfolding walk
  enter_table-walk b = ground (
    arith,
    same_dir (dir_index b) (omega arith),
    paged.tables (dir_index b) (omega arith),
    table_ne (dir_index b) (omega arith),
    Taken-bounds taken,
    taken.others (frame (m.word (dir_entry b)) + table_offset b),
    taken.cleared (b / 2 ^ 12 % 1024),
  )
