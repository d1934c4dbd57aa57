-- ===== src/Mm/Tables.antt =====
-- mm/memory.c: the functions that read and write the page directory at address 0 and the page
-- tables. The messages that `put_page` prints change nothing and are left out.
pub mod Walk
pub mod Map
pub mod Fault
pub mod Wp
pub mod Verify
pub mod Loops
pub mod Release
pub mod Share
pub mod Undo
use hios.Base.{
  ℕ, zero, suc, ◌+◌, ◌-◌, ◌*◌, ◌/◌, ◌%◌, ◌^◌, leb, ltb, ◌==◌, ◌&&◌, ◌||◌, not, Bool, true, false,
  if◌then◌else◌, update,
}
use hios.Run.{
  Run, ok, panic, Cmd, and_then, ◌>>◌, halt, pure, out_of_memory, wrong_alignment, swapper_space,
  already_exist,
}
use hios.Mm.{
  Mm, low_mem, map_nr, frame, present, with_flags, writable, read_only, dir_entry, table_offset,
  set_word, set_map,
}
use hios.Mm.Pages.{get_free_page, free_page}

-- The last two lines of `put_page`: the entry of `address` in the table at `pg_tbl`.
unfoldable pub put_entry : ℕ → ℕ → ℕ → Mm → ℕ × Mm
put_entry pg_tbl page address m =
    (page, set_word (pg_tbl + table_offset address) (with_flags page) m)

-- `page`, or 0 when a page table is needed and no page is free
unfoldable pub put_page : ℕ → ℕ → Mm → ℕ × Mm
put_page page address m =
    let dir = dir_entry address in
    if present (m.word dir)
    then put_entry (frame (m.word dir)) page address m
    else let (tmp, m1) = get_free_page m in
      if tmp == 0 then (0, m1) else put_entry tmp page address (set_word dir (with_flags tmp) m1)

-- `free_page(page); oom();`
unfoldable pub give_up : ℕ → Mm → Run Mm (Unit {0})
give_up page = free_page page >> halt out_of_memory

unfoldable pub get_empty_page : ℕ → Mm → Run Mm (Unit {0})
get_empty_page address m =
    let (tmp, m1) = get_free_page m in
    if tmp == 0
    then give_up tmp m1
    else let (placed, m2) = put_page tmp address m1 in
      if placed == 0 then give_up tmp m2 else ok tt m2

-- `rep movsl`: copies `n` words upwards.
unfoldable pub copy_words : (ℕ → ℕ) → ℕ → ℕ → ℕ → ℕ → ℕ
copy_words w from to zero = w
copy_words w from to (suc n) = copy_words (update w to (w from)) (from + 4) (to + 4) n

unfoldable pub copy_page : ℕ → ℕ → Mm → Mm
copy_page from to m = record m { word = copy_words m.word from to 1024 }

-- `if (old_page >= LOW_MEM) mem_map[MAP_NR(old_page)]--;`
unfoldable pub drop_reference : ℕ → Mm → Mm
drop_reference page m =
    if leb low_mem page then set_map (map_nr page) ((m.mem_map (map_nr page) + 255) % 256) m else m

unfoldable pub un_wp_page : ℕ → Mm → Run Mm (Unit {0})
un_wp_page table_entry m =
    let old_page = frame (m.word table_entry) in
    if leb low_mem old_page && (m.mem_map (map_nr old_page) == 1)
    then ok tt (set_word table_entry (writable (m.word table_entry)) m)
    else let (new_page, m1) = get_free_page m in
      if new_page == 0
      then panic out_of_memory
      else ok tt (
          copy_page old_page new_page
            (set_word table_entry (with_flags new_page) (drop_reference old_page m1)))

unfoldable pub do_wp_page : ℕ → ℕ → Mm → Run Mm (Unit {0})
do_wp_page error_code address m =
    un_wp_page (table_offset address + frame (m.word (dir_entry address))) m

unfoldable pub write_verify : ℕ → Mm → Run Mm (Unit {0})
write_verify address m =
    if not (present (m.word (dir_entry address)))
    then ok tt m
    else let page = frame (m.word (dir_entry address)) + table_offset address in
      if m.word page % 4 == 1 then un_wp_page page m else ok tt m

unfoldable pub do_no_page : ℕ → ℕ → Mm → Run Mm (Unit {0})
do_no_page error_code address m =
    let (page, m1) = get_free_page m in
    if page == 0
    then panic out_of_memory
    else let (placed, m2) = put_page page (frame address) m1 in
      if placed == 0 then give_up page m2 else ok tt m2

-- The inner loop of `free_page_tables`, `n` entries from `pg_tbl`.
unfoldable pub free_entries : ℕ → ℕ → Mm → Run Mm (Unit {0})
free_entries zero pg_tbl m = ok tt m
free_entries (suc n) pg_tbl m =
    and_then (if present (m.word pg_tbl) then free_page (frame (m.word pg_tbl)) m else ok tt m)
      λ _ m1. free_entries n (pg_tbl + 4) (set_word pg_tbl 0 m1)

-- One present directory entry: its table's pages, then the table.
unfoldable pub free_table : ℕ → Mm → Run Mm (Unit {0})
free_table dir m =
    and_then (free_entries 1024 (frame (m.word dir)) m)
      λ _ m1. and_then (free_page (frame (m1.word dir)) m1) λ _ m2. ok tt (set_word dir 0 m2)

-- Its outer loop, `size` directory entries from `dir`.
unfoldable pub free_dirs : ℕ → ℕ → Mm → Run Mm (Unit {0})
free_dirs zero dir m = ok tt m
free_dirs (suc size) dir m =
    and_then (if present (m.word dir) then free_table dir m else ok tt m)
      λ _ m1. free_dirs size (dir + 4) m1

-- `(size + 0x3fffff) >> 22`
unfoldable pub dir_count : ℕ → ℕ
dir_count size = (size + 0x3fffff) % 2 ^ 32 / 2 ^ 22

unfoldable pub free_page_tables : ℕ → ℕ → Mm → Run Mm (Unit {0})
free_page_tables from size m =
    if not (from % 2 ^ 22 == 0)
    then panic wrong_alignment
    else if from == 0
    then panic swapper_space
    else free_dirs (dir_count size) (dir_entry from) m

-- One round of the inner loop of `copy_page_tables`.
unfoldable pub share_entry : ℕ → ℕ → Mm → Mm
share_entry from_entry to_entry m =
    if not (present (m.word from_entry))
    then m
    else let this_page = read_only (m.word from_entry) in
      let m1 = set_word to_entry this_page m in
      if ltb low_mem this_page
      then set_map (map_nr this_page) ((m1.mem_map (map_nr this_page) + 1) % 256)
          (set_word from_entry this_page m1)
      else m1

unfoldable pub share_entries : ℕ → ℕ → ℕ → Mm → Mm
share_entries zero from_entry to_entry m = m
share_entries (suc nr) from_entry to_entry m =
    share_entries nr (from_entry + 4) (to_entry + 4) (share_entry from_entry to_entry m)

-- The return values of `copy_page_tables`.
pub data Copied : Type 0 where
  done : Copied
  minus_one : Copied

-- The outer loop; `nr` is 0xA0 or 1024, and the same in every round.
unfoldable pub copy_dirs : ℕ → ℕ → ℕ → ℕ → Mm → Run Mm Copied
copy_dirs zero nr from_dir to_dir m = ok done m
copy_dirs (suc size) nr from_dir to_dir m =
    let skip = copy_dirs size nr (from_dir + 4) (to_dir + 4) m in
    let (to_page_table, m1) = get_free_page m in
    let m2 =
      share_entries nr (frame (m.word from_dir)) to_page_table
        (set_word to_dir (with_flags to_page_table) m1) in
    let next = copy_dirs size nr (from_dir + 4) (to_dir + 4) m2 in
    if present (m.word to_dir)
    then panic already_exist
    else if not (present (m.word from_dir))
    then skip
    else if to_page_table == 0
    then ok minus_one m1
    else next

unfoldable pub copy_page_tables : ℕ → ℕ → ℕ → Mm → Run Mm Copied
copy_page_tables from to size m =
    if not (from % 2 ^ 22 == 0) || not (to % 2 ^ 22 == 0)
    then panic wrong_alignment
    else copy_dirs (dir_count size) (if from == 0 then 0xA0 else 1024) (dir_entry from)
        (dir_entry to) m
