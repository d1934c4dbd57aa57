-- ===== src/Tests/Paging.antt =====
-- Tests of mm/memory.c, on a memory with one page table at 0x1000.
use hios.Base.{
  ℕ, ◌+◌, ◌-◌, ◌*◌, ◌/◌, ◌%◌, ◌≤◌, ◌<◌, ◌≡◌, ◌≢◌, refl, ◌⊎◌, arith, ltb, leb, ◌==◌, ◌&&◌,
  if◌then◌else◌, some, false, update,
}
use hios.Run.{ok, panic, out_of_memory, free_free_page, swapper_space}
use hios.Mm.{Mm, paging_pages, used, map_nr, frame, present, dir_entry}
use hios.Mm.Pages.{mem_init, count_free, find_free, get_free_page, free_page}
use hios.Mm.Pages.Alloc.{Taken, free_page-get_free_page, get_free_page-Taken}
use hios.Mm.Pages.Init.{FreeBelow, mem_init-mem_map}
use hios.Mm.Tables.{
  put_page, do_no_page, un_wp_page, do_wp_page, dir_count, done, minus_one, free_entries,
  copy_page_tables, free_page_tables,
}
use hios.Mm.Tables.Walk.{walk, IsPaged}
use hios.Mm.Tables.Map.{Mapped, put_page-Mapped}
use hios.Mm.Tables.Fault.{Fresh, do_no_page-Fresh}
use hios.Mm.Tables.Wp.{IsCounted, Writable, Kept, Copied, un_wp_page-Writable}
use hios.Mm.Tables.Verify.{entry_of, do_wp_page-walk}
use hios.Mm.Tables.Loops.{refs, refs-le}
use hios.Mm.Tables.Release.{Released, free_entries-Released}
use hios.Mm.Tables.Share.{CanFork, Forked, copy_page_tables-Forked}
use hios.Mm.Tables.Undo.{refs_pad, free_page_tables-copy_page_tables}

-- Page table 0 maps linear page 0 read-only to the page at 0x100000, which two entries share, and
-- page 1 to that at 0x101000, which one uses.
abbrev pub memory : Mm
memory = record {
  high_memory = 0x300000;
  mem_map = λ i. if i == 0 then 2 else if i == 1 then 1 else if ltb i 512 then 0 else used;
  word = λ a.
      if a == 0
      then 0x1007
      else if a == 0x1000
      then 0x100005
      else if a == 0x1004
      then 0x101005
      else if a == 0x100008
      then 77
      else 0;
}

pub memory-IsPaged : IsPaged memory
memory-IsPaged = record {
  tables = λ d hd pd. ground arith;
  counted = λ d hd pd low. ground arith;
  apart = λ d e hd he pd pe same. ground arith;
}

pub memory-FreeBelow : FreeBelow memory
memory-FreeBelow = (omega arith, λ i h free. ground arith)

memory-CanFork : CanFork 0 0x4000000 0xa0000 memory
unfolding dir_count
memory-CanFork = record {
  aligned = omega arith;
  one_table = refl;
  source = refl;
  target = refl;
  paged = memory-IsPaged;
  words = λ a. ground arith;
}

memory-IsCounted : IsCounted memory 0x1000
memory-IsCounted = record {
  here = refl;
  small = omega arith;
  apart = omega arith;
  table = λ low. omega arith;
  counted = λ low. ground arith;
  byte = λ j. ground arith;
}

last_page : (get_free_page memory).0 ≡ 0x2ff000
unfolding get_free_page find_free
last_page = refl

free_twice : free_page 0x102000 memory ≡ panic free_free_page
unfolding free_page
free_twice = refl

free_swapper : free_page_tables 0 0x1000 memory ≡ panic swapper_space
unfolding free_page_tables
free_swapper = refl

mem_init-mem_map_example : (mem_init 0x400000 0x1000000 memory).mem_map 1000 ≡ (
    if leb (map_nr 0x400000) 1000 && ltb 1000 (map_nr 0x400000 + (0x1000000 - 0x400000) / 4096)
    then 0
    else used)
mem_init-mem_map_example =
    mem_init-mem_map 0x400000 0x1000000 memory (omega arith) (omega arith) (omega arith) 1000
      (omega arith)

put_page-Mapped_example :
    (present (memory.word (dir_entry 0x8048123)) ≡ false)
      × ((i : ℕ) → i < paging_pages → memory.mem_map i ≢ 0)
      × (put_page 0x102000 0x8048123 memory ≡ (0, memory))
    ⊎ ((put_page 0x102000 0x8048123 memory).0 ≡ 0x102000)
      × Mapped memory 0x102000 0x8048123 (put_page 0x102000 0x8048123 memory).1
put_page-Mapped_example =
    put_page-Mapped memory 0x102000 0x8048123 memory-IsPaged (omega arith) (omega arith)

do_no_page-Fresh_example :
    (do_no_page 4 0x8048123 memory ≡ panic out_of_memory)
      × (count_free memory.mem_map paging_pages ≤ 1)
    ⊎ ((m' : Mm) × (do_no_page 4 0x8048123 memory ≡ ok tt m') × Fresh memory (frame 0x8048123) m')
do_no_page-Fresh_example = do_no_page-Fresh 4 0x8048123 memory memory-IsPaged (omega arith)

un_wp_page-Writable_example :
    ((m' : Mm) × (un_wp_page 0x1000 memory ≡ ok tt m')
      × Writable memory 0x1000 m'
      × (Kept memory 0x1000 m' ⊎ Copied memory 0x1000 m'))
    ⊎ (un_wp_page 0x1000 memory ≡ panic out_of_memory)
      × ((i : ℕ) → i < paging_pages → memory.mem_map i ≢ 0)
un_wp_page-Writable_example = un_wp_page-Writable 0x1000 memory memory-IsCounted

-- the state after a write fault at linear address 0x1234, on the page that one entry uses
abbrev unprotected : Mm
unprotected = record memory { word = update memory.word 0x1004 0x101007 }

memory-IsCounted_one : IsCounted memory 0x1004
memory-IsCounted_one = record {
  here = refl;
  small = omega arith;
  apart = omega arith;
  table = λ low. omega arith;
  counted = λ low. ground arith;
  byte = λ j. ground arith;
}

do_wp_page-walk_example :
    (e : ℕ) × (walk unprotected 0x1234 ≡ some e)
    × (e % 4 ≡ 3)
    × ((k : ℕ)
        → k < 1024
        → unprotected.word (frame e + 4 * k)
          ≡ memory.word (frame (memory.word (entry_of memory 0x1234)) + 4 * k))
unfolding do_wp_page un_wp_page
do_wp_page-walk_example =
    do_wp_page-walk 7 0x1234 memory unprotected refl (omega arith) memory-IsCounted_one refl

free_entries-Released_example :
    (m' : Mm) × (free_entries 2 0x1000 memory ≡ ok tt m') × Released memory 2 0x1000 m'
unfolding refs
free_entries-Released_example =
    free_entries-Released 2 0x1000 memory (omega arith) (λ k h. ground arith) (λ j. ground arith)

copy_page_tables-Forked_example :
    (copy_page_tables 0 0x4000000 0xa0000 memory ≡ ok minus_one memory)
      × ((i : ℕ) → i < paging_pages → memory.mem_map i ≢ 0)
    ⊎ ((m' : Mm) × (copy_page_tables 0 0x4000000 0xa0000 memory ≡ ok done m')
        × Forked 0 0x4000000 memory m')
copy_page_tables-Forked_example = copy_page_tables-Forked 0 0x4000000 0xa0000 memory memory-CanFork

few_references : (j : ℕ) → memory.mem_map j + refs memory.word 0x1000 160 j < 255
few_references j = ground (
  arith,
  refs_pad memory.word 0x1000 2 160 j (omega arith) (λ k lo lt. ground arith),
  refs-le memory.word 0x1000 2 j,
)

free_page_tables-copy_page_tables_example :
    (m1 : Mm) × (m2 : Mm) × (copy_page_tables 0 0x4000000 0xa0000 memory ≡ ok done m1)
    × (free_page_tables 0x4000000 0xa0000 m1 ≡ ok tt m2)
    × ((j : ℕ) → m2.mem_map j ≡ memory.mem_map j)
    × (m2.word (dir_entry 0x4000000) ≡ 0)
free_page_tables-copy_page_tables_example =
    free_page_tables-copy_page_tables 0 0x4000000 0xa0000 memory memory-CanFork (omega arith)
      memory-FreeBelow (omega (arith, last_page)) (λ k h. ground arith) few_references

get_free_page-Taken_example :
    ((get_free_page memory ≡ (0, memory)) × ((i : ℕ) → i < paging_pages → memory.mem_map i ≢ 0))
    ⊎ Taken memory (get_free_page memory).0 (get_free_page memory).1
get_free_page-Taken_example = get_free_page-Taken memory

free_page-get_free_page_example :
    (m' : Mm) × (free_page (get_free_page memory).0 (get_free_page memory).1 ≡ ok tt m')
    × ((j : ℕ) → m'.mem_map j ≡ memory.mem_map j)
free_page-get_free_page_example =
    free_page-get_free_page memory memory-FreeBelow.1 (omega (arith, last_page))
