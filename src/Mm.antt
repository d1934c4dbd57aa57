-- ===== src/Mm.antt =====
-- mm/memory.c: the state, and the bit fields of addresses and of page table entries. `Mm.Pages`
-- has the physical page allocator, `Mm.Tables` the two-level page tables.
--
-- Addresses, words and `unsigned long` values are numbers below 2 ^ 32, and a masked or shifted
-- value is written by `/`, `%` and `*`. `invalidate()` reloads CR3 and changes no memory.
pub mod Pages
pub mod Tables
use hios.Base.{ℕ, ◌+◌, ◌-◌, ◌*◌, ◌/◌, ◌%◌, ◌^◌, ◌==◌, update, Bool}

-- LOW_MEM
abbrev pub low_mem : ℕ
low_mem = 0x100000

-- PAGING_PAGES
abbrev pub paging_pages : ℕ
paging_pages = 3840

-- USED
abbrev pub used : ℕ
used = 100

-- `word` is the 32-bit word at an address that is a multiple of 4.
pub record Mm : Type 0 where
  pub high_memory : ℕ
  pub mem_map : ℕ → ℕ
  pub word : ℕ → ℕ

-- MAP_NR: `(addr - LOW_MEM) >> 12` on `unsigned long`
abbrev pub map_nr : ℕ → ℕ
map_nr addr = (addr + 2 ^ 32 - low_mem) % 2 ^ 32 / 4096

-- `x & 0xfffff000`
abbrev pub frame : ℕ → ℕ
frame x = x / 4096 * 4096

-- `x & 1`, as a test
abbrev pub present : ℕ → Bool
present x = x % 2 == 1

-- `x | 7`
abbrev pub with_flags : ℕ → ℕ
with_flags x = x / 8 * 8 + 7

-- `x | 2`
abbrev pub writable : ℕ → ℕ
writable x = x / 4 * 4 + x % 2 + 2

-- `x & ~2`
abbrev pub read_only : ℕ → ℕ
read_only x = x / 4 * 4 + x % 2

-- `(address >> 20) & 0xffc`
abbrev pub dir_entry : ℕ → ℕ
dir_entry address = address / 2 ^ 22 % 1024 * 4

-- `(address >> 10) & 0xffc`
abbrev pub table_offset : ℕ → ℕ
table_offset address = address / 2 ^ 12 % 1024 * 4

abbrev pub set_word : ℕ → ℕ → Mm → Mm
set_word a v m = record m { word = update m.word a v }

-- `unsigned char` counts wrap.
abbrev pub set_map : ℕ → ℕ → Mm → Mm
set_map i v m = record m { mem_map = update m.mem_map i v }
