-- ===== src/Mm/Pages.antt =====
-- mm/memory.c: `mem_init`, `get_free_page`, `free_page` and the count that `calc_mem` prints.
pub mod Scan
pub mod Alloc
pub mod Init
use hios.Base.{
  ℕ, zero, suc, ◌+◌, ◌-◌, ◌*◌, ◌/◌, ◌%◌, ◌^◌, leb, ltb, ◌==◌, if◌then◌else◌, update, true, false,
  Option, none, some,
}
use hios.Run.{Run, ok, panic, free_free_page}
use hios.Mm.{Mm, low_mem, paging_pages, used, map_nr, set_map}

-- `while (k-- > 0) f[i++] = v;`
unfoldable pub fill : (ℕ → ℕ) → ℕ → ℕ → ℕ → ℕ → ℕ
fill f i v zero = f
fill f i v (suc k) = fill (update f i v) (suc i) v k

-- The main memory is the pages between `start_mem` and `end_mem`; all others count as in use.
unfoldable pub mem_init : ℕ → ℕ → Mm → Mm
mem_init start_mem end_mem m =
    let all_used = fill m.mem_map 0 used paging_pages in
    let pages = (end_mem + 2 ^ 32 - start_mem) % 2 ^ 32 / 4096 in
    record m { high_memory = end_mem; mem_map = fill all_used (map_nr start_mem) 0 pages }

-- `calc_mem`'s `free`: the free pages among the first `n`.
unfoldable pub count_free : (ℕ → ℕ) → ℕ → ℕ
count_free map zero = 0
count_free map (suc n) = count_free map n + (if map n == 0 then 1 else 0)

-- `repne scasb` from the end of `mem_map` down: ECX is `n`, and the index where it stops is ECX.
unfoldable pub find_free : (ℕ → ℕ) → ℕ → Option ℕ
find_free map zero = none
find_free map (suc n) = elim (map n == 0) [ true ↦ some n | false ↦ find_free map n ]

-- `rep stosl` with EAX = 0: clears the `n` words from `base`, the last one first.
unfoldable pub clear_words : (ℕ → ℕ) → ℕ → ℕ → ℕ → ℕ
clear_words w base zero = w
clear_words w base (suc n) = clear_words (update w (base + 4 * n) 0) base n

-- The address of a cleared page that is now in use, or 0.
unfoldable pub get_free_page : Mm → ℕ × Mm
get_free_page m = elim (find_free m.mem_map paging_pages) [
  | none ↦ (0, m)
  | some i ↦
      let page = i * 4096 + low_mem in
      let m' = set_map i 1 m in (page, record m' { word = clear_words m'.word page 1024 })
]

-- `if (mem_map[addr]--) return;` leaves 255 behind a 0, which the next line makes 0 again.
unfoldable pub free_page : ℕ → Mm → Run Mm (Unit {0})
free_page addr m =
    if ltb addr low_mem
    then ok tt m
    else if leb m.high_memory addr
    then ok tt m
    else let i = map_nr addr in
      if m.mem_map i == 0 then panic free_free_page else ok tt (set_map i (m.mem_map i - 1) m)
