-- ===== src/Mm/Pages/Init.antt =====
-- `mem_init` of mm/memory.c, and the counts with which the allocator starts.
use hios.Base.{
  ℕ, zero, suc, ◌+◌, ◌-◌, ◌*◌, ◌/◌, ◌%◌, ◌^◌, ◌≤◌, ◌<◌, ◌≡◌, arith, leb, ltb, ◌&&◌, if◌then◌else◌,
  ◌⊎◌,
}
use hios.Mm.{Mm, low_mem, paging_pages, used, map_nr}
use hios.Mm.Pages.{fill, mem_init, count_free}
use hios.Mm.Pages.Scan.{fill_lem}

-- Memory ends at 16 MB or below, and each free page of `mem_map` lies below its end.
abbrev pub FreeBelow : Mm → Type 0
FreeBelow m =
    (m.high_memory ≤ 2 ^ 24)
    × ((i : ℕ) → i < paging_pages → m.mem_map i ≡ 0 → i * 4096 + low_mem < m.high_memory)

module _ (start_mem end_mem : ℕ) (m : Mm) (above : low_mem ≤ start_mem)
    (order : start_mem ≤ end_mem) (top : end_mem ≤ 2 ^ 24) where
  -- After `mem_init` the pages of the main memory, counted from the page of `start_mem`, are free,
  -- and every other page counts as in use, where main memory lies between 1 MB and 16 MB.
  pub mem_init-mem_map :
      (j : ℕ)
      → j < paging_pages
      → (mem_init start_mem end_mem m).mem_map j ≡ (
          if leb (map_nr start_mem) j && ltb j (map_nr start_mem + (end_mem - start_mem) / 4096)
          then 0
          else used)
  unfolding mem_init
  mem_init-mem_map j h = ground (
    arith,
    fill_lem m.mem_map 0 used paging_pages j,
    fill_lem (fill m.mem_map 0 used paging_pages) (map_nr start_mem) 0
        ((end_mem + 2 ^ 32 - start_mem) % 2 ^ 32 / 4096) j,
  )

  -- `mem_init` leaves no page free that lies at or above the end of memory.
  pub mem_init-FreeBelow : FreeBelow (mem_init start_mem end_mem m)
  unfolding mem_init
  mem_init-FreeBelow = (top, λ i h free. ground (arith, mem_init-mem_map i h))

window_count :
    (f : ℕ → ℕ) (lo k n : ℕ)
    → ((j : ℕ) → j < n → f j ≡ (if leb lo j && ltb j (lo + k) then 0 else used))
    → (n ≤ lo) × (count_free f n ≡ 0)
      ⊎ (lo ≤ n) × (n ≤ lo + k) × (count_free f n + lo ≡ n)
      ⊎ (lo + k ≤ n) × (count_free f n ≡ k)
unfolding count_free
window_count f lo k zero h = ground arith
window_count f lo k (suc n) h =
    ground (arith, window_count f lo k n (λ j lt. h j (omega arith)), h n)

-- `mem_init` leaves as many pages free as fit between `start_mem` and `end_mem`.
pub count_free-mem_init :
    (start_mem end_mem : ℕ) (m : Mm)
    → low_mem ≤ start_mem
    → start_mem ≤ end_mem
    → end_mem ≤ 2 ^ 24
    → count_free (mem_init start_mem end_mem m).mem_map paging_pages ≡ (end_mem - start_mem) / 4096
count_free-mem_init start_mem end_mem m above order top = ground (
  arith,
  window_count (mem_init start_mem end_mem m).mem_map (map_nr start_mem)
      ((end_mem - start_mem) / 4096) paging_pages
      (mem_init-mem_map start_mem end_mem m above order top),
)
