-- ===== src/Mm/Pages/Alloc.antt =====
-- `get_free_page` and `free_page` of mm/memory.c: what each does on every branch, and together.
use hios.Base.{
  ℕ, ◌+◌, ◌-◌, ◌*◌, ◌%◌, ◌^◌, ◌≤◌, ◌<◌, ◌≡◌, ◌≢◌, refl, ◌⊎◌, inl, inr, ap, some, arith, fun_ext,
  ◌==◌, if◌then◌else◌, Option-cases, update,
}
use hios.Run.{ok, panic, free_free_page}
use hios.Mm.{Mm, low_mem, paging_pages, map_nr}
use hios.Mm.Pages.{find_free, count_free, get_free_page, free_page}
use hios.Mm.Pages.Scan.{
  find_free-none, find_free-some, find_free-highest, clear_words_inside, clear_words_outside,
  clear_words_either, count_free-update,
}

-- `page` is the free page with the highest address; it is cleared and marked, and nothing else
-- changes.
pub record Taken (m : Mm) (page : ℕ) (m' : Mm) : Type 0 where
  pub index : ℕ
  pub in_range : index < paging_pages
  pub address : page ≡ index * 4096 + low_mem
  pub was_free : m.mem_map index ≡ 0
  pub highest : (j : ℕ) → index < j → j < paging_pages → m.mem_map j ≢ 0
  pub marked : (j : ℕ) → m'.mem_map j ≡ (if index == j then 1 else m.mem_map j)
  pub cleared : (k : ℕ) → k < 1024 → m'.word (page + 4 * k) ≡ 0
  pub others : (a : ℕ) → (a < page) ⊎ (page + 4096 ≤ a) → m'.word a ≡ m.word a
  pub either : (a : ℕ) → (m'.word a ≡ m.word a) ⊎ (m'.word a ≡ 0)
  pub same_top : m'.high_memory ≡ m.high_memory

found-Taken :
    (m : Mm) (i : ℕ)
    → find_free m.mem_map paging_pages ≡ some i
    → Taken m (get_free_page m).0 (get_free_page m).1
unfolding get_free_page
found-Taken m i e =
    let found = find_free-some m.mem_map paging_pages i e in
    rw (e, get_free_page)
      record {
        index = i;
        in_range = found.0;
        address = refl;
        was_free = found.1;
        highest = λ j lo hi. find_free-highest m.mem_map paging_pages i j e lo hi;
        marked = λ j. refl;
        cleared = λ k h. clear_words_inside m.word (i * 4096 + low_mem) 1024 k h;
        others = λ a h. clear_words_outside m.word (i * 4096 + low_mem) 1024 a (omega arith);
        either = λ a. clear_words_either m.word (i * 4096 + low_mem) 1024 a;
        same_top = refl;
      }

-- Either every page is in use, the result is 0 and nothing changes, or the highest free page is
-- taken: it is cleared and its count is 1, and no other page, count or word changes.
pub get_free_page-Taken :
    (m : Mm)
    → ((get_free_page m ≡ (0, m)) × ((i : ℕ) → i < paging_pages → m.mem_map i ≢ 0))
      ⊎ Taken m (get_free_page m).0 (get_free_page m).1
unfolding get_free_page
get_free_page-Taken m = elim (Option-cases (find_free m.mem_map paging_pages)) [
  | inl e ↦ inl (rw (e, get_free_page), λ i h. find_free-none m.mem_map paging_pages i e h)
  | inr (i, e) ↦ inr (found-Taken m i e)
]

pub Taken-bounds :
    {m m' : Mm} {page : ℕ}
    → Taken m page m'
    → (low_mem ≤ page) × (page < 2 ^ 24) × (page % 4096 ≡ 0) × (map_nr page * 4096 + low_mem ≡ page)
Taken-bounds t = omega (arith, t.address, t.in_range)

Taken-map_nr : {m m' : Mm} {page : ℕ} (t : Taken m page m') → map_nr page ≡ t.index
Taken-map_nr t = omega (arith, t.address, t.in_range)

-- `free_page` panics on a managed page that is free, lowers the count of one in use by one, and
-- does nothing outside the managed memory.
pub free_page_cases :
    (addr : ℕ) (m : Mm)
    → ((addr < low_mem) ⊎ (m.high_memory ≤ addr)) × (free_page addr m ≡ ok tt m)
      ⊎ (low_mem ≤ addr)
        × (addr < m.high_memory)
        × (m.mem_map (map_nr addr) ≡ 0)
        × (free_page addr m ≡ panic free_free_page)
      ⊎ (low_mem ≤ addr)
        × (addr < m.high_memory)
        × (0 < m.mem_map (map_nr addr))
        × (free_page addr m
            ≡ ok tt (record m {
              mem_map = update m.mem_map (map_nr addr) (m.mem_map (map_nr addr) - 1);
            }))
unfolding free_page
free_page_cases addr m = ground arith

-- Every index that `free_page` uses lies in `mem_map`, if memory ends at 16 MB or below.
pub map_nr_bounds :
    (addr high : ℕ)
    → high ≤ 2 ^ 24
    → low_mem ≤ addr
    → addr < high
    → (map_nr addr < paging_pages)
      × (map_nr addr * 4096 + low_mem ≤ addr)
      × (addr < map_nr addr * 4096 + low_mem + 4096)
map_nr_bounds addr high top lo hi = omega arith

-- Taking a page lowers the number of free pages that `calc_mem` prints by one.
pub count_free-get_free_page :
    (m : Mm)
    → (get_free_page m).0 ≢ 0
    → count_free (get_free_page m).1.mem_map paging_pages + 1 ≡ count_free m.mem_map paging_pages
count_free-get_free_page m h = elim (get_free_page-Taken m) [
  | inl (e, all) ↦ absurd (h (ap (λ (r : ℕ × Mm). r.0) e))
  | inr t ↦
      rw (fun_ext t.marked)
        (count_free-update m.mem_map paging_pages t.index 1 t.in_range t.was_free (omega arith))
]

-- A page that was just taken can be given back, and then every count is as before, if no page at or
-- above the end of memory is free.
pub free_page-get_free_page :
    (m : Mm)
    → ((i : ℕ) → i < paging_pages → m.mem_map i ≡ 0 → i * 4096 + low_mem < m.high_memory)
    → (get_free_page m).0 ≢ 0
    → (m' : Mm) × (free_page (get_free_page m).0 (get_free_page m).1 ≡ ok tt m')
      × ((j : ℕ) → m'.mem_map j ≡ m.mem_map j)
free_page-get_free_page m top h = elim (get_free_page-Taken m) [
  | inl (e, all) ↦ absurd (h (ap (λ (r : ℕ × Mm). r.0) e))
  | inr t ↦ give_back (get_free_page m).1 (get_free_page m).0 t
]
  where
    give_back :
        (n : Mm) (page : ℕ)
        → Taken m page n
        → (m' : Mm) × (free_page page n ≡ ok tt m') × ((j : ℕ) → m'.mem_map j ≡ m.mem_map j)
    give_back n page t = (
      record n { mem_map = update n.mem_map (map_nr page) (n.mem_map (map_nr page) - 1) },
      ground (
        arith,
        free_page_cases page n,
        Taken-bounds t,
        t.same_top,
        t.marked (map_nr page),
        Taken-map_nr t,
        top t.index t.in_range t.was_free,
        t.address,
      ),
      λ j. ground (arith, t.marked j, t.marked (map_nr page), Taken-map_nr t, t.was_free),
    )
