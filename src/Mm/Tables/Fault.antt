-- ===== src/Mm/Tables/Fault.antt =====
-- `do_no_page` and `get_empty_page` of mm/memory.c: a fresh page at a linear address.
use hios.Base.{
  ℕ, ◌+◌, ◌*◌, ◌%◌, ◌^◌, ◌≤◌, ◌<◌, ◌≡◌, ◌≢◌, ◌⊎◌, inl, inr, ◌∙◌, ap, arith, true, Bool-cases,
}
use hios.Run.{ok, panic, out_of_memory}
use hios.Mm.{Mm, low_mem, paging_pages, map_nr, frame, present, dir_entry, table_offset}
use hios.Mm.Pages.{get_free_page, count_free}
use hios.Mm.Pages.Scan.{count_free_zero}
use hios.Mm.Pages.Alloc.{
  Taken, get_free_page-Taken, Taken-bounds, free_page_cases, count_free-get_free_page,
}
use hios.Mm.Tables.{put_entry, put_page, give_up, get_empty_page, do_no_page}
use hios.Mm.Tables.Walk.{walk, IsPaged, dir_index}
use hios.Mm.Tables.Map.{Mapped, put_page-Mapped, put_page-old, put_page-new, put_page-full}

module _ {m m1 : Mm} {tmp : ℕ} (taken : Taken m tmp m1) (paged : IsPaged m) where
  pub same_dir : (d : ℕ) → d < 1024 → m1.word (d * 4) ≡ m.word (d * 4)
  same_dir d hd = taken.others (d * 4) (inl (omega (arith, taken.address)))

  apart_from : (d : ℕ) → d < 1024 → present (m.word (d * 4)) ≡ true → frame (m.word (d * 4)) ≢ tmp
  apart_from d hd pd e =
      paged.counted d hd pd (omega (arith, taken.address))
        (ground (arith, taken.address, taken.was_free, taken.in_range))

  pub Taken-IsPaged : IsPaged m1
  Taken-IsPaged = record {
    tables = λ d hd pd. ground (arith, paged.tables d hd, same_dir d hd);
    counted = λ d hd pd low.
        ground (
          arith,
          paged.counted d hd,
          same_dir d hd,
          taken.marked (map_nr (frame (m1.word (d * 4)))),
        );
    apart =
        λ d e hd he pd pe same. ground (arith, paged.apart d e hd he, same_dir d hd, same_dir e he);
  }

  Taken-walk : (b : ℕ) → walk m1 b ≡ walk m b
  unfolding walk
  Taken-walk b = ground (
    arith,
    same_dir (dir_index b) (omega arith),
    paged.tables (dir_index b) (omega arith),
    apart_from (dir_index b) (omega arith),
    Taken-bounds taken,
    taken.others (frame (m.word (dir_entry b)) + table_offset b),
  )

  -- `put_page` does not write into the page that it maps.
  still_clear :
      (address k : ℕ)
      → k < 1024
      → (put_page tmp address m1).0 ≢ 0
      → (put_page tmp address m1).1.word (tmp + 4 * k) ≡ 0
  unfolding put_entry
  still_clear address k hk h = elim (Bool-cases (present (m1.word (dir_entry address)))) [
    | inl here ↦ rw (put_page-old m1 tmp address here) (
        ground (
          arith,
          taken.cleared k hk,
          Taken-bounds taken,
          same_dir (dir_index address) (omega arith),
          apart_from (dir_index address) (omega arith),
        ))
    | inr absent ↦ elim (get_free_page-Taken m1) [
      | inl (e, all) ↦ absurd (h (ap (λ (r : ℕ × Mm). r.0) (put_page-full m1 tmp address absent e)))
      | inr t ↦ rw (put_page-new m1 tmp address absent t) (
          ground (
            arith,
            taken.cleared k hk,
            Taken-bounds taken,
            Taken-bounds t,
            t.others (tmp + 4 * k),
            taken.marked t.index,
            t.was_free,
            t.address,
            taken.address,
          ))
    ]
  ]

-- `m'` maps a page that was free in `m`, all zeros, at `address`; the rest is translated as in `m`.
pub record Fresh (m : Mm) (address : ℕ) (m' : Mm) : Type 0 where
  pub page : ℕ
  pub in_memory : (low_mem ≤ page) × (page < 2 ^ 24) × (page % 4096 ≡ 0)
  pub was_free : m.mem_map (map_nr page) ≡ 0
  pub zeroed : (k : ℕ) → k < 1024 → m'.word (page + 4 * k) ≡ 0
  pub mapped : Mapped m page address m'

module _ (m : Mm) (address : ℕ) (paged : IsPaged m) (small : address < 2 ^ 32) where
  -- Taking a page and mapping it either succeeds, or at most one page was free.
  take_and_put :
      ((get_free_page m).0 ≡ 0) × (count_free m.mem_map paging_pages ≡ 0)
      ⊎ ((get_free_page m).0 ≢ 0)
        × (put_page (get_free_page m).0 address (get_free_page m).1 ≡ (0, (get_free_page m).1))
        × (count_free m.mem_map paging_pages ≡ 1)
      ⊎ ((get_free_page m).0 ≢ 0)
        × ((put_page (get_free_page m).0 address (get_free_page m).1).0 ≢ 0)
        × Fresh m address (put_page (get_free_page m).0 address (get_free_page m).1).1
  take_and_put = elim (get_free_page-Taken m) [
    | inl (e, all) ↦ inl (ap (λ (r : ℕ × Mm). r.0) e, count_free_zero m.mem_map paging_pages all)
    | inr t ↦
        let page = (get_free_page m).0 in
        let m1 = (get_free_page m).1 in
        let nonzero : page ≢ 0 = omega (arith, Taken-bounds t) in
        elim (put_page-Mapped m1 page address (Taken-IsPaged t paged) small
          (omega (arith, Taken-bounds t))) [
            | inl (absent, all, e) ↦ inr (
                inl (
                  nonzero,
                  e,
                  omega (
                    arith,
                    count_free-get_free_page m nonzero,
                    count_free_zero m1.mem_map paging_pages all,
                  ),
                ))
            | inr (e, is) ↦
                let placed : (put_page page address m1).0 ≢ 0 = rw e nonzero in
                inr (
                  inr (
                    nonzero,
                    placed,
                    record {
                      page = page;
                      in_memory = omega (arith, Taken-bounds t);
                      was_free = ground (arith, t.was_free, t.address, t.in_range);
                      zeroed = λ k h. still_clear t paged address k h placed;
                      mapped = record {
                        maps = is.maps;
                        keeps = λ b hb ne. is.keeps b hb ne ∙ Taken-walk t paged b;
                        paged = is.paged;
                        same_top = is.same_top ∙ t.same_top;
                      };
                    },
                  ))
          ]
  ]

give_up-panic :
    (m : Mm)
    → (get_free_page m).0 ≢ 0
    → give_up (get_free_page m).0 (get_free_page m).1 ≡ panic out_of_memory
unfolding give_up
give_up-panic m h = elim (get_free_page-Taken m) [
  | inl (none_left, all) ↦ absurd (h (ap (λ (r : ℕ × Mm). r.0) none_left))
  | inr t ↦ ground (
    arith,
    free_page_cases (get_free_page m).0 (get_free_page m).1,
    t.marked (map_nr (get_free_page m).0),
    Taken-bounds t,
    t.address,
    t.in_range,
  )
]

give_up_zero : (n : Mm) → give_up 0 n ≡ panic out_of_memory
unfolding give_up
give_up_zero n = ground (arith, free_page_cases 0 n)

-- Where the page tables are pages of their own, a fault on a missing page maps a page at its linear
-- page: one that was free, cleared, and present for user reads and writes. Every other linear page
-- is translated as before. It panics only if at most one page was free.
pub do_no_page-Fresh :
    (error_code address : ℕ) (m : Mm)
    → IsPaged m
    → address < 2 ^ 32
    → (do_no_page error_code address m ≡ panic out_of_memory)
        × (count_free m.mem_map paging_pages ≤ 1)
      ⊎ ((m' : Mm) × (do_no_page error_code address m ≡ ok tt m') × Fresh m (frame address) m')
unfolding do_no_page
do_no_page-Fresh error_code address m paged small =
    elim (take_and_put m (frame address) paged (omega arith)) [
      | inl (e, c) ↦ inl (rw e, omega arith)
      | inr (inl (e, f, c)) ↦ inl (ground (arith, give_up-panic m e), omega arith)
      | inr (inr (e, f, fresh)) ↦ inr (_, ground arith, fresh)
    ]

-- `get_empty_page` does the same at the address that it is given.
pub get_empty_page-Fresh :
    (address : ℕ) (m : Mm)
    → IsPaged m
    → address < 2 ^ 32
    → (get_empty_page address m ≡ panic out_of_memory) × (count_free m.mem_map paging_pages ≤ 1)
      ⊎ ((m' : Mm) × (get_empty_page address m ≡ ok tt m') × Fresh m address m')
unfolding get_empty_page
get_empty_page-Fresh address m paged small = elim (take_and_put m address paged small) [
  | inl (e, c) ↦ inl (rw e (give_up_zero (get_free_page m).1), omega arith)
  | inr (inl (e, f, c)) ↦ inl (ground (arith, give_up-panic m e), omega arith)
  | inr (inr (e, f, fresh)) ↦ inr (_, ground arith, fresh)
]
