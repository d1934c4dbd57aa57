-- ===== src/Mm/Tables/Map.antt =====
-- What `put_page` of mm/memory.c does to the translation of linear addresses.
use hios.Base.{
  ℕ, ◌+◌, ◌%◌, ◌^◌, ◌≤◌, ◌<◌, ◌≡◌, ◌≢◌, refl, ◌⊎◌, inl, inr, ◌∙◌, some, arith, true, false,
  Bool-cases,
}
use hios.Mm.{Mm, paging_pages, frame, present, dir_entry}
use hios.Mm.Pages.{get_free_page}
use hios.Mm.Pages.Alloc.{Taken, get_free_page-Taken, Taken-bounds}
use hios.Mm.Tables.{put_entry, put_page}
use hios.Mm.Tables.Walk.{
  walk, IsPaged, dir_index, put_entry-walk, put_entry-walk_ne, put_entry-IsPaged, enter_table,
  enter_table-IsPaged, enter_table-walk,
}

-- In `m'` the linear page of `address` is `page`, present, writable and open to user code, and all
-- other linear pages are as in `m`.
pub record Mapped (m : Mm) (page address : ℕ) (m' : Mm) : Type 0 where
  pub maps : walk m' address ≡ some (page + 7)
  pub keeps : (b : ℕ) → b < 2 ^ 32 → frame b ≢ frame address → walk m' b ≡ walk m b
  pub paged : IsPaged m'
  pub same_top : m'.high_memory ≡ m.high_memory

module _ (m0 m : Mm) (page address tbl : ℕ) (paged : IsPaged m)
    (as_before : (b : ℕ) → walk m b ≡ walk m0 b) (top : m.high_memory ≡ m0.high_memory)
    (small : address < 2 ^ 32) (aligned : page % 4096 ≡ 0)
    (here : present (m.word (dir_entry address)) ≡ true)
    (is : frame (m.word (dir_entry address)) ≡ tbl) where
  put_entry-Mapped :
      let (r, m') = put_entry tbl page address m in (r ≡ page) × Mapped m0 page address m'
  unfolding put_entry
  put_entry-Mapped =
      let out : 4096 ≤ tbl = ground (arith, paged.tables (dir_index address) (omega arith) here) in
      (
        refl,
        record {
          maps = put_entry-walk m page address tbl here is out aligned;
          keeps = λ b hb ne.
              put_entry-walk_ne m page address tbl here is out aligned paged b hb small ne
              ∙ as_before b;
          paged = put_entry-IsPaged m page address tbl here is out aligned paged;
          same_top = top;
        },
      )

pub put_page-old :
    (m : Mm) (page address : ℕ)
    → present (m.word (dir_entry address)) ≡ true
    → put_page page address m ≡ put_entry (frame (m.word (dir_entry address))) page address m
unfolding put_page
put_page-old m page address here = rw here

pub put_page-full :
    (m : Mm) (page address : ℕ)
    → present (m.word (dir_entry address)) ≡ false
    → get_free_page m ≡ (0, m)
    → put_page page address m ≡ (0, m)
unfolding put_page
put_page-full m page address absent e = rw (absent, e)

pub put_page-new :
    (m : Mm) (page address : ℕ)
    → present (m.word (dir_entry address)) ≡ false
    → Taken m (get_free_page m).0 (get_free_page m).1
    → put_page page address m
      ≡ put_entry
          (get_free_page m).0
          page
          address
          (enter_table (dir_entry address) (get_free_page m).0 (get_free_page m).1)
unfolding put_page
put_page-new m page address absent t = ground (arith, Taken-bounds t)

-- Where the page tables are pages of their own, `put_page` fails exactly when the page table is
-- missing and no page is free, and then changes nothing. Otherwise it returns `page`, the linear
-- page of `address` is then mapped to `page` for user reads and writes, every other linear page is
-- translated as before, and the page tables still are pages of their own.
pub put_page-Mapped :
    (m : Mm) (page address : ℕ)
    → IsPaged m
    → address < 2 ^ 32
    → page % 4096 ≡ 0
    → (present (m.word (dir_entry address)) ≡ false)
        × ((i : ℕ) → i < paging_pages → m.mem_map i ≢ 0)
        × (put_page page address m ≡ (0, m))
      ⊎ ((put_page page address m).0 ≡ page) × Mapped m page address (put_page page address m).1
put_page-Mapped m page address paged small aligned =
    elim (Bool-cases (present (m.word (dir_entry address)))) [
      | inl here ↦ inr (
          rw (put_page-old m page address here)
            (put_entry-Mapped m m page address _ paged (λ b. refl) refl small aligned here refl))
      | inr absent ↦ elim (get_free_page-Taken m) [
        | inl (e, all) ↦ inl (absent, all, put_page-full m page address absent e)
        | inr t ↦ inr (
            rw (put_page-new m page address absent t) (
              put_entry-Mapped m _ page address _ (enter_table-IsPaged address t absent paged)
                (enter_table-walk address t absent paged) t.same_top small aligned
                (ground (arith, Taken-bounds t)) (ground (arith, Taken-bounds t))))
      ]
    ]
