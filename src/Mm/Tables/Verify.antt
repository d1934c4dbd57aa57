-- ===== src/Mm/Tables/Verify.antt =====
-- `do_wp_page` and `write_verify` of mm/memory.c: write faults by linear address.
use hios.Base.{
  ℕ, ◌+◌, ◌*◌, ◌%◌, ◌≤◌, ◌<◌, ◌≡◌, some, none, inl, inr, arith, ◌==◌, if◌then◌else◌, true,
}
use mathlib.Core.Path.{subst}
use hios.Run.{ok}
use hios.Mm.{Mm, frame, present, dir_entry, table_offset}
use hios.Mm.Tables.{do_wp_page, write_verify}
use hios.Mm.Tables.Walk.{walk}
use hios.Mm.Tables.Wp.{IsCounted, Writable, un_wp_page-Writable}

-- the address of the page table entry of a linear address
abbrev pub entry_of : Mm → ℕ → ℕ
entry_of m address = frame (m.word (dir_entry address)) + table_offset address

-- `write_verify` acts as a write fault exactly at a page that is present and read-only, and
-- otherwise changes nothing.
pub write_verify-do_wp_page :
    (error_code address : ℕ) (m : Mm)
    → write_verify address m ≡ elim (walk m address) [
      | none ↦ ok tt m
      | some e ↦ if e % 4 == 1 then do_wp_page error_code address m else ok tt m
    ]
unfolding write_verify do_wp_page walk
write_verify-do_wp_page error_code address m = ground arith

-- After a write fault that does not panic the processor finds a writable page at the address, which
-- holds what the old one held.
pub do_wp_page-walk :
    (error_code address : ℕ) (m m' : Mm)
    → present (m.word (dir_entry address)) ≡ true
    → 4096 ≤ frame (m.word (dir_entry address))
    → IsCounted m (entry_of m address)
    → do_wp_page error_code address m ≡ ok tt m'
    → (e : ℕ) × (walk m' address ≡ some e)
      × (e % 4 ≡ 3)
      × ((k : ℕ)
          → k < 1024
          → m'.word (frame e + 4 * k) ≡ m.word (frame (m.word (entry_of m address)) + 4 * k))
unfolding do_wp_page walk
do_wp_page-walk error_code address m m' here out is run =
    elim (un_wp_page-Writable (entry_of m address) m is) [
      | inr (fail, all) ↦ ground (arith, fail)
      | inl (n, e, w, how) ↦
          let same : n ≡ m' = ground (arith, e) in
          let w' : Writable m (entry_of m address) m' =
            subst (λ x. Writable m (entry_of m address) x) same w in
          let dir : m'.word (dir_entry address) ≡ m.word (dir_entry address) =
            w'.same_words (dir_entry address) (omega arith) (inl (omega (arith, w'.in_memory))) in
          (
            m'.word (entry_of m address),
            ground (arith, dir, w'.may_write),
            w'.may_write,
            w'.same_contents,
          )
    ]
