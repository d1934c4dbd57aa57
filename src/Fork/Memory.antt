-- ===== src/Fork/Memory.antt =====
-- `copy_mem` of kernel/fork.c: the child's segments and its page tables.
use hios.Base.{ℕ, ◌*◌, ◌%◌, ◌^◌, ◌≤◌, ◌<◌, ◌≡◌, ◌≢◌, refl, arith, ltb, ◌==◌, not, true, false, some}
use hios.Run.{ok}
use hios.Mm.{Mm}
use hios.Mm.Pages.Alloc.{Taken}
use hios.Mm.Tables.{done, minus_one, copy_page_tables, free_page_tables, free_dirs}
use hios.Mm.Tables.Walk.{dir_index}
use hios.Mm.Tables.Fault.{same_dir, Taken-IsPaged}
use hios.Mm.Tables.Share.{CanFork}
use hios.Sched.{Task}
use hios.Proc.{field, on_slot}
use hios.Proc.Exit.{field_lem}
use hios.System.{System, with_mm, in_proc-in_mm}
use hios.Fork.{place_child, copy_mem}

-- A task whose memory `copy_mem` can copy: its two segments are one region.
pub record OneRegion (t : Task) : Type 0 where
  pub same_base : t.code_base ≡ t.data_base
  pub same_limit : t.code_limit ≤ t.data_limit

-- The start of the region of task `nr`
abbrev pub base_of : ℕ → ℕ
base_of nr = nr * 0x4000000

pub Taken-CanFork :
    {m m1 : Mm} {page from to size : ℕ}
    → Taken m page m1
    → CanFork from to size m
    → CanFork from to size m1
Taken-CanFork {from = from} {to = to} t can = record {
  aligned = can.aligned;
  one_table = can.one_table;
  source = rw (same_dir t can.paged (dir_index from) (omega arith)) can.source;
  target = rw (same_dir t can.paged (dir_index to) (omega arith)) can.target;
  paged = Taken-IsPaged t can.paged;
  words = λ a. ground (arith, t.either a, can.words a);
}

-- Where there is no page table, there is nothing to free.
pub free_page_tables-absent :
    (from to size : ℕ) (m : Mm)
    → CanFork from to size m
    → to ≢ 0
    → free_page_tables to size m ≡ ok tt m
unfolding free_page_tables free_dirs
free_page_tables-absent from to size m can ne =
    let a : (to % 2 ^ 22 == 0) ≡ true = ground (arith, can.aligned) in
    let b : (to == 0) ≡ false = ground arith in rw (a, b, can.one_table, can.target) refl

module _ (nr : ℕ) (s : System) (t : Task) (here : s.proc.task s.proc.current ≡ some t)
    (small : nr < 64) (one : OneRegion t) where
  abbrev placed : System
  placed = place_child nr (base_of nr) s

  tests :
      (not (
          field (λ u. u.code_base) s.proc.current s.proc
          == field (λ u. u.data_base) s.proc.current s.proc)
        ≡ false)
      × (ltb
            (field (λ u. u.data_limit) s.proc.current s.proc)
            (field (λ u. u.code_limit) s.proc.current s.proc)
          ≡ false)
  tests = ground (
    arith,
    field_lem (λ u. u.code_base) s.proc s.proc.current t here,
    field_lem (λ u. u.data_base) s.proc s.proc.current t here,
    field_lem (λ u. u.code_limit) s.proc s.proc.current t here,
    field_lem (λ u. u.data_limit) s.proc s.proc.current t here,
    one.same_base,
    one.same_limit,
  )

  pub copy_mem-done :
      (m2 : Mm)
      → copy_page_tables t.data_base (base_of nr) t.data_limit s.proc.mm ≡ ok done m2
      → copy_mem nr s ≡ ok done (with_mm m2 placed)
  unfolding copy_mem place_child on_slot
  copy_mem-done m2 run =
      let base = field_lem (λ u. u.data_base) s.proc s.proc.current t here in
      let limit = field_lem (λ u. u.data_limit) s.proc s.proc.current t here in
      let wraps : nr * 0x4000000 % 2 ^ 32 ≡ base_of nr = omega arith in
      let call =
        in_proc-in_mm (copy_page_tables t.data_base (base_of nr) t.data_limit) placed done m2 run in
      rw (tests.0, tests.1, base, limit, wraps, call) refl

  pub copy_mem-minus_one :
      (m2 m3 : Mm)
      → copy_page_tables t.data_base (base_of nr) t.data_limit s.proc.mm ≡ ok minus_one m2
      → free_page_tables (base_of nr) t.data_limit m2 ≡ ok tt m3
      → copy_mem nr s ≡ ok minus_one (with_mm m3 placed)
  unfolding copy_mem place_child on_slot
  copy_mem-minus_one m2 m3 run frees =
      let base = field_lem (λ u. u.data_base) s.proc s.proc.current t here in
      let limit = field_lem (λ u. u.data_limit) s.proc s.proc.current t here in
      let wraps : nr * 0x4000000 % 2 ^ 32 ≡ base_of nr = omega arith in
      let call =
        in_proc-in_mm (copy_page_tables t.data_base (base_of nr) t.data_limit) placed minus_one m2
          run in
      let call2 =
        in_proc-in_mm (free_page_tables (base_of nr) t.data_limit) (with_mm m2 placed) tt m3
          frees in
      rw (tests.0, tests.1, base, limit, wraps, call) (rw (limit, wraps, call2) refl)
