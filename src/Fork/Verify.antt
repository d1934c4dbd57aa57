-- ===== src/Fork/Verify.antt =====
-- `verify_area` of kernel/fork.c: its loop over the pages of a user buffer ends.
use hios.Base.{
  ℕ, zero, suc, ◌+◌, ◌-◌, ◌*◌, ◌/◌, ◌%◌, ◌^◌, ◌≤◌, ◌<◌, ◌≡◌, refl, ◌⊎◌, inl, inr, ap, fun_ext,
  arith, ltb, ◌&&◌, true, false, Option, some,
}
use hios.Run.{Run, ok, panic, Run-cases}
use hios.Mm.{Mm}
use hios.Mm.Tables.{write_verify}
use hios.Proc.{Proc, field, in_mm}
use hios.Fork.{verify_pages, verify_area, write_pages}

-- The pages that `n` bytes from the start of a page touch.
abbrev pub page_count : ℕ → ℕ
page_count n = (n + 4095) / 4096

-- The loop's result, when it does not run out of fuel.
abbrev pub finished : Run Mm (Unit {0}) → Run Mm (Option (Unit {0}))
finished (ok a m) = ok (some tt) m
finished (panic e) = panic e

last_round :
    (fuel size start : ℕ) (m : Mm)
    → (ltb 0 size && ltb size (2 ^ 31)) ≡ false
    → verify_pages (suc fuel) size start m ≡ ok (some tt) m
unfolding verify_pages
last_round fuel size start m h = rw (h, verify_pages) refl

-- `n` pages are left where `size` counts their bytes, and none where it is negative.
abbrev Remaining : ℕ → ℕ → Type 0
Remaining n size = (size < 2 ^ 31) × (page_count size ≡ n) ⊎ (n ≡ 0) × (2 ^ 31 ≤ size)

pages_lem :
    (n fuel size start : ℕ) (m : Mm)
    → size < 2 ^ 32
    → Remaining n size
    → n < fuel
    → verify_pages fuel size start m ≡ finished (write_pages n start m)
unfolding verify_pages write_pages
pages_lem n zero size start m small left enough = absurd (omega arith)
pages_lem zero (suc fuel) size start m small left enough =
    last_round fuel size start m (ground arith)
pages_lem (suc n) (suc fuel) size start m small left enough =
    let test : (ltb 0 size && ltb size (2 ^ 31)) ≡ true = ground arith in
    let next = (size + 2 ^ 32 - 4096) % 2 ^ 32 in
    let fewer : Remaining n next = elim left [
      | inr (e, big) ↦ absurd (omega arith)
      | inl (lo, count) ↦ remaining n size lo count
    ] in
    elim (Run-cases (write_verify start m)) [
      | inr (e, run) ↦ rw (test, run, verify_pages) refl
      | inl (a, m1, run) ↦
          rw (test, run, verify_pages)
            (pages_lem n fuel next ((start + 4096) % 2 ^ 32) m1 (omega arith) fewer (omega arith))
    ]
  where
    remaining :
        (n size : ℕ)
        → size < 2 ^ 31
        → page_count size ≡ suc n
        → Remaining n ((size + 2 ^ 32 - 4096) % 2 ^ 32)
    remaining zero size lo count = ground arith
    remaining (suc n) size lo count = inl (omega arith, omega arith)

-- For a size below 2^31 from the start of the first page, the loop of `verify_area` ends, and does what
-- it means to do: each page that the buffer touches is checked in turn.
pub verify_area-write_pages :
    (fuel addr size : ℕ) (k : Proc)
    → addr % 4096 + size < 2 ^ 31
    → page_count (addr % 4096 + size) < fuel
    → verify_area fuel addr size k
      ≡ in_mm
          (λ m. finished (
            write_pages
              (page_count (addr % 4096 + size))
              ((addr / 4096 * 4096 + field (λ u. u.data_base) k.current k) % 2 ^ 32)
              m))
          k
unfolding verify_area in_mm
verify_area-write_pages fuel addr size k small enough =
    let total : (size + addr % 4096) % 2 ^ 32 ≡ addr % 4096 + size = omega arith in
    let all = fun_ext (λ m.
      pages_lem (page_count (addr % 4096 + size)) fuel (addr % 4096 + size)
        ((addr / 4096 * 4096 + field (λ u. u.data_base) k.current k) % 2 ^ 32) m (omega arith)
        (inl (small, refl)) enough) in
    rw total (ap (λ f. in_mm f k) all)
