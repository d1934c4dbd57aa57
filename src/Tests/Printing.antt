-- ===== src/Tests/Printing.antt =====
-- Tests of kernel/vsprintf.c.
use hios.Base.{
  ℕ, ◌+◌, ◌^◌, ◌≡◌, refl, inl, ◌==◌, if◌then◌else◌, true, none, some, List, [], ◌∷◌, pos, negsuc,
}
use hios.Print.{sprintnum, print_positive, digit_loop, vsprintf, convert, print_int, before, int}
use hios.Print.Number.{Prints, sprintnum-Prints}

-- "-255" in hexadecimal
minus_ff : sprintnum (negsuc 254) 16 true ≡ some (45 ∷ 70 ∷ 70 ∷ [])
unfolding sprintnum print_positive digit_loop
minus_ff = refl

-- "%d%" with 7: a '%' at the end is dropped.
ends_early : vsprintf (37 ∷ 100 ∷ 37 ∷ []) (int (pos 7) ∷ []) ≡ some (55 ∷ [])
unfolding vsprintf convert print_int before sprintnum print_positive digit_loop
ends_early = refl

sprintnum-Prints_example :
    (ds : List ℕ) × (es : List ℕ) × (sprintnum (pos 1234) 10 true ≡ some ds)
    × Prints 10 1234 ds
    × (sprintnum (negsuc 1234) 10 true
        ≡ (if true then (if 1234 + 1 == 2 ^ 31 then none else some (45 ∷ es)) else none))
    × Prints 10 (1234 + 1) es
sprintnum-Prints_example = sprintnum-Prints 1234 10 true (inl refl)
