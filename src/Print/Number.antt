-- ===== src/Print/Number.antt =====
-- `_sprintnum` of kernel/vsprintf.c: what it prints is the number.
use hios.Base.{
  ℕ, zero, suc, ◌+◌, ◌-◌, ◌*◌, ◌/◌, ◌%◌, ◌^◌, ◌≤◌, ◌<◌, ◌≡◌, ◌≢◌, refl, sym, ap, ◌⊎◌, inl, inr, ◌∙◌,
  arith, leb, ◌==◌, Bool, Bool-cases, if◌then◌else◌, none, some, List, [], ◌∷◌, get_or, pos, negsuc,
}
use hios.Print.{digits, digit_loop, print_positive, sprintnum}

-- The value of a digit, and of a string of digits behind the number `acc`.
abbrev pub digit_value : ℕ → ℕ
digit_value c = if leb c 57 then c - 48 else c - 55

unfoldable pub read_number : ℕ → ℕ → List ℕ → ℕ
read_number base acc [] = acc
read_number base acc (c ∷ cs) = read_number base (acc * base + digit_value c) cs

abbrev pub IsBase : ℕ → Type 0
IsBase base = (base ≡ 10) ⊎ (base ≡ 16)

digit_lem : (d : ℕ) → d < 16 → digit_value (get_or digits d 0) ≡ d
digit_lem zero lt = refl
digit_lem (suc zero) lt = refl
digit_lem (suc (suc zero)) lt = refl
digit_lem (suc (suc (suc zero))) lt = refl
digit_lem (suc (suc (suc (suc zero)))) lt = refl
digit_lem (suc (suc (suc (suc (suc zero))))) lt = refl
digit_lem (suc (suc (suc (suc (suc (suc zero)))))) lt = refl
digit_lem (suc (suc (suc (suc (suc (suc (suc zero))))))) lt = refl
digit_lem (suc (suc (suc (suc (suc (suc (suc (suc zero)))))))) lt = refl
digit_lem (suc (suc (suc (suc (suc (suc (suc (suc (suc zero))))))))) lt = refl
digit_lem (suc (suc (suc (suc (suc (suc (suc (suc (suc (suc zero)))))))))) lt = refl
digit_lem (suc (suc (suc (suc (suc (suc (suc (suc (suc (suc (suc zero))))))))))) lt = refl
digit_lem (suc (suc (suc (suc (suc (suc (suc (suc (suc (suc (suc (suc zero)))))))))))) lt = refl
digit_lem (suc (suc (suc (suc (suc (suc (suc (suc (suc (suc (suc (suc (suc zero))))))))))))) lt =
    refl
digit_lem (suc (suc (suc (suc (suc (suc (suc (suc (suc (suc (suc (suc (suc (suc zero))))))))))))))
      lt =
    refl
digit_lem
      (suc (suc (suc (suc (suc (suc (suc (suc (suc (suc (suc (suc (suc (suc (suc zero)))))))))))))))
      lt =
    refl
digit_lem
      (suc
        (suc (suc (suc (suc (suc (suc (suc (suc (suc (suc (suc (suc (suc (suc (suc d))))))))))))))))
      lt =
    absurd (omega arith)

read_number-digit_loop :
    (fuel num base : ℕ) (buf : List ℕ)
    → IsBase base
    → num ≤ fuel
    → read_number base 0 (digit_loop fuel num base buf) ≡ read_number base num buf
unfolding digit_loop read_number
read_number-digit_loop zero num base buf is le = let empty : num ≡ 0 = omega arith in rw empty refl
read_number-digit_loop (suc fuel) num base buf is le = elim (Bool-cases (num == 0)) [
  | inl done ↦ let empty : num ≡ 0 = ground arith in rw empty refl
  | inr more ↦
      let d = num % base in
      let rest =
        read_number-digit_loop fuel (num / base) base (get_or digits d 0 ∷ buf) is (less is) in
      let value : (num / base) * base + digit_value (get_or digits d 0) ≡ num = same is in
      rw (more, digit_loop) (rest ∙ rw value refl)
]
  where
    less : IsBase base → num / base ≤ fuel
    less (inl e) = rw e (omega arith)
    less (inr e) = rw e (omega arith)

    same : IsBase base → (num / base) * base + digit_value (get_or digits (num % base) 0) ≡ num
    same (inl e) = rw e (omega (arith, digit_lem (num % 10) (omega arith)))
    same (inr e) = rw e (omega (arith, digit_lem (num % 16) (omega arith)))

-- The first character is no 0, and every character is a digit, so that the string is the number's only
-- one in this base.
abbrev pub IsNumeral : ℕ → ℕ → Type 0
IsNumeral base c = (digit_value c < base) × ((48 ≤ c) × (c ≤ 57) ⊎ (65 ≤ c) × (c ≤ 70))

abbrev pub AllDigits : ℕ → List ℕ → Type 0
AllDigits base [] = Unit {0}
AllDigits base (c ∷ cs) = IsNumeral base c × AllDigits base cs

abbrev pub Leads : List ℕ → Type 0
Leads [] = Unit {0}
Leads (c ∷ cs) = c ≢ 48

digit_char :
    (d : ℕ)
    → d < 16
    → (48 ≤ get_or digits d 0) × (get_or digits d 0 ≤ 57)
      ⊎ (65 ≤ get_or digits d 0) × (get_or digits d 0 ≤ 70)
digit_char zero lt = inl (omega arith, omega arith)
digit_char (suc zero) lt = inl (omega arith, omega arith)
digit_char (suc (suc zero)) lt = inl (omega arith, omega arith)
digit_char (suc (suc (suc zero))) lt = inl (omega arith, omega arith)
digit_char (suc (suc (suc (suc zero)))) lt = inl (omega arith, omega arith)
digit_char (suc (suc (suc (suc (suc zero))))) lt = inl (omega arith, omega arith)
digit_char (suc (suc (suc (suc (suc (suc zero)))))) lt = inl (omega arith, omega arith)
digit_char (suc (suc (suc (suc (suc (suc (suc zero))))))) lt = inl (omega arith, omega arith)
digit_char (suc (suc (suc (suc (suc (suc (suc (suc zero)))))))) lt = inl (omega arith, omega arith)
digit_char (suc (suc (suc (suc (suc (suc (suc (suc (suc zero))))))))) lt =
    inl (omega arith, omega arith)
digit_char (suc (suc (suc (suc (suc (suc (suc (suc (suc (suc zero)))))))))) lt =
    inr (omega arith, omega arith)
digit_char (suc (suc (suc (suc (suc (suc (suc (suc (suc (suc (suc zero))))))))))) lt =
    inr (omega arith, omega arith)
digit_char (suc (suc (suc (suc (suc (suc (suc (suc (suc (suc (suc (suc zero)))))))))))) lt =
    inr (omega arith, omega arith)
digit_char (suc (suc (suc (suc (suc (suc (suc (suc (suc (suc (suc (suc (suc zero))))))))))))) lt =
    inr (omega arith, omega arith)
digit_char (suc (suc (suc (suc (suc (suc (suc (suc (suc (suc (suc (suc (suc (suc zero))))))))))))))
      lt =
    inr (omega arith, omega arith)
digit_char
      (suc (suc (suc (suc (suc (suc (suc (suc (suc (suc (suc (suc (suc (suc (suc zero)))))))))))))))
      lt =
    inr (omega arith, omega arith)
digit_char
      (suc
        (suc (suc (suc (suc (suc (suc (suc (suc (suc (suc (suc (suc (suc (suc (suc d))))))))))))))))
      lt =
    absurd (omega arith)

get_or-IsNumeral : (num base : ℕ) → IsBase base → IsNumeral base (get_or digits (num % base) 0)
get_or-IsNumeral num base (inl e) =
    rw e (omega (arith, digit_lem (num % 10) (omega arith)), digit_char (num % 10) (omega arith))
get_or-IsNumeral num base (inr e) =
    rw e (omega (arith, digit_lem (num % 16) (omega arith)), digit_char (num % 16) (omega arith))

digit_loop-AllDigits :
    (fuel num base : ℕ) (buf : List ℕ)
    → IsBase base
    → AllDigits base buf
    → AllDigits base (digit_loop fuel num base buf)
unfolding digit_loop
digit_loop-AllDigits zero num base buf is all = all
digit_loop-AllDigits (suc fuel) num base buf is all = elim (Bool-cases (num == 0)) [
  | inl done ↦ rw (done, digit_loop) all
  | inr more ↦
      rw (more, digit_loop)
        (digit_loop-AllDigits fuel (num / base) base (get_or digits (num % base) 0 ∷ buf) is
          (get_or-IsNumeral num base is, all))
]

char_ne : (d : ℕ) → d < 16 → d ≢ 0 → get_or digits d 0 ≢ 48
char_ne d lt ne e = ne (sym (digit_lem d lt) ∙ ap digit_value e)

leading_10 : (num : ℕ) → num ≢ 0 → (num / 10 ≢ 0) ⊎ (get_or digits (num % 10) 0 ≢ 48)
leading_10 num ne = elim (Bool-cases (num / 10 == 0)) [
  | inl low ↦
      let small : num < 10 = ground arith in inr (char_ne (num % 10) (omega arith) (omega arith))
  | inr high ↦ inl (λ e. ground arith)
]

leading_16 : (num : ℕ) → num ≢ 0 → (num / 16 ≢ 0) ⊎ (get_or digits (num % 16) 0 ≢ 48)
leading_16 num ne = elim (Bool-cases (num / 16 == 0)) [
  | inl low ↦
      let small : num < 16 = ground arith in inr (char_ne (num % 16) (omega arith) (omega arith))
  | inr high ↦ inl (λ e. ground arith)
]

digit_loop-Leads :
    (fuel num base : ℕ) (buf : List ℕ)
    → IsBase base
    → num ≤ fuel
    → (num ≢ 0) ⊎ Leads buf
    → Leads (digit_loop fuel num base buf)
unfolding digit_loop
digit_loop-Leads zero num base buf is le (inl ne) = absurd (omega arith)
digit_loop-Leads zero num base buf is le (inr leads) = leads
digit_loop-Leads (suc fuel) num base buf is le h = elim (Bool-cases (num == 0)) [
  | inl done ↦ rw (done, digit_loop) (elim h [ inl ne ↦ absurd (ground arith) | inr leads ↦ leads ])
  | inr more ↦
      rw (more, digit_loop)
        (digit_loop-Leads fuel (num / base) base (get_or digits (num % base) 0 ∷ buf) is (less is)
          (first (λ z. ground arith) is))
]
  where
    less : IsBase base → num / base ≤ fuel
    less (inl e) = rw e (omega arith)
    less (inr e) = rw e (omega arith)

    first : num ≢ 0 → IsBase base → (num / base ≢ 0) ⊎ (get_or digits (num % base) 0 ≢ 48)
    first ne (inl e) = rw e (leading_10 num ne)
    first ne (inr e) = rw e (leading_16 num ne)

-- What is printed for `n`: digits that read as `n`; a lone '0' for 0, and no '0' in front of any other
-- number.
pub record Prints (base n : ℕ) (ds : List ℕ) : Type 0 where
  pub reads : read_number base 0 ds ≡ n
  pub all_digits : AllDigits base ds
  pub leads : (n ≡ 0) × (ds ≡ 48 ∷ []) ⊎ (n ≢ 0) × Leads ds

print_positive-Prints : (n base : ℕ) → IsBase base → Prints base n (print_positive n base)
unfolding print_positive read_number
print_positive-Prints n base is = elim (Bool-cases (n == 0)) [
  | inl nothing ↦
      let empty : n ≡ 0 = ground arith in
      rw (nothing, print_positive)
        (record {
          reads = rw empty (omega arith);
          all_digits = ((zero_digit is, inl (omega arith, omega arith)), tt);
          leads = inl (empty, refl);
        })
  | inr more ↦
      let some_digit : n ≢ 0 = λ e. ground arith in
      rw (more, print_positive)
        (record {
          reads = read_number-digit_loop n n base [] is (omega arith);
          all_digits = digit_loop-AllDigits n n base [] is tt;
          leads = inr (some_digit, digit_loop-Leads n n base [] is (omega arith) (inl some_digit));
        })
]
  where
    zero_digit : IsBase base → 0 < base
    zero_digit (inl e) = rw e (omega arith)
    zero_digit (inr e) = rw e (omega arith)

-- Printing an `int` in base 10 or 16. A number that is not negative is printed by the digits of its
-- magnitude, with no 0 in front, and 0 by the one digit '0'; a negative one with a sign is printed so
-- behind a '-'. Only the number -2^31, and a negative
-- one without a sign, read outside the table of digits.
pub sprintnum-Prints :
    (n base : ℕ) (sign : Bool)
    → IsBase base
    → (ds : List ℕ) × (es : List ℕ) × (sprintnum (pos n) base sign ≡ some ds)
      × Prints base n ds
      × (sprintnum (negsuc n) base sign
          ≡ (if sign then (if n + 1 == 2 ^ 31 then none else some (45 ∷ es)) else none))
      × Prints base (n + 1) es
unfolding sprintnum
sprintnum-Prints n base sign is = (
  print_positive n base,
  print_positive (n + 1) base,
  refl,
  print_positive-Prints n base is,
  refl,
  print_positive-Prints (n + 1) base is,
)
