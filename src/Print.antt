-- ===== src/Print.antt =====
-- kernel/vsprintf.c: `vsprintf` and `_sprintnum`. A string is the list of its characters. `none` stands
-- for an access outside an array, or an argument that is not what the format says.
pub mod Number
use hios.Base.{
  ℕ, zero, suc, ◌+◌, ◌-◌, ◌*◌, ◌/◌, ◌%◌, ◌^◌, leb, ◌==◌, Bool, true, false, if◌then◌else◌, Option,
  none, some, List, [], ◌∷◌, ◌++◌, get_or, ℤ, pos, negsuc,
}

-- `digits`: "0123456789ABCDEF"
abbrev pub digits : List ℕ
digits = 48 ∷ 49 ∷ 50 ∷ 51 ∷ 52 ∷ 53 ∷ 54 ∷ 55 ∷ 56 ∷ 57 ∷ 65 ∷ 66 ∷ 67 ∷ 68 ∷ 69 ∷ 70 ∷ []

-- `while (num) …`: `buf` from its last character down, which is the order in which it is copied out. The
-- number itself is enough fuel.
unfoldable pub digit_loop : ℕ → ℕ → ℕ → List ℕ → List ℕ
digit_loop zero num base buf = buf
digit_loop (suc fuel) num base buf =
    let rest = digit_loop fuel (num / base) base (get_or digits (num % base) 0 ∷ buf) in
    if num == 0 then buf else rest

-- The part of `_sprintnum` behind the sign.
unfoldable pub print_positive : ℕ → ℕ → List ℕ
print_positive num base = if num == 0 then 48 ∷ [] else digit_loop num num base []

-- `num` is an `int`. The remainder of a negative number is negative, and no index of `digits`; negating
-- -2^31 gives -2^31 again.
unfoldable pub sprintnum : ℤ → ℕ → Bool → Option (List ℕ)
sprintnum (pos num) base sign = some (print_positive num base)
sprintnum (negsuc n) base sign =
    if sign
    then (if n + 1 == 2 ^ 31 then none else some (45 ∷ print_positive (n + 1) base))
    else none

-- What `va_arg` may take.
pub data Arg : Type 0 where
  int : ℤ → Arg
  str : List ℕ → Arg
  char : ℕ → Arg

abbrev pub Printed : Type 0
Printed = Option (List ℕ × List Arg)

unfoldable pub print_int : ℕ → Bool → List Arg → Printed
print_int base sign (int num ∷ args) = elim (sprintnum num base sign) [
  | none ↦ none
  | some s ↦ some (s, args)
]
print_int base sign args = none

unfoldable pub print_str : List Arg → Printed
print_str (str s ∷ args) = some (s, args)
print_str args = none

unfoldable pub print_char : List Arg → Printed
print_char (char c ∷ args) = some (c ∷ [], args)
print_char args = none

-- The switch on the character behind '%'. An unknown one prints nothing.
unfoldable pub convert : ℕ → List Arg → Printed
convert c args =
    if c == 100
    then print_int 10 true args
    else if c == 117
    then print_int 10 false args
    else if c == 120
    then print_int 16 true args
    else if c == 115
    then print_str args
    else if c == 99
    then print_char args
    else if c == 37
    then some (37 ∷ [], args)
    else some ([], args)

-- `s` in front of what the rest of the format gives.
unfoldable pub before : List ℕ → Option (List ℕ) → Option (List ℕ)
before s none = none
before s (some rest) = some (s ++ rest)

-- The characters that are written to `dest`: there is no terminating NUL.
unfoldable pub vsprintf : List ℕ → List Arg → Option (List ℕ)
vsprintf [] args = some []
vsprintf (c ∷ []) args = if c == 37 then some [] else some (c ∷ [])
vsprintf (c ∷ d ∷ fmt) args =
    let plain = vsprintf (d ∷ fmt) args in
    elim (c == 37) [
      | false ↦ before (c ∷ []) plain
      | true ↦ elim (convert d args) [ none ↦ none | some (s, rest) ↦ before s (vsprintf fmt rest) ]
    ]
