-- ===== src/Keyboard.antt =====
-- kernel/chr_drv/do_keyboard.c: from scan codes to characters. The right shift, control and alt keys
-- have no code in the source, so their flags stay 0 and are left out. A scan code behind the end of
-- the tables reads what lies there, which is no part of the model: the result is `none`.
pub mod Press
use hios.Base.{
  ℕ, ◌+◌, ◌-◌, ◌*◌, ◌≤◌, leb, ◌==◌, ◌&&◌, ◌||◌, not, Bool, true, false, if◌then◌else◌, Option, none,
  some, List, [], ◌∷◌, get_elem?,
}
use hios.Tty.{putch}
use hios.Line.{Terminal, copy_to_buffer}

-- The characters by scan code, with the zero at the end of a C string.
abbrev pub scancode_table : List ℕ
scancode_table =
    46 ∷ 46 ∷ 49 ∷ 50 ∷ 51 ∷ 52 ∷ 53 ∷ 54 ∷ 55 ∷ 56 ∷ 57 ∷ 48 ∷ 45 ∷ 61 ∷ 8 ∷ 46 ∷ 113 ∷ 119 ∷ 101
    ∷ 114 ∷ 116 ∷ 121 ∷ 117 ∷ 105 ∷ 111 ∷ 112 ∷ 91 ∷ 93 ∷ 10 ∷ 46 ∷ 97 ∷ 115 ∷ 100 ∷ 102 ∷ 103 ∷ 104
    ∷ 106 ∷ 107 ∷ 108 ∷ 59 ∷ 39 ∷ 96 ∷ 46 ∷ 92 ∷ 122 ∷ 120 ∷ 99 ∷ 118 ∷ 98 ∷ 110 ∷ 109 ∷ 44 ∷ 46
    ∷ 47 ∷ 46 ∷ 42 ∷ 46 ∷ 32 ∷ 46 ∷ 46 ∷ 46 ∷ 46 ∷ 46 ∷ 46 ∷ 46 ∷ 46 ∷ 46 ∷ 46 ∷ 46 ∷ 46 ∷ 46 ∷ 55
    ∷ 56 ∷ 57 ∷ 52 ∷ 53 ∷ 54 ∷ 49 ∷ 50 ∷ 51 ∷ 48 ∷ 46 ∷ 46 ∷ 46 ∷ 46 ∷ 46 ∷ 46 ∷ 0 ∷ []

abbrev pub shift_scancode_table : List ℕ
shift_scancode_table =
    46 ∷ 46 ∷ 33 ∷ 64 ∷ 35 ∷ 36 ∷ 37 ∷ 94 ∷ 38 ∷ 42 ∷ 40 ∷ 41 ∷ 95 ∷ 43 ∷ 8 ∷ 46 ∷ 81 ∷ 87 ∷ 69 ∷ 82
    ∷ 84 ∷ 89 ∷ 85 ∷ 73 ∷ 79 ∷ 80 ∷ 123 ∷ 125 ∷ 10 ∷ 46 ∷ 65 ∷ 83 ∷ 68 ∷ 70 ∷ 71 ∷ 72 ∷ 74 ∷ 75 ∷ 76
    ∷ 58 ∷ 34 ∷ 126 ∷ 46 ∷ 124 ∷ 90 ∷ 88 ∷ 67 ∷ 86 ∷ 66 ∷ 78 ∷ 77 ∷ 60 ∷ 62 ∷ 63 ∷ 46 ∷ 42 ∷ 46 ∷ 32
    ∷ 46 ∷ 46 ∷ 46 ∷ 46 ∷ 46 ∷ 46 ∷ 46 ∷ 46 ∷ 46 ∷ 46 ∷ 46 ∷ 46 ∷ 46 ∷ 55 ∷ 56 ∷ 57 ∷ 52 ∷ 53 ∷ 54
    ∷ 49 ∷ 50 ∷ 51 ∷ 48 ∷ 46 ∷ 46 ∷ 46 ∷ 46 ∷ 46 ∷ 46 ∷ 0 ∷ []

unfoldable pub toupper : ℕ → ℕ
toupper ch = if leb 97 ch && leb ch 122 then ch - 97 + 65 else ch

-- The static variables of the handler.
pub record Keys : Type 0 where
  pub caps : Bool
  pub lshift : Bool
  pub lctrl : Bool
  pub lalt : Bool

-- CAPS, LCTRL, LALT and LSHIFT
abbrev pub caps_code : ℕ
caps_code = 0x3a

abbrev pub lctrl_code : ℕ
lctrl_code = 0x1d

abbrev pub lalt_code : ℕ
lalt_code = 0x38

abbrev pub lshift_code : ℕ
lshift_code = 0x2a

-- The branch for a released key; `scancode` is a byte, and 128 or more.
unfoldable pub release_key : ℕ → Keys → Keys
release_key scancode k =
    let k1 = if scancode == lctrl_code + 128 then record k { lctrl = false } else k in
    let k2 = if scancode == lalt_code + 128 then record k1 { lalt = false } else k1 in
    if scancode == lshift_code + 128 then record k2 { lshift = false } else k2

-- `if (cap_out) ch = toupper(ch);`
unfoldable pub capital : Bool → ℕ → ℕ
capital cap_out ch = if cap_out then toupper ch else ch

unfoldable pub cap_out : Keys → Bool
cap_out k = if k.caps then not k.lshift else k.lshift

-- The character of a key; with control or alt it is the space that `ch` starts with.
unfoldable pub key_char : ℕ → Keys → Option ℕ
key_char scancode k =
    if k.lshift
    then elim (get_elem? shift_scancode_table scancode) [
      | none ↦ none
      | some ch ↦ some (capital (cap_out k) ch)
    ]
    else if k.lctrl || k.lalt
    then some 32
    else elim (get_elem? scancode_table scancode) [
      | none ↦ none
      | some ch ↦ some (capital (cap_out k) ch)
    ]

-- `PUTCH(ch, tty_table[0].read_q); copy_to_buffer(&tty_table[0]);`
unfoldable pub type_char : ℕ → Terminal → Terminal
type_char ch t = copy_to_buffer (record t { read_q = putch ch t.read_q })

unfoldable pub do_keyboard_interrupt : ℕ → Keys × Terminal → Option (Keys × Terminal)
do_keyboard_interrupt scancode (k, t) =
    if leb 128 scancode
    then some (release_key scancode k, t)
    else if scancode == lctrl_code
    then some (record k { lctrl = true }, t)
    else if scancode == lalt_code
    then some (record k { lalt = true }, t)
    else if scancode == lshift_code
    then some (record k { lshift = true }, t)
    else if scancode == caps_code
    then some (record k { caps = not k.caps }, t)
    else elim (key_char scancode k) [ none ↦ none | some ch ↦ some (k, type_char ch t) ]
