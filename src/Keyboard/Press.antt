-- ===== src/Keyboard/Press.antt =====
-- What a key press of kernel/chr_drv/do_keyboard.c types.
use hios.Base.{
  ℕ, suc, ◌<◌, ◌≡◌, ◌≢◌, refl, sym, ap, ◌∙◌, arith, leb, ◌==◌, false, some, [], ◌∷◌, ◌++◌,
}
use mathlib.Core.Path.{subst}
use hios.Tty.{chars, putch}
use hios.Tty.Ring.{IsRing, contents, chars-putch, contents-putch, putch-IsRing}
use hios.Console.{backspace}
use hios.Line.{Terminal}
use hios.Line.Copy.{NoBackspace, copy_to_buffer-contents}
use hios.Keyboard.{
  Keys, caps_code, lctrl_code, lalt_code, lshift_code, key_char, type_char, do_keyboard_interrupt,
}

-- A key that is none of the four that change the handler's state.
abbrev pub TextKey : ℕ → Type 0
TextKey scancode =
    (scancode < 128)
    × (scancode ≢ lctrl_code)
    × (scancode ≢ lalt_code)
    × (scancode ≢ lshift_code)
    × (scancode ≢ caps_code)

-- A key with a character other than backspace adds it to the line, when all that was typed before has
-- been read from the read queue and the line has room; the shift state stays.
pub do_keyboard_interrupt-contents :
    (scancode ch : ℕ) (k : Keys) (t : Terminal)
    → TextKey scancode
    → key_char scancode k ≡ some ch
    → ch ≢ backspace
    → IsRing t.read_q
    → IsRing t.buffer
    → chars t.read_q ≡ 0
    → chars t.buffer < 1023
    → (t' : Terminal) × (do_keyboard_interrupt scancode (k, t) ≡ some (k, t'))
      × (contents t'.buffer ≡ contents t.buffer ++ (ch ∷ []))
      × (contents t'.read_q ≡ [])
unfolding do_keyboard_interrupt type_char
do_keyboard_interrupt-contents scancode ch k t (lt, c, a, s, p) e ne read ring none_left room =
    let t1 : Terminal = record t { read_q = putch ch t.read_q } in
    let one_char : contents (putch ch t.read_q) ≡ ch ∷ [] =
      contents-putch t.read_q ch read (omega (arith, none_left)) ∙ rw none_left refl in
    let plain : NoBackspace (contents (putch ch t.read_q)) =
      subst NoBackspace (sym one_char) (ne, tt) in
    let one : chars (putch ch t.read_q) ≡ 1 =
      chars-putch t.read_q ch read (omega (arith, none_left)) ∙ ap suc none_left in
    let (line, done) =
      copy_to_buffer-contents t1 (putch-IsRing t.read_q ch read) ring plain
        (omega (arith, one, room)) in
    let down : leb 128 scancode ≡ false = ground arith in
    let no_ctrl : (scancode == lctrl_code) ≡ false = ground arith in
    let no_alt : (scancode == lalt_code) ≡ false = ground arith in
    let no_shift : (scancode == lshift_code) ≡ false = ground arith in
    let no_caps : (scancode == caps_code) ≡ false = ground arith in
    (
      type_char ch t,
      rw (down, no_ctrl, no_alt, no_shift, no_caps, e, do_keyboard_interrupt) refl,
      line ∙ ap (◌++◌ (contents t.buffer)) one_char,
      done,
    )
