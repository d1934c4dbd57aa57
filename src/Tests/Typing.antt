-- ===== src/Tests/Typing.antt =====
-- Tests of the line discipline of kernel/chr_drv/tty_io.c and of kernel/chr_drv/do_keyboard.c.
use hios.Base.{ℕ, ◌<◌, ◌≡◌, refl, arith, none, some, true, false, [], ◌∷◌, ◌++◌, pos}
use hios.Tty.{Queue, chars}
use hios.Tty.Ring.{IsRing, contents}
use hios.Console.{backspace}
use hios.Line.{Terminal, edit, copy_to_buffer, tty_read}
use hios.Line.Read.{line_of, after_line, has_line, Left, tty_read-line_of}
use hios.Line.Edit.{edit_line, edit-edit_line}
use hios.Keyboard.{Keys, key_char, capital, cap_out, toupper, do_keyboard_interrupt}
use hios.Keyboard.Press.{do_keyboard_interrupt-contents}
use hios.Line.Copy.{NoBackspace, copy_to_buffer-contents}

-- The characters from `tail` on are 65, 65 and so on.
abbrev ring : ℕ → ℕ → Queue
ring head tail = record { buf = λ i. 65; wait_proc = none; head = head; tail = tail }

abbrev terminal : Queue → Terminal
terminal buffer = record {
  flags = 1;
  read_q = ring 1 1023;
  write_q = ring 0 0;
  buffer = buffer;
  console = record { video_x = 0; video_y = 0; video = λ a. 0; register = λ r. 0 };
  task = λ i. none;
}

abbrev one_char : Terminal
one_char = terminal (ring 5 4)

abbrev full_line : Terminal
full_line = terminal (ring 4 5)

ring-IsRing : (head tail : ℕ) → head < 1024 → tail < 1024 → IsRing (ring head tail)
ring-IsRing head tail h t = record { head = h; tail = t }

one_char-IsRing : IsRing one_char.buffer
one_char-IsRing = ring-IsRing 5 4 (omega arith) (omega arith)

edit-edit_line_example :
    contents (edit backspace one_char).1.buffer ≡ edit_line backspace (contents one_char.buffer)
edit-edit_line_example =
    edit-edit_line backspace one_char one_char-IsRing (λ e. omega arith)
      (λ e. unfold chars in omega arith)

typed : NoBackspace (contents one_char.read_q)
unfolding chars
typed = (omega arith, (omega arith, tt))

copy_to_buffer-contents_example :
    (contents (copy_to_buffer one_char).buffer
      ≡ contents one_char.buffer ++ contents one_char.read_q)
    × (contents (copy_to_buffer one_char).read_q ≡ [])
copy_to_buffer-contents_example =
    copy_to_buffer-contents one_char (ring-IsRing 1 1023 (omega arith) (omega arith))
      one_char-IsRing typed (unfold chars in omega arith)

-- The shift key is down, and nothing waits in the read queue.
abbrev shifted : Keys
shifted = record { caps = false; lshift = true; lctrl = false; lalt = false }

abbrev idle : Terminal
idle = record one_char { read_q = ring 0 0 }

types_a : key_char 0x1e shifted ≡ some 65
unfolding key_char capital cap_out toupper
types_a = refl

do_keyboard_interrupt-contents_example :
    (t' : Terminal) × (do_keyboard_interrupt 0x1e (shifted, idle) ≡ some (shifted, t'))
    × (contents t'.buffer ≡ contents idle.buffer ++ (65 ∷ []))
    × (contents t'.read_q ≡ [])
do_keyboard_interrupt-contents_example =
    do_keyboard_interrupt-contents 0x1e 65 shifted idle
      (omega arith, omega arith, omega arith, omega arith, omega arith) types_a (omega arith)
      (ring-IsRing 0 0 (omega arith) (omega arith)) one_char-IsRing (unfold chars in refl)
      (unfold chars in omega arith)

one_char_has : has_line 1 (contents one_char.buffer) ≡ true
unfolding chars
one_char_has = refl

tty_read-line_of_example :
    (t' : Terminal) × (tty_read (λ t. t) (pos 1) one_char
      ≡ (some (line_of 1 (contents one_char.buffer)), t'))
    × Left one_char t' (after_line 1 (contents one_char.buffer))
tty_read-line_of_example = tty_read-line_of (λ t. t) 1 one_char one_char-IsRing one_char_has
