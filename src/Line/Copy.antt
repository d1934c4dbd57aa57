-- ===== src/Line/Copy.antt =====
-- The loop of `copy_to_buffer` of kernel/chr_drv/tty_io.c.
use hios.Base.{
  ℕ, zero, suc, ◌+◌, ◌-◌, ◌%◌, ◌≤◌, ◌<◌, ◌≡◌, ◌≢◌, refl, sym, ◌∙◌, inl, inr, arith, ◌==◌, ◌||◌, not,
  false, Bool-cases, List, [], ◌∷◌, ◌++◌,
}
use mathlib.Core.Path.{subst}
use mathlib.Core.List.{append_assoc, append-nil}
use hios.Tty.{Queue, empty, full, chars, getch, putch}
use hios.Tty.Ring.{
  IsRing, contents, chars-getch, contents-getch, chars-putch, contents-putch, putch-IsRing,
  getch-IsRing,
}
use hios.Console.{newline, backspace}
use hios.Line.{Terminal, eof, wake_readers, edit, echo, copy_char, copy_loop, copy_to_buffer}
use hios.Line.Edit.{full-chars, empty-chars}

-- The queues without the sleepers.
abbrev pub SameText : Queue → Queue → Type 0
SameText q q' = (q.head ≡ q'.head) × (q.tail ≡ q'.tail) × (q.buf ≡ q'.buf)

echo_keeps :
    (ch : ℕ) (t : Terminal) → ((echo ch t).read_q ≡ t.read_q) × ((echo ch t).buffer ≡ t.buffer)
unfolding echo
echo_keeps ch t = elim (Bool-cases (not (t.flags + 1 - t.flags % 2 == 0))) [
  | inl on ↦ (rw (on, echo) refl, rw (on, echo) refl)
  | inr off ↦ (rw (off, echo) refl, rw (off, echo) refl)
]

-- A character that is no backspace, where there is room for it.
edit_text :
    (ch : ℕ) (t : Terminal)
    → IsRing t.buffer
    → ch ≢ backspace
    → chars t.buffer < 1023
    → ((edit ch t).1.read_q ≡ t.read_q) × SameText (edit ch t).1.buffer (putch ch t.buffer)
unfolding edit
edit_text ch t ring ne room =
    let not_back : (ch == backspace) ≡ false = ground arith in
    let has_room : full t.buffer ≡ false = ground (arith, full-chars t.buffer ring) in
    elim (Bool-cases (ch == eof || ch == newline)) [
      | inl ends ↦ rw (not_back, ends, edit) (unfold wake_readers in (refl, (refl, refl, refl)))
      | inr inner ↦ rw (not_back, inner, has_room, edit) (refl, (refl, refl, refl))
    ]

copy_char_keeps :
    (t : Terminal)
    → ((copy_char t).read_q
        ≡ (edit (getch t.read_q).0 (record t { read_q = (getch t.read_q).1 })).1.read_q)
      × ((copy_char t).buffer
          ≡ (edit (getch t.read_q).0 (record t { read_q = (getch t.read_q).1 })).1.buffer)
unfolding copy_char
copy_char_keeps t =
    let t1 = edit (getch t.read_q).0 (record t { read_q = (getch t.read_q).1 }) in
    let keeps = echo_keeps (getch t.read_q).0 t1.1 in
    elim (Bool-cases t1.0) [
      | inl on ↦ rw (on, copy_char) keeps
      | inr off ↦ rw (off, copy_char) (refl, refl)
    ]

same_chars : (q q' : Queue) → SameText q q' → chars q ≡ chars q'
unfolding chars
same_chars q q' (h, t, b) = omega (arith, h, t)

same_contents : (q q' : Queue) → SameText q q' → contents q ≡ contents q'
same_contents q q' (h, t, b) = rw (same_chars q q' (h, t, b), t, b) refl

same-IsRing : (q q' : Queue) → SameText q q' → IsRing q' → IsRing q
same-IsRing q q' (h, t, b) ring = record {
  head = omega (arith, h, ring.head);
  tail = omega (arith, t, ring.tail);
}

-- None of the characters is a backspace.
abbrev pub NoBackspace : List ℕ → Type 0
NoBackspace [] = Unit
NoBackspace (c ∷ cs) = (c ≢ backspace) × NoBackspace cs

-- One character goes from the read queue to the end of the line.
record Moved (t t' : Terminal) : Type 0 where
  pub read_ring : IsRing t'.read_q
  pub ring : IsRing t'.buffer
  pub left : chars t.read_q ≡ suc (chars t'.read_q)
  pub size : chars t'.buffer ≡ suc (chars t.buffer)
  pub rest : contents t.read_q ≡ (getch t.read_q).0 ∷ contents t'.read_q
  pub line : contents t'.buffer ≡ contents t.buffer ++ ((getch t.read_q).0 ∷ [])

copy_char-Moved :
    (t : Terminal)
    → IsRing t.read_q
    → IsRing t.buffer
    → 0 < chars t.read_q
    → chars t.buffer < 1023
    → (getch t.read_q).0 ≢ backspace
    → Moved t (copy_char t)
copy_char-Moved t read ring some_left room ne =
    let c = (getch t.read_q).0 in
    let t1 : Terminal = record t { read_q = (getch t.read_q).1 } in
    let (kept, same) = edit_text c t1 ring ne room in
    let (to_read, to_buffer) = copy_char_keeps t in
    let read_is : (copy_char t).read_q ≡ (getch t.read_q).1 = to_read ∙ kept in
    let q = (edit c t1).1.buffer in
    let put = putch c t.buffer in
    record {
      read_ring = rw read_is (getch-IsRing t.read_q read);
      ring = rw to_buffer (same-IsRing q put same (putch-IsRing t.buffer c ring));
      left = rw read_is (chars-getch t.read_q read some_left);
      size = rw to_buffer (same_chars q put same ∙ chars-putch t.buffer c ring room);
      rest = rw read_is (contents-getch t.read_q read some_left);
      line = rw to_buffer (same_contents q put same ∙ contents-putch t.buffer c ring room);
    }

order :
    (t : Terminal) {t' : Terminal}
    → Moved t t'
    → contents t'.buffer ++ contents t'.read_q ≡ contents t.buffer ++ contents t.read_q
order t {t' = t'} moved =
    rw (moved.line, moved.rest)
      (append_assoc (contents t.buffer) ((getch t.read_q).0 ∷ []) (contents t'.read_q))

copy_loop_lem :
    (fuel : ℕ) (t : Terminal)
    → IsRing t.read_q
    → IsRing t.buffer
    → chars t.read_q < fuel
    → NoBackspace (contents t.read_q)
    → chars t.buffer + chars t.read_q ≤ 1023
    → (contents (copy_loop fuel t).buffer ≡ contents t.buffer ++ contents t.read_q)
      × (contents (copy_loop fuel t).read_q ≡ [])
unfolding copy_loop
copy_loop_lem zero t read ring more plain room = absurd (omega (arith, more))
copy_loop_lem (suc fuel) t read ring more plain room = elim (Bool-cases (empty t.read_q)) [
  | inl is_empty ↦
      let none_left : chars t.read_q ≡ 0 = ground (arith, empty-chars t.read_q read) in
      rw (is_empty, none_left, copy_loop) (sym (append-nil (contents t.buffer)), refl)
  | inr has_some ↦
      let some_left : 0 < chars t.read_q = ground (arith, empty-chars t.read_q read) in
      let (ne, plain1) = subst NoBackspace (contents-getch t.read_q read some_left) plain in
      let moved = copy_char-Moved t read ring some_left (omega (arith, some_left, room)) ne in
      let plain2 : NoBackspace (contents (copy_char t).read_q) =
        (subst NoBackspace moved.rest plain).1 in
      let (line, done) =
        copy_loop_lem fuel (copy_char t) moved.read_ring moved.ring
          (omega (arith, moved.left, more)) plain2 (omega (arith, moved.left, moved.size, room)) in
      rw (has_some, copy_loop) (line ∙ order t moved, done)
]

-- Typed text without a backspace, for which the line has room, arrives at its end in the order in
-- which it was typed, and nothing stays in the read queue; the loop ends.
pub copy_to_buffer-contents :
    (t : Terminal)
    → IsRing t.read_q
    → IsRing t.buffer
    → NoBackspace (contents t.read_q)
    → chars t.buffer + chars t.read_q ≤ 1023
    → (contents (copy_to_buffer t).buffer ≡ contents t.buffer ++ contents t.read_q)
      × (contents (copy_to_buffer t).read_q ≡ [])
unfolding copy_to_buffer
copy_to_buffer-contents t read ring plain room =
    copy_loop_lem 1024 t read ring (omega (arith, room)) plain room
