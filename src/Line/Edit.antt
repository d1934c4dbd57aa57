-- ===== src/Line/Edit.antt =====
-- `copy_to_buffer` of kernel/chr_drv/tty_io.c as an editor of lines.
use hios.Base.{
  ℕ, suc, ◌+◌, ◌%◌, ◌<◌, ◌≡◌, refl, sym, ap, ◌∙◌, ◌⊎◌, inl, inr, arith, ◌==◌, ◌||◌, true, false,
  Bool-cases, if◌then◌else◌, List, [], ◌∷◌, ◌++◌, length, ltb,
}
use hios.Tty.{Queue, inc, dec, empty, left, full, chars, putch}
use hios.Tty.Ring.{IsRing, gather, contents, gather_snoc, length-gather, contents-putch}
use hios.Console.{newline, backspace}
use hios.Line.{Terminal, eof, before_head, wake_readers, edit}

-- The line without its last character, unless that is a newline.
abbrev pub erase : List ℕ → List ℕ
erase [] = []
erase (c ∷ []) = if c == newline then c ∷ [] else []
erase (c ∷ d ∷ cs) = c ∷ erase (d ∷ cs)

-- What a typed character does to the characters that wait for a reader.
abbrev pub edit_line : ℕ → List ℕ → List ℕ
edit_line ch line =
    if ch == backspace
    then erase line
    else if ch == eof || ch == newline
    then line ++ (ch ∷ [])
    else if ltb (length line) 1023
    then line ++ (ch ∷ [])
    else line

erase_snoc :
    (xs : List ℕ) (c : ℕ) → erase (xs ++ (c ∷ [])) ≡ (if c == newline then xs ++ (c ∷ []) else xs)
erase_snoc [] c = refl
erase_snoc (x ∷ []) c = elim (Bool-cases (c == newline)) [ inl h ↦ rw h refl | inr h ↦ rw h refl ]
erase_snoc (x ∷ y ∷ xs) c =
    ap (◌∷◌ x) (erase_snoc (y ∷ xs) c)
    ∙ elim (Bool-cases (c == newline)) [ inl h ↦ rw h refl | inr h ↦ rw h refl ]

-- DEC takes back the last character.
contents-dec :
    (q : Queue)
    → IsRing q
    → 0 < chars q
    → contents q ≡ contents (record q { head = dec q.head }) ++ (q.buf (dec q.head) ∷ [])
contents-dec q ring some_left =
    let q' : Queue = record q { head = dec q.head } in
    let n = chars q' in
    let more : chars q ≡ suc n =
      unfold chars dec in omega (arith, ring.head, ring.tail, some_left) in
    let end : (q.tail + n) % 1024 ≡ dec q.head =
      unfold chars dec in omega (arith, ring.head, ring.tail) in
    ap (λ m. gather m q.tail q.buf) more
    ∙ gather_snoc n q.tail q.buf
    ∙ ap (λ k. gather n q.tail q.buf ++ (q.buf k ∷ [])) end

pub empty-chars : (q : Queue) → IsRing q → empty q ≡ (chars q == 0)
unfolding empty chars
empty-chars q ring = ground (arith, ring.head, ring.tail)

pub full-chars : (q : Queue) → IsRing q → full q ≡ (chars q == 1023)
unfolding full left chars
full-chars q ring = ground (arith, ring.head, ring.tail)

before-dec : (q : Queue) → IsRing q → 0 < q.head → before_head q ≡ q.buf (dec q.head)
unfolding before_head dec
before-dec q ring pos =
    let start : (q.head == 0) ≡ false = ground arith in
    rw (start, before_head) (ap q.buf (omega (arith, ring.head, pos)))

wake_readers-contents : (t : Terminal) → contents (wake_readers t).buffer ≡ contents t.buffer
unfolding wake_readers chars
wake_readers-contents t = refl

-- The backspace, on a line that is not empty.
erase_lem :
    (t : Terminal)
    → IsRing t.buffer
    → 0 < t.buffer.head
    → 0 < chars t.buffer
    → erase (contents t.buffer) ≡ (
        if before_head t.buffer == newline
        then contents t.buffer
        else contents (record (t.buffer) { head = dec t.buffer.head }))
erase_lem t ring pos some_left =
    let q = t.buffer in
    let cs = contents (record q { head = dec q.head }) in
    let split = contents-dec q ring some_left in
    rw (before-dec q ring pos) (
      ap erase split
      ∙ erase_snoc cs (q.buf (dec q.head))
      ∙ ap (λ l. if q.buf (dec q.head) == newline then l else cs) (sym split))

edit_back :
    (t : Terminal)
    → IsRing t.buffer
    → 0 < t.buffer.head
    → contents (edit backspace t).1.buffer ≡ erase (contents t.buffer)
unfolding edit
edit_back t ring pos = elim (Bool-cases (empty t.buffer)) [
  | inl is_empty ↦
      let zero_left : chars t.buffer ≡ 0 = ground (arith, empty-chars t.buffer ring) in
      rw (is_empty, zero_left, edit) refl
  | inr has_some ↦
      let some_left : 0 < chars t.buffer = ground (arith, empty-chars t.buffer ring) in
      elim (Bool-cases (before_head t.buffer == newline)) [
        | inl at_line ↦ rw (erase_lem t ring pos some_left, has_some, at_line, edit) refl
        | inr in_line ↦ rw (erase_lem t ring pos some_left, has_some, in_line, edit) refl
      ]
]

-- A character typed into a terminal edits its line: a backspace erases the last character, unless
-- there is none or it is a newline; a newline and an end of file are added; any other character is
-- added if there is room, and else dropped. A newline or an end of file needs room for it, and a
-- backspace must not find `head` at the start of the array, where the code looks before the array.
pub edit-edit_line :
    (ch : ℕ) (t : Terminal)
    → IsRing t.buffer
    → (ch ≡ backspace → 0 < t.buffer.head)
    → ((ch ≡ newline) ⊎ (ch ≡ eof) → chars t.buffer < 1023)
    → contents (edit ch t).1.buffer ≡ edit_line ch (contents t.buffer)
unfolding edit
edit-edit_line ch t ring pos room = elim (Bool-cases (ch == backspace)) [
  | inl is_back ↦
      let same : ch ≡ backspace = ground arith in
      let spec : erase (contents t.buffer) ≡ edit_line ch (contents t.buffer) = rw is_back refl in
      ap (λ c. contents (edit c t).1.buffer) same ∙ edit_back t ring (pos same) ∙ spec
  | inr not_back ↦ elim (Bool-cases (ch == eof || ch == newline)) [
    | inl ends ↦
        let fits : chars t.buffer < 1023 = room (ground arith) in
        rw (not_back, ends, edit)
          (wake_readers-contents (record t { buffer = putch ch t.buffer })
            ∙ contents-putch t.buffer ch ring fits)
    | inr inner ↦
        let size = length-gather (chars t.buffer) t.buffer.tail t.buffer.buf in
        elim (Bool-cases (full t.buffer)) [
          | inl no_room ↦
              let all_used : ltb (chars t.buffer) 1023 ≡ false =
                ground (arith, full-chars t.buffer ring) in
              rw (not_back, inner, no_room, size, all_used, edit) refl
          | inr has_room ↦
              let fits : chars t.buffer < 1023 =
                unfold chars in ground (arith, full-chars t.buffer ring, ring.head, ring.tail) in
              let test : ltb (chars t.buffer) 1023 ≡ true = ground arith in
              rw (not_back, inner, has_room, size, test, edit)
                (contents-putch t.buffer ch ring fits)
        ]
  ]
]

-- A newline typed into a terminal whose line is full loses the whole line: the ring then reads as
-- empty.
pub edit-newline_full :
    (t : Terminal)
    → IsRing t.buffer
    → chars t.buffer ≡ 1023
    → contents (edit newline t).1.buffer ≡ []
unfolding edit
edit-newline_full t ring all_used =
    let none_left : chars (putch newline t.buffer) ≡ 0 =
      unfold chars putch inc in omega (arith, ring.head, ring.tail, all_used) in
    wake_readers-contents (record t { buffer = putch newline t.buffer }) ∙ rw none_left refl
