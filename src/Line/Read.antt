-- ===== src/Line/Read.antt =====
-- `tty_read` of kernel/chr_drv/tty_io.c: a line is read without a sleep.
use hios.Base.{
  ◌==◌, ℕ, zero, suc, ◌≡◌, refl, sym, ◌∙◌, ap, arith, ◌||◌, Bool, true, false, Bool-cases, inl, inr,
  if◌then◌else◌, List, [], ◌∷◌, pos, some, length,
}
use hios.Tty.{empty, chars, getch}
use hios.Tty.Ring.{IsRing, contents, length-gather, contents-getch, getch-IsRing}
use hios.Line.{Terminal, ends_line, read_chars, tty_read}
use hios.Line.Edit.{empty-chars}

-- A newline, or the end of the file
abbrev pub is_last : ℕ → Bool
is_last c = c == 10 || c == 255

ends_line_lem : (c : ℕ) → ends_line c ≡ is_last c
unfolding ends_line
ends_line_lem c = refl

-- The first `n` characters, up to the end of a line, and what is behind them.
abbrev pub line_of : ℕ → List ℕ → List ℕ
line_of zero cs = []
line_of (suc n) [] = []
line_of (suc n) (c ∷ cs) = if is_last c then c ∷ [] else c ∷ line_of n cs

abbrev pub after_line : ℕ → List ℕ → List ℕ
after_line zero cs = cs
after_line (suc n) [] = []
after_line (suc n) (c ∷ cs) = if is_last c then cs else after_line n cs

-- There are `n` characters, or the end of a line among the first `n`.
abbrev pub has_line : ℕ → List ℕ → Bool
has_line zero cs = true
has_line (suc n) [] = false
has_line (suc n) (c ∷ cs) = is_last c || has_line n cs

-- What the read leaves of the terminal.
pub record Left (t t' : Terminal) (rest : List ℕ) : Type 0 where
  pub buffer : contents t'.buffer ≡ rest
  pub ring : IsRing t'.buffer
  pub same_reader : t'.read_q ≡ t.read_q
  pub same_writer : t'.write_q ≡ t.write_q
  pub same_console : t'.console ≡ t.console
  pub same_tasks : t'.task ≡ t.task
  pub same_flags : t'.flags ≡ t.flags
  pub same_sleepers : t'.buffer.wait_proc ≡ t.buffer.wait_proc

module _ (sleep_if_empty : Terminal → Terminal) where
  read_chars-Left :
      (n : ℕ) (t : Terminal) (cs : List ℕ)
      → IsRing t.buffer
      → contents t.buffer ≡ cs
      → has_line n cs ≡ true
      → ((read_chars sleep_if_empty n t).0 ≡ line_of n cs)
        × Left t (read_chars sleep_if_empty n t).1 (after_line n cs)
  unfolding read_chars getch
  read_chars-Left zero t cs ring is has = (
    refl,
    record {
      buffer = is;
      ring = ring;
      same_reader = refl;
      same_writer = refl;
      same_console = refl;
      same_tasks = refl;
      same_flags = refl;
      same_sleepers = refl;
    },
  )
  read_chars-Left (suc n) t [] ring is has = absurd (ground arith)
  read_chars-Left (suc n) t (c ∷ cs) ring is has =
      let size : chars t.buffer ≡ suc (length cs) =
        sym (length-gather (chars t.buffer) t.buffer.tail t.buffer.buf) ∙ ap length is in
      let awake : empty t.buffer ≡ false = ground (arith, empty-chars t.buffer ring) in
      let split = sym (contents-getch t.buffer ring (omega arith)) ∙ is in
      let first : (getch t.buffer).0 ≡ c = ground arith in
      let later : contents (getch t.buffer).1 ≡ cs = ground arith in
      let t2 : Terminal = record t { buffer = (getch t.buffer).1 } in
      let test = ends_line_lem c in
      elim (Bool-cases (is_last c)) [
        | inl ends ↦
            rw (awake, first, test, ends, read_chars)
              (
                refl,
                record {
                  buffer = later;
                  ring = getch-IsRing t.buffer ring;
                  same_reader = refl;
                  same_writer = refl;
                  same_console = refl;
                  same_tasks = refl;
                  same_flags = refl;
                  same_sleepers = refl;
                },
              )
        | inr goes_on ↦
            let (text, left) =
              read_chars-Left n t2 cs (getch-IsRing t.buffer ring) later (ground arith) in
            rw (awake, first, test, goes_on, read_chars)
              (
                ap (◌∷◌ c) text,
                record {
                  buffer = left.buffer;
                  ring = left.ring;
                  same_reader = left.same_reader;
                  same_writer = left.same_writer;
                  same_console = left.same_console;
                  same_tasks = left.same_tasks;
                  same_flags = left.same_flags;
                  same_sleepers = left.same_sleepers;
                },
              )
      ]

  -- `tty_read` of `n` characters, where the buffer holds so many, or the end of a line among the first
  -- `n`: it does not sleep. The result is the characters up to the end of the line, that end included, or
  -- `n` of them; these are gone from the buffer, and the other queues, the sleepers on the buffer, the flags, the
  -- console and the tasks are as before.
  pub tty_read-line_of :
      (n : ℕ) (t : Terminal)
      → IsRing t.buffer
      → has_line n (contents t.buffer) ≡ true
      → (t' : Terminal) × (tty_read sleep_if_empty (pos n) t
          ≡ (some (line_of n (contents t.buffer)), t'))
        × Left t t' (after_line n (contents t.buffer))
  unfolding tty_read
  tty_read-line_of n t ring has =
      let (text, left) = read_chars-Left n t (contents t.buffer) ring refl has in
      ((read_chars sleep_if_empty n t).1, rw text refl, left)
