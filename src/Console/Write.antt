-- ===== src/Console/Write.antt =====
-- What `video_putchar` of kernel/chr_drv/console.c does for each kind of character, and `con_write`.
use hios.Base.{
  ℕ, zero, suc, ◌+◌, ◌*◌, ◌/◌, ◌%◌, ◌≤◌, ◌<◌, ◌≡◌, ◌≢◌, refl, ◌∙◌, arith, leb, ◌==◌, inl, inr,
  false, Bool-cases, if◌then◌else◌, update, List, [], ◌∷◌,
}
use hios.Tty.{Queue, empty, getch, chars}
use hios.Tty.Ring.{getch-IsRing, IsRing, contents, contents-getch, chars-getch}
use hios.Console.{
  Console, white_on_black, newline, tab, backspace, update_cursor, cut, video_putchar_at,
  put_symbol, wrap_line, wrap_screen, video_putchar, con_loop, con_write,
}
use hios.Console.Screen.{
  IsOnScreen, Inside, put_symbol-Inside, rolled, line_row, line_column, screen_column, screen_row,
  wrap_column, wrap_row, wrap_video,
}

-- The cursor registers of the display hold the position in `video_x` and `video_y`.
pub record Synced (s : Console) : Type 0 where
  pub low : s.register 0x0f ≡ (80 * s.video_y + s.video_x) % 256
  pub high : s.register 0x0e ≡ (80 * s.video_y + s.video_x) / 256

abbrev wrapped : ℕ → Console → Console
wrapped ch s = wrap_screen (wrap_line (put_symbol ch s))

-- Whatever the character, the next write stays on the screen, no byte outside the screen changes, and
-- the display's cursor is where the next character goes.
pub video_putchar-IsOnScreen :
    (ch : ℕ) (s : Console)
    → IsOnScreen s
    → IsOnScreen (video_putchar ch s) × Inside s (video_putchar ch s) × Synced (video_putchar ch s)
unfolding video_putchar update_cursor
video_putchar-IsOnScreen ch s on =
    let t = put_symbol ch s in
    let row = wrap_row t in
    let column = wrap_column t in
    (
      record { column = column; row = row },
      λ a far. wrap_video t a ∙ rolled_far a far ∙ put_symbol-Inside ch s on a far,
      record { low = ground (arith, row, column); high = ground (arith, row, column) },
    )
  where
    rolled_far :
        (a : ℕ)
        → 4000 ≤ a
        → rolled (leb 25 (wrap_line (put_symbol ch s)).video_y) (put_symbol ch s).video a
          ≡ (put_symbol ch s).video a
    rolled_far a far = ground arith

symbol_lem :
    (ch : ℕ) (s : Console)
    → ch ≢ newline
    → ch ≢ tab
    → ch ≢ backspace
    → put_symbol ch s ≡ record (video_putchar_at ch s.video_x s.video_y white_on_black s) {
      video_x = s.video_x + 1;
    }
unfolding put_symbol video_putchar_at
symbol_lem ch s n t b =
    let not_newline : (ch == newline) ≡ false = ground arith in
    let not_tab : (ch == tab) ≡ false = ground arith in
    let not_back : (ch == backspace) ≡ false = ground arith in
    rw (not_newline, not_tab, not_back, put_symbol) refl

-- The state after the symbol is written and before the cursor wraps.
abbrev pub written : ℕ → Console → Console
written ch s = record (video_putchar_at ch s.video_x s.video_y white_on_black s) {
  video_x = s.video_x + 1;
}

cell_lem :
    (ch x y attr : ℕ) (s : Console)
    → x ≤ 80
    → y ≤ 25
    → (video_putchar_at ch x y attr s).video
      ≡ update (update s.video (2 * (x + 80 * y)) ch) (2 * (x + 80 * y) + 1) attr
unfolding video_putchar_at
cell_lem ch x y attr s hx hy =
    let column : cut 80 x ≡ x = unfold cut in ground arith in
    let row : cut 25 y ≡ y = unfold cut in ground arith in rw (column, row) refl

module _ (w : Console) (column : w.video_x ≤ 80) (row : w.video_y < 25)
    (right : 0 < w.video_x) where
  wrap_over : leb 25 (wrap_line w).video_y ≡ (w.video_x + 80 * w.video_y == 2000)
  wrap_over = ground (arith, line_row w, column, row, right)

  wrap_position :
      (wrap_screen (wrap_line w)).video_x + 80 * (wrap_screen (wrap_line w)).video_y
      ≡ (if w.video_x + 80 * w.video_y == 2000 then 1920 else w.video_x + 80 * w.video_y)
  wrap_position = ground (
    arith,
    screen_column (wrap_line w),
    screen_row (wrap_line w),
    line_column w,
    line_row w,
    column,
    row,
    right,
  )

-- Any character but newline, tab and backspace appears in the cell of the cursor, in white on black,
-- and the cursor goes to the next cell, which may be the first of the next row. After the last cell
-- the screen rolls up by one row, and the cursor is at the start of the last row. Every other cell is
-- as it was, or as it was one row below.
pub video_putchar-symbol :
    (ch : ℕ) (s : Console)
    → IsOnScreen s
    → ch ≢ newline
    → ch ≢ tab
    → ch ≢ backspace
    → ((video_putchar ch s).video_x + 80 * (video_putchar ch s).video_y
        ≡ (if s.video_x + 80 * s.video_y == 1999 then 1920 else s.video_x + 80 * s.video_y + 1))
      × ((a : ℕ)
          → (video_putchar ch s).video a
            ≡ rolled
                (s.video_x + 80 * s.video_y == 1999)
                (update
                  (update s.video (2 * (s.video_x + 80 * s.video_y)) ch)
                  (2 * (s.video_x + 80 * s.video_y) + 1)
                  white_on_black)
                a)
unfolding video_putchar update_cursor
video_putchar-symbol ch s on n t b =
    let w = written ch s in
    let same_row : w.video_y ≡ s.video_y = unfold video_putchar_at in refl in
    let low : w.video_y < 25 = rw same_row on.row in
    let column : w.video_x ≤ 80 = omega (arith, on.column) in
    let over : leb 25 (wrap_line w).video_y ≡ (s.video_x + 80 * s.video_y == 1999) =
      wrap_over w column low (omega arith) ∙ ground (arith, same_row) in
    rw (symbol_lem ch s n t b) (
      wrap_position w column low (omega arith) ∙ ground (arith, same_row),
      λ a.
          wrap_video w a
          ∙ rw
              (
                over,
                cell_lem ch s.video_x s.video_y white_on_black s (omega (arith, on.column))
                    (omega (arith, on.row)),
              )
              refl,
    )

-- `con_write` empties the queue and hands its characters to `video_putchar`, the oldest first.
abbrev pub print_all : List ℕ → Console → Console
print_all [] s = s
print_all (c ∷ cs) s = print_all cs (video_putchar c s)

empty-chars : (q : Queue) → IsRing q → empty q ≡ (chars q == 0)
unfolding empty chars
empty-chars q ring = ground (arith, ring.head, ring.tail)

con_loop-print_all :
    (fuel : ℕ) (q : Queue) (s : Console)
    → IsRing q
    → chars q < fuel
    → (q' : Queue) × (con_loop fuel (q, s) ≡ (q', print_all (contents q) s)) × (chars q' ≡ 0)
unfolding con_loop
con_loop-print_all zero q s ring more = absurd (omega (arith, more))
con_loop-print_all (suc fuel) q s ring more = elim (Bool-cases (empty q)) [
  | inl is_empty ↦
      let zero_left : chars q ≡ 0 = ground (arith, empty-chars q ring) in
      (q, rw (is_empty, zero_left, con_loop) refl, zero_left)
  | inr has_some ↦
      let some_left : 0 < chars q = ground (arith, empty-chars q ring) in
      let (q', run, done) =
        con_loop-print_all fuel (getch q).1 (video_putchar (getch q).0 s) (getch-IsRing q ring)
          (omega (arith, chars-getch q ring some_left, more)) in
      (q', rw (has_some, contents-getch q ring some_left, con_loop) run, done)
]

-- `con_write` shows every character of the queue, the oldest first, and leaves the queue empty; its
-- loop ends.
pub con_write-print_all :
    (q : Queue) (s : Console)
    → IsRing q
    → (q' : Queue) × (con_write (q, s) ≡ (q', print_all (contents q) s)) × (contents q' ≡ [])
unfolding con_write
con_write-print_all q s ring =
    let few : chars q < 1024 = unfold chars in omega arith in
    let (q', run, done) = con_loop-print_all 1024 q s ring few in (q', run, rw done refl)
