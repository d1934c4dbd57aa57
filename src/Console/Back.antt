-- ===== src/Console/Back.antt =====
-- What `video_putchar` of kernel/chr_drv/console.c does with a backspace, and where `get_cursor` looks.
use hios.Base.{
  ℕ, ◌+◌, ◌-◌, ◌*◌, ◌/◌, ◌%◌, ◌<◌, ◌≡◌, refl, ◌∙◌, arith, leb, ◌==◌, ◌⊎◌, inl, inr, false,
  Bool-cases, if◌then◌else◌,
}
use hios.Console.{
  Console, space, white_on_black, backspace, update_cursor, get_cursor, video_putchar_at, back,
  put_symbol, wrap_line, wrap_screen, video_putchar,
}
use hios.Console.Scroll.{put_lem}
use hios.Console.Screen.{IsOnScreen, line_row, line_column, screen_column, screen_row, wrap_video}

module _ (s : Console) (on : IsOnScreen s) where
  back_column : (back s).video_x ≡ (if s.video_x == 0 then 80 else s.video_x - 1)
  unfolding back video_putchar_at
  back_column = ground arith

  back_row : (back s).video_y ≡ (if s.video_x == 0 then s.video_y - 1 else s.video_y)
  unfolding back video_putchar_at
  back_row = ground arith

  back_over : leb 25 (wrap_line (back s)).video_y ≡ false
  back_over = ground (arith, line_row (back s), back_column, back_row, on.row, on.column)

  back_byte :
      (a : ℕ)
      → (back s).video a ≡ (
          let cell =
            if s.video_x == 0 then 80 + 80 * (s.video_y - 1) else s.video_x - 1 + 80 * s.video_y in
          if a == 2 * cell then space else if a == 2 * cell + 1 then white_on_black else s.video a)
  unfolding back
  back_byte a = ground (
    arith,
    put_lem space 80 (s.video_y - 1) white_on_black
        (record s { video_x = 80; video_y = s.video_y - 1 }) a (omega arith)
        (omega (arith, on.row)),
    put_lem space (s.video_x - 1) s.video_y white_on_black (record s { video_x = s.video_x - 1 }) a
        (omega (arith, on.column)) (omega (arith, on.row)),
  )

  back_video :
      (a : ℕ)
      → (wrap_screen (wrap_line (back s))).video a ≡ (
          let cell =
            if s.video_x == 0 then 80 + 80 * (s.video_y - 1) else s.video_x - 1 + 80 * s.video_y in
          if a == 2 * cell then space else if a == 2 * cell + 1 then white_on_black else s.video a)
  back_video a = wrap_video (back s) a ∙ rw back_over (back_byte a)

  back_wrapped_column : (wrap_screen (wrap_line (back s))).video_x ≡ (s.video_x - 1)
  back_wrapped_column = ground (
    arith,
    screen_column (wrap_line (back s)),
    line_column (back s),
    back_column,
    back_over,
    on.column,
  )

  back_wrapped_row :
      (wrap_screen (wrap_line (back s))).video_y
      ≡ (if s.video_x == 0 then s.video_y - 1 + 1 else s.video_y)
  back_wrapped_row = ground (
    arith,
    screen_row (wrap_line (back s)),
    line_row (back s),
    back_column,
    back_row,
    back_over,
    on.row,
    on.column,
  )

-- A backspace to the right of column 0 blanks the cell before the cursor and goes back to it. In
-- column 0 it blanks the cell of the cursor, and the cursor does not move; in the first cell of the
-- screen it goes down instead, to the start of row 1, and blanks that cell.
pub video_putchar-backspace :
    (s : Console)
    → IsOnScreen s
    → (row column : ℕ) × ((0 < s.video_x) × (column ≡ s.video_x - 1) × (row ≡ s.video_y)
        ⊎ (s.video_x ≡ 0) × (column ≡ 0) × (row ≡ (if s.video_y == 0 then 1 else s.video_y)))
      × ((video_putchar backspace s).video_x ≡ column)
      × ((video_putchar backspace s).video_y ≡ row)
      × ((a : ℕ)
          → (video_putchar backspace s).video a ≡ (
              if a == 2 * (column + 80 * row)
              then space
              else if a == 2 * (column + 80 * row) + 1
              then white_on_black
              else s.video a))
unfolding video_putchar update_cursor put_symbol
video_putchar-backspace s on = elim (Bool-cases (s.video_x == 0)) [
  | inl zero_x ↦
      let row = if s.video_y == 0 then 1 else s.video_y in
      (
        row,
        0,
        inr (ground arith, refl, refl),
        back_wrapped_column s on ∙ ground arith,
        back_wrapped_row s on ∙ ground arith,
        λ a. back_video s on a ∙ ground arith,
      )
  | inr more ↦ (
    s.video_y,
    s.video_x - 1,
    inl (ground arith, refl, refl),
    back_wrapped_column s on,
    back_wrapped_row s on ∙ rw more refl,
    λ a. back_video s on a ∙ rw more refl,
  )
]

-- `get_cursor` after `update_cursor` gives the position with its two bytes exchanged.
pub get_cursor-update_cursor :
    (row col : ℕ) (s : Console)
    → row < 25
    → col < 80
    → get_cursor (update_cursor row col s) ≡ (80 * row + col) % 256 * 256 + (80 * row + col) / 256
unfolding get_cursor update_cursor
get_cursor-update_cursor row col s hr hc = omega (arith, hr, hc)
