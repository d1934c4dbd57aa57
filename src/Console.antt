-- ===== src/Console.antt =====
-- kernel/chr_drv/console.c: the text screen, 25 rows of 80 cells of two bytes. The two ports of the
-- display are a register file, of which only the bytes of the cursor position are used.
pub mod Screen
pub mod Scroll
pub mod Write
pub mod Back
use hios.Base.{
  ℕ, zero, suc, ◌+◌, ◌-◌, ◌*◌, ◌/◌, ◌%◌, leb, ◌==◌, not, Bool, true, false, if◌then◌else◌, update,
}
use hios.Tty.{Queue, empty, getch, chars}

-- `video_x` and `video_y`, the bytes at `video_buffer`, and the registers of the display.
pub record Console : Type 0 where
  pub video_x : ℕ
  pub video_y : ℕ
  pub video : ℕ → ℕ
  pub register : ℕ → ℕ

-- WHITE_ON_BLACK and the blank
abbrev pub white_on_black : ℕ
white_on_black = 0x0f

abbrev pub space : ℕ
space = 32

abbrev pub newline : ℕ
newline = 10

abbrev pub tab : ℕ
tab = 9

abbrev pub backspace : ℕ
backspace = 8

-- `pos & 0xff` and `(pos >> 8) & 0xff`
unfoldable pub update_cursor : ℕ → ℕ → Console → Console
update_cursor row col s =
    let pos = row * 80 + col in
    record s { register = update (update s.register 0x0f (pos % 256)) 0x0e (pos / 256 % 256) }

unfoldable pub get_cursor : Console → ℕ
get_cursor s = s.register 0x0f * 256 + s.register 0x0e

-- The bounds are cut to 80 and 25.
unfoldable pub cut : ℕ → ℕ → ℕ
cut top n = if leb top n then top else n

unfoldable pub video_putchar_at : ℕ → ℕ → ℕ → ℕ → Console → Console
video_putchar_at ch x y attr s =
    let at_cell = 2 * (cut 80 x + 80 * cut 25 y) in
    record s { video = update (update s.video at_cell ch) (at_cell + 1) attr }

-- `memcpy` with `n` bytes left from byte `k` on; its `i * size + j` runs through the bytes in order.
unfoldable pub copy_bytes : ℕ → ℕ → ℕ → ℕ → (ℕ → ℕ) → ℕ → ℕ
copy_bytes dest src k zero v = v
copy_bytes dest src k (suc n) v = copy_bytes dest src (suc k) n (update v (dest + k) (v (src + k)))

unfoldable pub memcpy : ℕ → ℕ → ℕ → ℕ → (ℕ → ℕ) → ℕ → ℕ
memcpy dest src count size v = copy_bytes dest src 0 (count * size) v

-- `roll_screen`'s first loop, with `n` rows left from row `i` on
unfoldable pub roll_rows : ℕ → ℕ → (ℕ → ℕ) → ℕ → ℕ
roll_rows i zero v = v
roll_rows i (suc n) v = roll_rows (suc i) n (memcpy ((i - 1) * 80 * 2) (i * 80 * 2) 80 2 v)

-- Blanks in row `y`, in the `n` columns from `i` on
unfoldable pub blank_row : ℕ → ℕ → ℕ → Console → Console
blank_row y i zero s = s
blank_row y i (suc n) s = blank_row y (suc i) n (video_putchar_at space i y white_on_black s)

unfoldable pub roll_screen : Console → Console
roll_screen s = blank_row 24 0 80 (record s { video = roll_rows 1 24 s.video })

-- `while (video_x % TAB_LEN) video_x++;`, where the fuel is enough if it is at least 7
unfoldable pub tab_loop : ℕ → ℕ → ℕ
tab_loop zero x = x
tab_loop (suc fuel) x = let rest = tab_loop fuel (x + 1) in if x % 8 == 0 then x else rest

-- The branch for a backspace: `video_x` and `video_y` go below 0 for a moment.
unfoldable pub back : Console → Console
back s =
    let s1 =
      if s.video_x == 0
      then record s { video_x = 80; video_y = s.video_y - 1 }
      else record s { video_x = s.video_x - 1 } in
    video_putchar_at space s1.video_x s1.video_y white_on_black s1

unfoldable pub put_symbol : ℕ → Console → Console
put_symbol ch s =
    if ch == newline
    then record s { video_x = 0; video_y = s.video_y + 1 }
    else if ch == tab
    then record s { video_x = tab_loop 8 s.video_x }
    else if ch == backspace
    then back s
    else (let s1 = video_putchar_at ch s.video_x s.video_y white_on_black s in
        record s1 { video_x = s1.video_x + 1 })

-- `if (video_x >= VIDEO_X_SZ) …` and `if (video_y >= VIDEO_Y_SZ) …`
unfoldable pub wrap_line : Console → Console
wrap_line s = if leb 80 s.video_x then record s { video_x = 0; video_y = s.video_y + 1 } else s

unfoldable pub wrap_screen : Console → Console
wrap_screen s = if leb 25 s.video_y then record (roll_screen s) { video_x = 0; video_y = 24 } else s

unfoldable pub video_putchar : ℕ → Console → Console
video_putchar ch s =
    let s1 = wrap_screen (wrap_line (put_symbol ch s)) in update_cursor s1.video_y s1.video_x s1

-- `video_clear`: the rows of a column, then the columns
unfoldable pub clear_column : ℕ → ℕ → ℕ → Console → Console
clear_column x y zero s = s
clear_column x y (suc n) s = clear_column x (suc y) n (video_putchar_at space x y white_on_black s)

unfoldable pub clear_columns : ℕ → ℕ → Console → Console
clear_columns x zero s = s
clear_columns x (suc n) s = clear_columns (suc x) n (clear_column x 0 25 s)

unfoldable pub video_clear : Console → Console
video_clear s = clear_columns 0 80 (record s { video_x = 0; video_y = 0 })

unfoldable pub video_init : Console → Console
video_init s =
    let s1 = video_clear (record s { video_x = 0; video_y = 0 }) in
    update_cursor s1.video_y s1.video_x s1

-- `while (!EMPTY(tty->write_q)) …`; the fuel is enough if it is the number of characters.
unfoldable pub con_loop : ℕ → Queue × Console → Queue × Console
con_loop zero qs = qs
con_loop (suc fuel) (q, s) =
    let rest = con_loop fuel ((getch q).1, video_putchar (getch q).0 s) in
    if empty q then (q, s) else rest

unfoldable pub con_write : Queue × Console → Queue × Console
con_write qs = con_loop 1024 qs
