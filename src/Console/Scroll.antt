-- ===== src/Console/Scroll.antt =====
-- `roll_screen` and `video_clear` of kernel/chr_drv/console.c, byte by byte.
use hios.Base.{
  ℕ, zero, suc, ◌+◌, ◌-◌, ◌*◌, ◌/◌, ◌%◌, ◌≤◌, ◌<◌, ◌≡◌, arith, ltb, leb, ◌==◌, ◌&&◌, if◌then◌else◌,
  update,
}
use hios.Console.{
  Console, space, white_on_black, cut, video_putchar_at, copy_bytes, memcpy, roll_rows, blank_row,
  roll_screen, clear_column, clear_columns, video_clear,
}

-- The byte of a blank: a space, or its attribute.
abbrev pub blank : ℕ → ℕ
blank a = if a % 2 == 0 then space else white_on_black

copy_lem :
    (dest src k n : ℕ) (v : ℕ → ℕ) (a : ℕ)
    → dest + n ≤ src
    → copy_bytes dest src k n v a
      ≡ (if leb (dest + k) a && ltb a (dest + k + n) then v (a + (src - dest)) else v a)
unfolding copy_bytes
copy_lem dest src k zero v a apart = ground arith
copy_lem dest src k (suc n) v a apart =
    ground (arith, copy_lem dest src (suc k) n (update v (dest + k) (v (src + k))) a (omega arith))

row_lem :
    (i : ℕ) (v : ℕ → ℕ) (a : ℕ)
    → 0 < i
    → memcpy ((i - 1) * 80 * 2) (i * 80 * 2) 80 2 v a
      ≡ (if leb (160 * (i - 1)) a && ltb a (160 * i) then v (a + 160) else v a)
unfolding memcpy
row_lem i v a lo = ground (arith, copy_lem ((i - 1) * 80 * 2) (i * 80 * 2) 0 160 v a (omega arith))

pub roll_rows_lem :
    (i n : ℕ) (v : ℕ → ℕ) (a : ℕ)
    → 0 < i
    → roll_rows i n v a
      ≡ (if leb (160 * (i - 1)) a && ltb a (160 * (i - 1 + n)) then v (a + 160) else v a)
unfolding roll_rows
roll_rows_lem i zero v a lo = ground arith
roll_rows_lem i (suc n) v a lo =
    let v1 = memcpy ((i - 1) * 80 * 2) (i * 80 * 2) 80 2 v in
    ground (
      arith,
      roll_rows_lem (suc i) n v1 a (omega arith),
      row_lem i v a lo,
      row_lem i v (a + 160) lo,
    )

pub put_lem :
    (ch x y attr : ℕ) (s : Console) (a : ℕ)
    → x ≤ 80
    → y ≤ 25
    → (video_putchar_at ch x y attr s).video a ≡ (
        if a == 2 * (x + 80 * y) then ch else if a == 2 * (x + 80 * y) + 1 then attr else s.video a)
unfolding video_putchar_at cut
put_lem ch x y attr s a hx hy = ground arith

blank_row_lem :
    (y i n : ℕ) (s : Console) (a : ℕ)
    → y ≤ 25
    → i + n ≤ 80
    → (blank_row y i n s).video a
      ≡ (if leb (2 * (i + 80 * y)) a && ltb a (2 * (i + n + 80 * y)) then blank a else s.video a)
unfolding blank_row
blank_row_lem y i zero s a hy hx = ground arith
blank_row_lem y i (suc n) s a hy hx = ground (
  arith,
  blank_row_lem y (suc i) n (video_putchar_at space i y white_on_black s) a hy (omega arith),
  put_lem space i y white_on_black s a (omega arith) hy,
)

-- `roll_screen` moves every row up by one, blanks the last one, and changes no byte outside the
-- screen.
pub roll_screen_lem :
    (s : Console) (a : ℕ)
    → (roll_screen s).video a
      ≡ (if ltb a 3840 then s.video (a + 160) else if ltb a 4000 then blank a else s.video a)
unfolding roll_screen
roll_screen_lem s a =
    let s1 = record s { video = roll_rows 1 24 s.video } in
    ground (
      arith,
      blank_row_lem 24 0 80 s1 a (omega arith) (omega arith),
      roll_rows_lem 1 24 s.video a (omega arith),
    )

clear_column_lem :
    (x y n : ℕ) (s : Console) (a : ℕ)
    → x < 80
    → y + n ≤ 25
    → (clear_column x y n s).video a ≡ (
        if (a % 160 / 2 == x) && (leb y (a / 160) && ltb (a / 160) (y + n))
        then blank a
        else s.video a)
unfolding clear_column
clear_column_lem x y zero s a hx hy = ground arith
clear_column_lem x y (suc n) s a hx hy = ground (
  arith,
  clear_column_lem x (suc y) n (video_putchar_at space x y white_on_black s) a hx (omega arith),
  put_lem space x y white_on_black s a (omega arith) (omega arith),
)

clear_columns_lem :
    (x n : ℕ) (s : Console) (a : ℕ)
    → x + n ≤ 80
    → (clear_columns x n s).video a ≡ (
        if (leb x (a % 160 / 2) && ltb (a % 160 / 2) (x + n)) && ltb (a / 160) 25
        then blank a
        else s.video a)
unfolding clear_columns
clear_columns_lem x zero s a hx = ground arith
clear_columns_lem x (suc n) s a hx = ground (
  arith,
  clear_columns_lem (suc x) n (clear_column x 0 25 s) a (omega arith),
  clear_column_lem x 0 25 s a (omega arith) (omega arith),
)

-- `video_clear` makes every cell of the screen a white blank and changes no byte outside it.
pub video_clear_lem :
    (s : Console) (a : ℕ) → (video_clear s).video a ≡ (if ltb a 4000 then blank a else s.video a)
unfolding video_clear
video_clear_lem s a =
    ground (arith, clear_columns_lem 0 80 (record s { video_x = 0; video_y = 0 }) a (omega arith))
