-- ===== src/Console/Screen.antt =====
-- `video_putchar` of kernel/chr_drv/console.c: the cursor and the bytes of the screen.
use hios.Base.{
  ℕ, ◌+◌, ◌-◌, ◌*◌, ◌/◌, ◌≤◌, ◌<◌, ◌≡◌, refl, ◌∙◌, arith, ltb, leb, ◌==◌, inl, inr, Bool,
  Bool-cases, if◌then◌else◌,
}
use hios.Console.{
  Console, space, white_on_black, video_putchar_at, tab_loop, back, put_symbol, wrap_line,
  wrap_screen,
}
use hios.Console.Scroll.{blank, put_lem, roll_screen_lem}

-- The next write goes to a cell of the screen.
pub record IsOnScreen (s : Console) : Type 0 where
  pub column : s.video_x < 80
  pub row : s.video_y < 25

-- No byte outside the screen's 4000 changes.
abbrev pub Inside : Console → Console → Type 0
Inside s s' = (a : ℕ) → 4000 ≤ a → s'.video a ≡ s.video a

-- The fuel of the loop for a tab is enough: it ends at a multiple of 8, the first from `x` on.
pub tab_loop_lem : (x : ℕ) → tab_loop 8 x ≡ (x + 7) / 8 * 8
unfolding tab_loop
tab_loop_lem x = ground arith

put-Inside :
    (ch x y attr : ℕ) (s : Console) (a : ℕ)
    → x ≤ 80
    → y < 25
    → x + 80 * y < 2000
    → 4000 ≤ a
    → (video_putchar_at ch x y attr s).video a ≡ s.video a
put-Inside ch x y attr s a hx hy small far =
    ground (arith, put_lem ch x y attr s a hx (omega arith))

back-Inside : (s : Console) → IsOnScreen s → Inside s (back s)
unfolding back
back-Inside s on a far = elim (Bool-cases (s.video_x == 0)) [
  | inl zero_x ↦
      rw (zero_x, back)
        (put-Inside space 80 (s.video_y - 1) white_on_black
          (record s { video_x = 80; video_y = s.video_y - 1 }) a (omega arith)
          (omega (arith, on.row)) (omega (arith, on.row)) far)
  | inr more ↦
      rw (more, back)
        (put-Inside space (s.video_x - 1) s.video_y white_on_black
          (record s { video_x = s.video_x - 1 }) a (omega (arith, on.column)) on.row
          (omega (arith, on.column, on.row)) far)
]

pub put_symbol-Inside : (ch : ℕ) (s : Console) → IsOnScreen s → Inside s (put_symbol ch s)
unfolding put_symbol
put_symbol-Inside ch s on a far = ground (
  arith,
  back-Inside s on a far,
  put-Inside ch s.video_x s.video_y white_on_black s a (omega (arith, on.column)) on.row
      (omega (arith, on.column, on.row)) far,
)

line_video : (s : Console) → (wrap_line s).video ≡ s.video
unfolding wrap_line
line_video s = elim (Bool-cases (leb 80 s.video_x)) [
  | inl over ↦ rw (over, wrap_line) refl
  | inr in_row ↦ rw (in_row, wrap_line) refl
]

pub line_column :
    (s : Console) → (wrap_line s).video_x ≡ (if leb 80 s.video_x then 0 else s.video_x)
unfolding wrap_line
line_column s = ground arith

pub line_row :
    (s : Console) → (wrap_line s).video_y ≡ (if leb 80 s.video_x then s.video_y + 1 else s.video_y)
unfolding wrap_line
line_row s = ground arith

pub screen_column :
    (s : Console) → (wrap_screen s).video_x ≡ (if leb 25 s.video_y then 0 else s.video_x)
unfolding wrap_screen
screen_column s = ground arith

pub screen_row :
    (s : Console) → (wrap_screen s).video_y ≡ (if leb 25 s.video_y then 24 else s.video_y)
unfolding wrap_screen
screen_row s = ground arith

-- The bytes of the screen after a scroll by one row, or as they were.
abbrev pub rolled : Bool → (ℕ → ℕ) → ℕ → ℕ
rolled over v a =
    if over then (if ltb a 3840 then v (a + 160) else if ltb a 4000 then blank a else v a) else v a

screen_video : (s : Console) (a : ℕ) → (wrap_screen s).video a ≡ rolled (leb 25 s.video_y) s.video a
unfolding wrap_screen
screen_video s a = ground (arith, roll_screen_lem s a)

-- The two wraps together, from any state.
module _ (s : Console) where
  pub wrap_column : (wrap_screen (wrap_line s)).video_x < 80
  wrap_column = rw (screen_column (wrap_line s)) (rw (line_column s) (ground arith))

  pub wrap_row : (wrap_screen (wrap_line s)).video_y < 25
  wrap_row = rw (screen_row (wrap_line s)) (ground arith)

  pub wrap_video :
      (a : ℕ)
      → (wrap_screen (wrap_line s)).video a ≡ rolled (leb 25 (wrap_line s).video_y) s.video a
  wrap_video a = screen_video (wrap_line s) a ∙ rw (line_video s) refl
