-- ===== src/Tty.antt =====
-- kernel/chr_drv/tty_queue.c and the macros of include/linux/tty.h: a ring of 1024 characters. A
-- character is its byte. `head` and `tail` are unsigned, and less than 1024 here, so that a
-- difference modulo 1024 is taken after 1024 is added.
pub mod Ring
use hios.Base.{ℕ, ◌+◌, ◌-◌, ◌%◌, ◌==◌, Bool, true, false, if◌then◌else◌, update, Option, none, some}

-- `struct tty_queue`
pub record Queue : Type 0 where
  pub buf : ℕ → ℕ
  pub wait_proc : Option ℕ
  pub head : ℕ
  pub tail : ℕ

-- TTY_BUF_SIZE
abbrev pub tty_buf_size : ℕ
tty_buf_size = 1024

-- INC and DEC: the position after and before
unfoldable pub inc : ℕ → ℕ
inc a = (a + 1) % 1024

unfoldable pub dec : ℕ → ℕ
dec a = (a + 1023) % 1024

-- EMPTY, LEFT, FULL and CHARS
unfoldable pub empty : Queue → Bool
empty q = q.head == q.tail

unfoldable pub left : Queue → ℕ
left q = (q.tail + 1023 - q.head) % 1024

unfoldable pub full : Queue → Bool
full q = left q == 0

unfoldable pub chars : Queue → ℕ
chars q = (q.head + 1024 - q.tail) % 1024

-- GETCH: the character and the queue without it
unfoldable pub getch : Queue → ℕ × Queue
getch q = (q.buf q.tail, record q { tail = inc q.tail })

-- PUTCH, which does not look whether the queue is full
unfoldable pub putch : ℕ → Queue → Queue
putch c q = record q { buf = update q.buf q.head c; head = inc q.head }

unfoldable pub tty_isempty_q : Queue → Bool
tty_isempty_q q = q.tail == q.head

unfoldable pub tty_isfull_q : Queue → Bool
tty_isfull_q q = (q.head + 1) % tty_buf_size == q.tail

unfoldable pub tty_pop_q : Queue → ℕ × Queue
tty_pop_q q = (q.buf q.tail, record q { tail = (q.tail + 1) % tty_buf_size })

-- False is the result -1.
unfoldable pub tty_push_q : Queue → ℕ → Bool × Queue
tty_push_q q ch =
    if tty_isfull_q q
    then (false, q)
    else (true, record q { buf = update q.buf q.head ch; head = (q.head + 1) % tty_buf_size })

unfoldable pub tty_queue_head : Queue → ℕ
tty_queue_head q = q.buf q.head

unfoldable pub tty_queue_tail : Queue → ℕ
tty_queue_tail q = q.buf q.tail
