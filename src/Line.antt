-- ===== src/Line.antt =====
-- kernel/chr_drv/tty_io.c: `copy_to_buffer`, which turns typed characters into lines, and the functions
-- that read and write a terminal, for the one
-- terminal of `tty_table`. Its `write` is `con_write`. Characters are bytes, so -1 is 255.
pub mod Edit
pub mod Copy
pub mod Read
use hios.Base.{
  ℕ, zero, suc, ◌+◌, ◌-◌, ◌%◌, ◌==◌, ◌||◌, not, Bool, true, false, if◌then◌else◌, List, [], ◌∷◌, ℤ,
  pos, negsuc, Option, none, some,
}
use hios.Sched.{Tasks}
use hios.Sched.Queue.{Waiting, wake_up}
use hios.Tty.{Queue, dec, empty, full, getch, putch}
use hios.Console.{Console, newline, backspace, con_write}

-- `struct tty_struct`, with the screen that `write` changes and the tasks that `wake_up` changes.
pub record Terminal : Type 0 where
  pub flags : ℕ
  pub read_q : Queue
  pub write_q : Queue
  pub buffer : Queue
  pub console : Console
  pub task : Tasks

-- EOF
abbrev pub eof : ℕ
eof = 255

-- `tty->buffer.buf[tty->buffer.head - 1]`: before the array lies the high byte of `write_q.tail`,
-- which is 0.
unfoldable pub before_head : Queue → ℕ
before_head q = if q.head == 0 then 0 else q.buf (q.head - 1)

-- `wake_up(&tty_table[0].buffer.wait_proc)`
unfoldable pub wake_readers : Terminal → Terminal
wake_readers t =
    let w = wake_up (record { task = t.task; head = t.buffer.wait_proc }) in
    record t { task = w.task; buffer = record (t.buffer) { wait_proc = w.head } }

-- The `switch`, and whether the character is echoed: not so after `continue`.
unfoldable pub edit : ℕ → Terminal → Bool × Terminal
edit ch t =
    if ch == backspace
    then (if empty t.buffer
        then (false, t)
        else if before_head t.buffer == newline
        then (false, t)
        else (true, record t { buffer = record (t.buffer) { head = dec t.buffer.head } }))
    else if ch == eof || ch == newline
    then (true, wake_readers (record t { buffer = putch ch t.buffer }))
    else if full t.buffer
    then (true, t)
    else (true, record t { buffer = putch ch t.buffer })

-- `if (tty->flags | TTY_ECHO) …`
unfoldable pub echo : ℕ → Terminal → Terminal
echo ch t =
    if not (t.flags + 1 - t.flags % 2 == 0)
    then (let (q, s) = con_write (putch ch t.write_q, t.console) in
        record t { write_q = q; console = s })
    else t

-- The body of the loop, for a character that is taken from the queue.
unfoldable pub copy_char : Terminal → Terminal
copy_char t =
    let (ch, q) = getch t.read_q in
    let (goes_on, t1) = edit ch (record t { read_q = q }) in if goes_on then echo ch t1 else t1

-- `while (!EMPTY(tty->read_q)) …`
unfoldable pub copy_loop : ℕ → Terminal → Terminal
copy_loop zero t = t
copy_loop (suc fuel) t =
    let rest = copy_loop fuel (copy_char t) in if empty t.read_q then t else rest

unfoldable pub copy_to_buffer : Terminal → Terminal
copy_to_buffer t = copy_loop 1024 t

-- The tests on `ch` that end `tty_read`.
unfoldable pub ends_line : ℕ → Bool
ends_line ch = ch == newline || ch == eof

-- `sleep_if_empty` lets other tasks run, and also comes back when a signal is pending: what it leaves
-- is a parameter.
module _ (sleep_if_empty : Terminal → Terminal) where
  -- `while (nr > 0) …`: the characters that are put at `buf`.
  unfoldable pub read_chars : ℕ → Terminal → List ℕ × Terminal
  read_chars zero t = ([], t)
  read_chars (suc nr) t =
      let t1 = if empty t.buffer then sleep_if_empty t else t in
      let (ch, q) = getch t1.buffer in
      let t2 = record t1 { buffer = q } in
      let (rest, t3) = read_chars nr t2 in if ends_line ch then (ch ∷ [], t2) else (ch ∷ rest, t3)

  -- `none` is -1.
  unfoldable pub tty_read : ℤ → Terminal → Option (List ℕ) × Terminal
  tty_read (negsuc n) t = (none, t)
  tty_read (pos nr) t = let (s, t1) = read_chars nr t in (some s, t1)

-- `PUTCH(c, tty->write_q)` for each character, whether or not there is room.
unfoldable pub put_all : List ℕ → Queue → Queue
put_all [] q = q
put_all (c ∷ cs) q = put_all cs (putch c q)

unfoldable pub tty_write : Terminal → Terminal
tty_write t = let (q, s) = con_write (t.write_q, t.console) in record t { write_q = q; console = s }

-- `_user_tty_write`, for the characters at `buf`
unfoldable pub user_tty_write : List ℕ → Terminal → Terminal
user_tty_write cs t = tty_write (record t { write_q = put_all cs t.write_q })
