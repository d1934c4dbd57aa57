-- ===== src/Files.antt =====
-- fs/open.c and fs/fcntl.c: descriptors and the file table. Names are looked up by `open_namei` and
-- inodes given back by `iput`, which are parameters here.
pub mod Refs
pub mod Counted
use hios.Base.{
  ℕ, zero, suc, ◌+◌, ◌-◌, ◌*◌, ◌/◌, ◌%◌, ◌^◌, ltb, leb, ◌==◌, ◌&&◌, ◌||◌, not, Bool, true, false,
  if◌then◌else◌, update, Option, none, some, first, is_null,
}
use Prim.Native.Nat.{bit_and}
use hios.Run.{Run, ok, panic, Cmd, and_then, close_count}
use hios.Errno.{Errno, eperm, ebadf, einval, emfile, Ret, ret, fail}
use hios.Sched.{Task}
use hios.Proc.{Proc, field}
use hios.System.{Inode, File, Files, System, nr_open, nr_file, on_file, set_filp}

-- `current->close_on_exec &= ~(1 << fd)`
abbrev pub keep_on_exec : ℕ → ℕ → Files → Files
keep_on_exec k fd t = record t {
  close_on_exec = update t.close_on_exec k (update (t.close_on_exec k) fd false);
}

-- `f_count++` on an unsigned short
abbrev pub more_count : File → File
more_count f = record f { f_count = (f.f_count + 1) % 2 ^ 16 }

abbrev pub less_count : File → File
less_count f = record f { f_count = f.f_count - 1 }

-- S_ISREG and so on: the type in the upper four bits of `i_mode`
abbrev pub is_type : ℕ → ℕ → Bool
is_type kind mode = mode / 2 ^ 12 % 16 == kind

abbrev pub s_isreg : ℕ → Bool
s_isreg = is_type 8

abbrev pub s_isdir : ℕ → Bool
s_isdir = is_type 4

abbrev pub s_isblk : ℕ → Bool
s_isblk = is_type 6

abbrev pub s_ischr : ℕ → Bool
s_ischr = is_type 2

-- `while (arg < NR_OPEN) …`: the first free descriptor from `arg` on
unfoldable pub free_fd : ℕ → ℕ → Files → Option ℕ
free_fd k arg t = first (λ fd. is_null (t.filp k fd)) arg (nr_open - arg)

unfoldable pub dupfd : ℕ → ℕ → ℕ → Files → Ret ℕ × Files
dupfd k fd arg t =
    if leb nr_open fd || is_null (t.filp k fd)
    then (fail ebadf, t)
    else if leb nr_open arg
    then (fail einval, t)
    else elim (free_fd k arg t) [
      | none ↦ (fail emfile, t)
      | some new ↦ elim (t.filp k fd) [
        | none ↦ (fail ebadf, t)
        | some f ↦ (ret new, on_file f more_count (set_filp k new (some f) (keep_on_exec k new t)))
      ]
    ]

unfoldable pub sys_dup : ℕ → ℕ → Files → Ret ℕ × Files
sys_dup k fildes t = dupfd k fildes 0 t

-- `sys_close` up to `iput`: the result is the inode to put back, if there is one, and `ret`.
unfoldable pub close_fd : ℕ → ℕ → Files → Run Files (Ret (Option ℕ))
close_fd k fd t = if leb nr_open fd then ok (fail einval) t else elim (t.filp k fd) [
  | none ↦ ok (fail einval) (keep_on_exec k fd t)
  | some f ↦
      let t1 = set_filp k fd none (keep_on_exec k fd t) in
      if (t.file_table f).f_count == 0
      then panic close_count
      else ok (ret (if (t.file_table f).f_count == 1 then some (t.file_table f).f_inode else none))
          (on_file f less_count t1)
]

-- `current->filp[fd] = f; f->f_count++`, and the undoing of it
abbrev pub take_file : ℕ → ℕ → ℕ → Files → Files
take_file k fd f t = on_file f more_count (set_filp k fd (some f) t)

abbrev pub drop_file : ℕ → ℕ → ℕ → Files → Files
drop_file k fd f t = on_file f (λ g. record g { f_count = 0 }) (set_filp k fd none t)

-- The first part of `sys_open`: a descriptor and an entry of the file table.
unfoldable pub reserve : ℕ → Files → Option (ℕ × ℕ) × Files
reserve k t = elim (free_fd k 0 t) [
  | none ↦ (none, t)
  | some fd ↦
      let t1 = keep_on_exec k fd t in
      elim (first (λ f. (t.file_table f).f_count == 0) 0 nr_file) [
        | none ↦ (none, t1)
        | some f ↦ (some (fd, f), take_file k fd f t1)
      ]
]

-- The last part: `*f = …`
unfoldable pub fill_file : ℕ → ℕ → ℕ → Files → Files
fill_file f flag ino t =
    on_file f
      (λ g. record {
        f_mode = (t.inode_table ino).i_mode;
        f_flags = flag % 2 ^ 16;
        f_count = 1;
        f_inode = ino;
        f_pos = 0;
      })
      t

-- `current->tty = MINOR(…)` for the leader of a session with no terminal
unfoldable pub take_tty : ℕ → ℕ → ℕ → Files → Files
take_tty k pgrp zone t =
    if t.leader k && is_null (t.tty k)
    then record t {
      tty = update t.tty k (some (zone % 256));
      tty_pgrp = update t.tty_pgrp (zone % 256) pgrp;
    }
    else t

module _ (open_namei : ℕ → ℕ → Cmd System (Ret (Option ℕ))) (iput : ℕ → Cmd System (Unit {0})) where
  -- After `open_namei` gave the inode `ino`.
  unfoldable pub open_inode : ℕ → ℕ → ℕ → ℕ → Cmd System (Ret ℕ)
  open_inode fd f flag ino s =
      let k = s.proc.current in
      let t = s.files in
      let mode = (t.inode_table ino).i_mode in
      let zone = (t.inode_table ino).i_zone 0 in
      let pgrp = field (λ u. u.pgrp) k s.proc in
      if s_ischr mode && (zone / 256 == 4)
      then ok (ret fd) (record s { files = fill_file f flag ino (take_tty k pgrp zone t) })
      else if s_ischr mode && ((zone / 256 == 5) && is_null (t.tty k))
      then and_then (iput ino s)
          (λ _ s1. ok (fail eperm) (record s1 { files = drop_file s1.proc.current fd f s1.files }))
      else ok (ret fd) (record s { files = fill_file f flag ino t })

  -- `open_namei` may return 0 without writing `*res_inode`; then `inode` is `unset`, the value that the
  -- variable has on the stack.
  unfoldable pub sys_open : ℕ → ℕ → ℕ → Cmd System (Ret ℕ)
  sys_open unset flag mode s =
      let k = s.proc.current in
      let allowed = bit_and mode (bit_and 511 (2 ^ 32 - 1 - s.files.umask k)) in
      let (place, t) = reserve k s.files in
      elim place [
        | none ↦ ok (fail einval) (record s { files = t })
        | some (fd, f) ↦ and_then (open_namei flag allowed (record s { files = t })) (λ r s1.
            elim r [
              | fail e ↦ ok (fail e) (record s1 { files = drop_file s1.proc.current fd f s1.files })
              | ret found ↦ open_inode fd f flag (elim found [ none ↦ unset | some ino ↦ ino ]) s1
            ])
      ]

  unfoldable pub sys_close : ℕ → Cmd System (Ret ℕ)
  sys_close fd s = elim (close_fd s.proc.current fd s.files) [
    | panic e ↦ panic e
    | ok r t ↦ elim r [
      | fail e ↦ ok (fail e) (record s { files = t })
      | ret none ↦ ok (ret 0) (record s { files = t })
      | ret (some ino) ↦ and_then (iput ino (record s { files = t })) (λ _ s1. ok (ret 0) s1)
    ]
  ]
