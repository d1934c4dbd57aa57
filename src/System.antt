-- ===== src/System.antt =====
-- The state that the system calls on processes and files share: the task table and memory, the
-- tables of open files and inodes, and what fork keeps for each task. A pointer into a table is an
-- index, and a null pointer is `none`. What the source keeps in the task structure and only these
-- calls use is an array here, indexed by the slot of the task.
use hios.Base.{◌≡◌, refl, ℕ, Bool, Option, none, some, update}
use hios.Run.{ok, panic, Cmd}
use hios.Sched.{Bits}
use hios.Mm.{Mm}
use hios.Proc.{Proc, in_mm}

-- `struct m_inode`, but for its wait queue
pub record Inode : Type 0 where
  pub i_mode : ℕ
  pub i_uid : ℕ
  pub i_size : ℕ
  pub i_mtime : ℕ
  pub i_gid : ℕ
  pub i_nlinks : ℕ
  pub i_zone : ℕ → ℕ
  pub i_atime : ℕ
  pub i_ctime : ℕ
  pub i_dev : ℕ
  pub i_num : ℕ
  pub i_count : ℕ
  pub i_lock : Bool
  pub i_dirt : Bool
  pub i_pipe : Bool
  pub i_mount : Bool

-- `struct file`
pub record File : Type 0 where
  pub f_mode : ℕ
  pub f_flags : ℕ
  pub f_count : ℕ
  pub f_inode : ℕ
  pub f_pos : ℕ

-- The fields of `struct tss_struct` that fork sets.
pub record Tss : Type 0 where
  pub back_link : ℕ
  pub esp0 : ℕ
  pub ss0 : ℕ
  pub eip : ℕ
  pub eflags : ℕ
  pub eax : ℕ
  pub ecx : ℕ
  pub edx : ℕ
  pub ebx : ℕ
  pub esp : ℕ
  pub ebp : ℕ
  pub esi : ℕ
  pub edi : ℕ
  pub es : ℕ
  pub cs : ℕ
  pub ss : ℕ
  pub ds : ℕ
  pub fs : ℕ
  pub gs : ℕ
  pub ldt : ℕ
  pub trace_bitmap : ℕ

-- `tty` is `none` for -1. `filp k fd` is `task[k]->filp[fd]`.
pub record Files : Type 0 where
  pub filp : ℕ → ℕ → Option ℕ
  pub close_on_exec : ℕ → Bits
  pub umask : ℕ → ℕ
  pub leader : ℕ → Bool
  pub start_code : ℕ → ℕ
  pub tty : ℕ → Option ℕ
  pub pwd : ℕ → Option ℕ
  pub root : ℕ → Option ℕ
  pub executable : ℕ → Option ℕ
  pub file_table : ℕ → File
  pub inode_table : ℕ → Inode
  pub tty_pgrp : ℕ → ℕ

pub record System : Type 0 where
  pub proc : Proc
  pub files : Files
  pub tss : ℕ → Tss
  pub last_pid : ℕ
  pub jiffies : ℕ

-- NR_OPEN, NR_FILE and NR_INODE
abbrev pub nr_open : ℕ
nr_open = 20

abbrev pub nr_file : ℕ
nr_file = 64

abbrev pub nr_inode : ℕ
nr_inode = 32

-- A call of code that changes the processes and memory only.
unfoldable pub in_proc : {A : Type 0} → Cmd Proc A → Cmd System A
in_proc f s = elim (f s.proc) [ ok a k ↦ ok a (record s { proc = k }) | panic e ↦ panic e ]

abbrev pub with_mm : Mm → System → System
with_mm m s = record s { proc = record s.proc { mm = m } }

pub in_proc-in_mm :
    {A : Type 0} (f : Cmd Mm A) (s : System) (a : A) (m : Mm)
    → f s.proc.mm ≡ ok a m
    → in_proc (in_mm f) s ≡ ok a (with_mm m s)
unfolding in_proc in_mm
in_proc-in_mm f s a m run = rw (run, in_proc) refl

-- `file_table[f]` changed
abbrev pub on_file : ℕ → (File → File) → Files → Files
on_file f g t = record t { file_table = update t.file_table f (g (t.file_table f)) }

-- `inode_table[i]` changed, where `i` may be a null pointer
abbrev pub on_inode : Option ℕ → (Inode → Inode) → Files → Files
on_inode none g t = t
on_inode (some i) g t = record t { inode_table = update t.inode_table i (g (t.inode_table i)) }

-- `task[k]->filp[fd] = f`
abbrev pub set_filp : ℕ → ℕ → Option ℕ → Files → Files
set_filp k fd f t = record t { filp = update t.filp k (update (t.filp k) fd f) }
