-- ===== src/Tests/Forking.antt =====
-- Tests of kernel/fork.c: task 0 forks, with its memory in the first page table.
use hios.Base.{
  ℕ, ◌^◌, ◌≤◌, ◌<◌, ◌≡◌, ◌≢◌, refl, ◌⊎◌, arith, ◌==◌, if◌then◌else◌, true, false, Option, none,
  some,
}
use hios.Run.{ok}
use hios.Mm.Tables.{dir_count}
use hios.Mm.Tables.Share.{CanFork}
use hios.Sched.{Task, Tasks}
use hios.Proc.Exit.{has_pid}
use hios.System.{Inode, Tss, Files, System}
use hios.Fork.{Regs, find_empty_process, sys_fork}
use hios.Fork.Pid.{find_empty_process-IsUnused}
use hios.Fork.Memory.{OneRegion, base_of}
use hios.Fork.Child.{Child}
use hios.Fork.Counted.{sys_fork-IsCounted}
use hios.Files.Refs.{row, refs}
use hios.Files.Counted.{IsCounted}
use hios.Tests.Paging.{memory, memory-FreeBelow, memory-IsPaged}
use hios.Tests.Exiting.{a_task}

abbrev pub task_0 : Task
task_0 = record (a_task 0 0) {
  code_base = 0;
  code_limit = 0xa0000;
  data_base = 0;
  data_limit = 0xa0000;
}

abbrev pub only_task_0 : Tasks
only_task_0 i = if i == 0 then some task_0 else none

abbrev pub an_inode : Inode
an_inode = record {
  i_mode = 0x81a4;
  i_uid = 0;
  i_size = 0;
  i_mtime = 0;
  i_gid = 0;
  i_nlinks = 1;
  i_zone = λ i. 0;
  i_atime = 0;
  i_ctime = 0;
  i_dev = 0x301;
  i_num = 1;
  i_count = 1;
  i_lock = false;
  i_dirt = false;
  i_pipe = false;
  i_mount = false;
}

-- Descriptors 0 and 1 of task 0 stand for file 0.
abbrev pub files : Files
files = record {
  filp = λ k fd.
      if k == 0 then (if fd == 0 then some 0 else if fd == 1 then some 0 else none) else none;
  close_on_exec = λ k b. false;
  umask = λ k. 18;
  leader = λ k. true;
  start_code = λ k. 0;
  tty = λ k. some 0;
  pwd = λ k. some 0;
  root = λ k. some 0;
  executable = λ k. none;
  file_table = λ f. record {
    f_mode = 0x81a4;
    f_flags = 0;
    f_count = if f == 0 then 2 else 0;
    f_inode = 0;
    f_pos = 0;
  };
  inode_table = λ i. an_inode;
  tty_pgrp = λ i. 0;
}

abbrev a_tss : Tss
a_tss = record {
  back_link = 0;
  esp0 = 0;
  ss0 = 0;
  eip = 0;
  eflags = 0;
  eax = 0;
  ecx = 0;
  edx = 0;
  ebx = 0;
  esp = 0;
  ebp = 0;
  esi = 0;
  edi = 0;
  es = 0;
  cs = 0;
  ss = 0;
  ds = 0;
  fs = 0;
  gs = 0;
  ldt = 0;
  trace_bitmap = 0;
}

abbrev pub system : System
system = record {
  proc = record { task = only_task_0; current = 0; mm = memory };
  files = files;
  tss = λ k. a_tss;
  last_pid = 0;
  jiffies = 100;
}

abbrev regs : Regs
regs = record {
  ebp = 0;
  edi = 0;
  esi = 0;
  gs = 0x17;
  ebx = 0;
  ecx = 0;
  edx = 0;
  fs = 0x17;
  es = 0x17;
  ds = 0x17;
  eip = 0x8000;
  cs = 0x0f;
  eflags = 0x202;
  esp = 0x9000;
  ss = 0x17;
}

pub system-IsCounted : IsCounted only_task_0 files
unfolding row refs
system-IsCounted = record {
  counts = λ f h. ground arith;
  inside = λ k fd f hk hfd l e. ground arith;
}

regions :
    (nr : ℕ) → 1 ≤ nr → nr < 64 → only_task_0 nr ≡ none → CanFork 0 (base_of nr) 0xa0000 memory
unfolding dir_count
regions nr lo hi e = record {
  aligned = omega arith;
  one_table = refl;
  source = refl;
  target = ground arith;
  paged = memory-IsPaged;
  words = λ a. ground arith;
}

task_0-OneRegion : OneRegion task_0
task_0-OneRegion = record { same_base = refl; same_limit = omega arith }

find_empty_process-IsUnused_example :
    (x : ℕ) × (slot : Option ℕ) × (find_empty_process 65 system
      ≡ some (slot, record system { last_pid = x }))
    × (x < 2 ^ 31)
    × ((j : ℕ) → j < 64 → has_pid x (only_task_0 j) ≡ false)
    × ((slot ≡ none) × ((j : ℕ) → 1 ≤ j → j < 64 → only_task_0 j ≢ none)
        ⊎ ((nr : ℕ) × (slot ≡ some nr)
            × (1 ≤ nr)
            × (nr < 64)
            × (only_task_0 nr ≡ none)
            × ((j : ℕ) → 1 ≤ j → j < nr → only_task_0 j ≢ none)))
find_empty_process-IsUnused_example = find_empty_process-IsUnused system (omega arith)

sys_fork-IsCounted_example :
    (pid : Option ℕ) × (s' : System) × (sys_fork 65 regs system ≡ some (ok pid s'))
    × IsCounted s'.proc.task s'.files
sys_fork-IsCounted_example =
    sys_fork-IsCounted regs system task_0 refl (omega arith) (omega arith) task_0-OneRegion regions
      memory-FreeBelow system-IsCounted
