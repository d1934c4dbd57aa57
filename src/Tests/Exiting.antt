-- ===== src/Tests/Exiting.antt =====
-- Tests of kernel/exit.c, on a table with task 0 and its child.
use hios.Base.{ℕ, ◌<◌, ◌≡◌, refl, arith, leb, ◌==◌, ◌&&◌, if◌then◌else◌, false, none, some}
use hios.Run.{ok, Cmd}
use hios.Errno.{ret}
use hios.Mm.{Mm}
use hios.Mm.Tables.{free_page_tables, dir_count, free_dirs}
use hios.Sched.{Task, Tasks, running, zombie}
use hios.Proc.{Proc, sys_kill, sys_exit, exit_status, in_mm, find_pid}
use hios.Proc.Kill.{signalled, sys_kill-signalled}
use hios.Proc.Exit.{Left, sys_exit-Left}

abbrev pub a_task : ℕ → ℕ → Task
a_task pid father = record {
  page = 0x100000;
  state = running;
  counter = 15;
  priority = 15;
  signal = λ b. false;
  blocked = λ b. false;
  exit_code = 0;
  pid = pid;
  father = father;
  pgrp = 0;
  euid = 0;
  alarm = 0;
  utime = 0;
  stime = 0;
  cutime = 0;
  cstime = 0;
  start_time = 0;
  code_base = 0x4000000;
  code_limit = 0;
  data_base = 0x4000000;
  data_limit = 0;
}

-- Task 2 is a child of task 1 and the father of task 3, which is a zombie.
abbrev table : Tasks
table i =
    if i == 0
    then some (a_task 0 0)
    else if i == 1
    then some (a_task 1 0)
    else if i == 2
    then some (a_task 2 1)
    else if i == 3
    then some (record (a_task 3 2) { state = zombie })
    else none

abbrev empty_memory : Mm
empty_memory = record { high_memory = 0x1000000; mem_map = λ i. 0; word = λ a. 0 }

abbrev machine : Proc
machine = record { task = table; current = 2; mm = empty_memory }

-- Other tasks that change nothing.
abbrev idle : Cmd Proc (Unit {0})
idle k = ok tt k

sys_kill-signalled_example :
    ((sys_kill (some 2) 9 machine).0 ≡ ret 0)
    × ((i : ℕ)
        → (sys_kill (some 2) 9 machine).1.task i ≡ (
            if leb 1 i && leb i 63
            then elim (table i) [
              | none ↦ none
              | some t ↦ some (if t.pid == 2 then signalled 9 t else t)
            ]
            else table i))
sys_kill-signalled_example = sys_kill-signalled 2 9 machine (omega arith) (omega arith)

frees : in_mm (free_page_tables 0x4000000 0) machine ≡ ok tt machine
unfolding in_mm free_page_tables dir_count free_dirs
frees = refl

finds : find_pid 1 0 64 machine ≡ some 1
unfolding find_pid
finds = refl

sys_exit-Left_example :
    (k' : Proc) × (sys_exit idle 7 machine ≡ ok tt k')
    × ((i : ℕ) (u : Task)
        → i < 64
        → table i ≡ some u
        → (u' : Task) × (k'.task i ≡ some u') × Left table (a_task 2 1) 2 1 (exit_status 7) i u u')
sys_exit-Left_example =
    sys_exit-Left idle 7 1 machine machine machine (a_task 2 1) refl (omega arith) (omega arith)
      frees frees finds
