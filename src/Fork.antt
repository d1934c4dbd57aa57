-- ===== src/Fork.antt =====
-- kernel/fork.c: `copy_process` and what it calls. The tests and writes of the segment descriptors
-- in the GDT and the saving of the coprocessor's registers are left out: no modelled code reads them.
-- What a task structure holds is in the task table and not in the words of its page.
pub mod Pid
pub mod Memory
pub mod Child
pub mod Syscall
pub mod Counted
pub mod Verify
use hios.Base.{
  ℕ, zero, suc, ◌+◌, ◌-◌, ◌*◌, ◌/◌, ◌%◌, ◌^◌, ltb, leb, ◌==◌, ◌&&◌, ◌||◌, not, Bool, true, false,
  if◌then◌else◌, update, Option, none, some, first, is_null,
}
use hios.Run.{Run, ok, panic, Cmd, and_then, not_overlapped, bad_data_limit}
use hios.Mm.{Mm}
use hios.Mm.Pages.{get_free_page, free_page}
use hios.Mm.Tables.{Copied, done, minus_one, copy_page_tables, free_page_tables, write_verify}
use hios.Sched.{Task, Tasks, running, uninterruptible}
use hios.Proc.{Proc, field, in_mm, on_slot, find_pid}
use hios.System.{Inode, Tss, Files, System, nr_open, in_proc, on_file, on_inode}
use hios.Files.{more_count}

-- The registers on the stack of a system call that are arguments of `copy_process`.
pub record Regs : Type 0 where
  pub ebp : ℕ
  pub edi : ℕ
  pub esi : ℕ
  pub gs : ℕ
  pub ebx : ℕ
  pub ecx : ℕ
  pub edx : ℕ
  pub fs : ℕ
  pub es : ℕ
  pub ds : ℕ
  pub eip : ℕ
  pub cs : ℕ
  pub eflags : ℕ
  pub esp : ℕ
  pub ss : ℕ

-- The loop of `find_empty_process` that looks for a pid. A `long` that overflows is negative, and
-- becomes 1. `none` means that the loop is still running when the fuel ends.
unfoldable pub choose_pid : ℕ → ℕ → ℕ → Proc → Option ℕ
choose_pid zero tmp last_pid k = none
choose_pid (suc fuel) tmp last_pid k =
    let next = choose_pid fuel tmp (if leb (2 ^ 31) (last_pid + 1) then 1 else last_pid + 1) k in
    elim (find_pid last_pid 0 64 k) [
      | none ↦ some last_pid
      | some i ↦ if last_pid + 1 == tmp then some (last_pid + 1) else next
    ]

-- The slot, or `none` for -1
unfoldable pub find_empty_process : ℕ → System → Option (Option ℕ × System)
find_empty_process fuel s = elim (choose_pid fuel s.last_pid s.last_pid s.proc) [
  | none ↦ none
  | some pid ↦ some (first (λ i. is_null (s.proc.task i)) 1 63, record s { last_pid = pid })
]

-- The assignments to the fields of `*p` after `*p = *current`, but for those of its TSS.
unfoldable pub child_task : ℕ → ℕ → ℕ → ℕ → Task → Task
child_task p pid father jiffies t = record t {
  page = p;
  state = uninterruptible;
  pid = pid;
  father = father;
  counter = t.priority;
  signal = λ _. false;
  alarm = 0;
  utime = 0;
  stime = 0;
  cutime = 0;
  cstime = 0;
  start_time = jiffies;
}

-- `_LDT(nr)`: the selector of the LDT of task `nr`
abbrev pub ldt_selector : ℕ → ℕ
ldt_selector nr = nr * 16 + 5 * 8

unfoldable pub child_tss : ℕ → ℕ → Regs → Tss
child_tss nr p r = record {
  back_link = 0;
  esp0 = 4096 + p;
  ss0 = 0x10;
  eip = r.eip;
  eflags = r.eflags;
  eax = 0;
  ecx = r.ecx;
  edx = r.edx;
  ebx = r.ebx;
  esp = r.esp;
  ebp = r.ebp;
  esi = r.esi;
  edi = r.edi;
  es = r.es % 2 ^ 16;
  cs = r.cs % 2 ^ 16;
  ss = r.ss % 2 ^ 16;
  ds = r.ds % 2 ^ 16;
  fs = r.fs % 2 ^ 16;
  gs = r.gs % 2 ^ 16;
  ldt = ldt_selector nr;
  trace_bitmap = 0x80000000;
}

-- What `*p = *current` copies of the fields that are arrays here, and `p->leader = 0`.
unfoldable pub child_files : ℕ → ℕ → Files → Files
child_files nr k t = record t {
  filp = update t.filp nr (t.filp k);
  close_on_exec = update t.close_on_exec nr (t.close_on_exec k);
  umask = update t.umask nr (t.umask k);
  leader = update t.leader nr false;
  start_code = update t.start_code nr (t.start_code k);
  tty = update t.tty nr (t.tty k);
  pwd = update t.pwd nr (t.pwd k);
  root = update t.root nr (t.root k);
  executable = update t.executable nr (t.executable k);
}

-- `task[nr] = p; *p = *current; …`
unfoldable pub new_task : ℕ → ℕ → Regs → System → System
new_task nr p r s =
    let k = s.proc in
    let child : Option Task = elim (k.task k.current) [
      | none ↦ none
      | some t ↦ some (child_task p s.last_pid t.pid s.jiffies t)
    ] in
    record s {
      proc = record k { task = update k.task nr child };
      files = child_files nr k.current s.files;
      tss = update s.tss nr (child_tss nr p r);
    }

-- `set_base(p->ldt[1], base); set_base(p->ldt[2], base)`
unfoldable pub set_bases : ℕ → Task → Task
set_bases base t = record t { code_base = base; data_base = base }

unfoldable pub place_child : ℕ → ℕ → System → System
place_child nr base s = record s {
  proc = on_slot (set_bases base) nr s.proc;
  files = record s.files { start_code = update s.files.start_code nr base };
}

unfoldable pub copy_mem : ℕ → System → Run System Copied
copy_mem nr s =
    let k = s.proc in
    let old_base = field (λ u. u.data_base) k.current k in
    let data_limit = field (λ u. u.data_limit) k.current k in
    let new_base = nr * 0x4000000 % 2 ^ 32 in
    if not (field (λ u. u.code_base) k.current k == old_base)
    then panic not_overlapped
    else if ltb data_limit (field (λ u. u.code_limit) k.current k)
    then panic bad_data_limit
    else and_then
        (in_proc (in_mm (copy_page_tables old_base new_base data_limit))
          (place_child nr new_base s))
        (λ r s1. elim r [
          | done ↦ ok done s1
          | minus_one ↦
              and_then (in_proc (in_mm (free_page_tables new_base data_limit)) s1)
                (λ _ s2. ok minus_one s2)
        ])

-- `if ((f = p->filp[i])) f->f_count++;`
unfoldable pub share_file : ℕ → ℕ → Files → Files
share_file nr i t = elim (t.filp nr i) [ none ↦ t | some f ↦ on_file f more_count t ]

-- The loop around it, with `n` descriptors left from `i` on.
unfoldable pub share_files : ℕ → ℕ → ℕ → Files → Files
share_files nr i zero t = t
share_files nr i (suc n) t = share_files nr (suc i) n (share_file nr i t)

-- `i_count++` on an unsigned short
abbrev pub more_inode : Inode → Inode
more_inode i = record i { i_count = (i.i_count + 1) % 2 ^ 16 }

unfoldable pub share_inodes : ℕ → Files → Files
share_inodes k t =
    let t1 = on_inode (t.pwd k) more_inode t in
    let t2 = on_inode (t1.root k) more_inode t1 in on_inode (t2.executable k) more_inode t2

unfoldable pub set_running : Task → Task
set_running t = record t { state = running }

-- The end of `copy_process`, when the memory is copied.
unfoldable pub start_child : ℕ → System → System
start_child nr s = record s {
  proc = on_slot set_running nr s.proc;
  files = share_inodes s.proc.current (share_files nr 0 nr_open s.files);
}

-- `task[nr] = NULL`
unfoldable pub clear_slot : ℕ → System → System
clear_slot nr s = record s { proc = record s.proc { task = update s.proc.task nr none } }

-- The result is the pid of the child, or `none` for -1.
unfoldable pub copy_process : ℕ → Regs → System → Run System (Option ℕ)
copy_process nr r s =
    let (p, m) = get_free_page s.proc.mm in
    let s1 = record s { proc = record s.proc { mm = m } } in
    if p == 0
    then ok none s1
    else and_then (copy_mem nr (new_task nr p r s1)) (λ c s2. elim c [
      | done ↦ ok (some s2.last_pid) (start_child nr s2)
      | minus_one ↦ and_then (in_proc (in_mm (free_page p)) (clear_slot nr s2)) (λ _ s3. ok none s3)
    ])

-- `sys_fork` of kernel/system_call.s, which calls the two. The fuel is that of `find_empty_process`.
unfoldable pub sys_fork : ℕ → Regs → System → Option (Run System (Option ℕ))
sys_fork fuel r s = elim (find_empty_process fuel s) [
  | none ↦ none
  | some (none, s1) ↦ some (ok none s1)
  | some (some nr, s1) ↦ some (copy_process nr r s1)
]

-- The loop of `verify_area`, where `size` is negative from 2^31 on. `none` means that it is still
-- running when the fuel ends.
unfoldable pub verify_pages : ℕ → ℕ → ℕ → Mm → Run Mm (Option (Unit {0}))
verify_pages zero size start m = ok none m
verify_pages (suc fuel) size start m =
    if ltb 0 size && ltb size (2 ^ 31)
    then and_then (write_verify start m)
        (λ _ m1. verify_pages fuel ((size + 2 ^ 32 - 4096) % 2 ^ 32) ((start + 4096) % 2 ^ 32) m1)
    else ok (some tt) m

unfoldable pub verify_area : ℕ → ℕ → ℕ → Proc → Run Proc (Option (Unit {0}))
verify_area fuel addr size k =
    let base = field (λ u. u.data_base) k.current k in
    in_mm (verify_pages fuel ((size + addr % 4096) % 2 ^ 32) ((addr / 4096 * 4096 + base) % 2 ^ 32))
      k

-- What `verify_area` means to do: `write_verify` on `n` pages in turn, from the linear address `start`.
unfoldable pub write_pages : ℕ → ℕ → Mm → Run Mm (Unit {0})
write_pages zero start m = ok tt m
write_pages (suc n) start m =
    and_then (write_verify start m) (λ _ m1. write_pages n ((start + 4096) % 2 ^ 32) m1)
