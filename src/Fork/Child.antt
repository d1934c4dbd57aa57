-- ===== src/Fork/Child.antt =====
-- `copy_process` and `sys_fork`: the child, and the state when there is none.
use hios.Base.{
  ℕ, zero, suc, ◌+◌, ◌-◌, ◌^◌, ◌≤◌, ◌<◌, ◌≡◌, ◌≢◌, refl, ◌⊎◌, inl, inr, ◌∙◌, ap, arith, ◌==◌,
  if◌then◌else◌, Bool-cases, false, update, Option-cases, none, some, Option,
}
use hios.Run.{ok}
use hios.Mm.{Mm, paging_pages, map_nr}
use hios.Mm.Pages.{get_free_page, free_page}
use hios.Mm.Pages.Alloc.{Taken, Taken-bounds, get_free_page-Taken, free_page_cases}
use hios.Mm.Pages.Init.{FreeBelow}
use hios.Mm.Tables.{done, minus_one, copy_page_tables}
use hios.Mm.Tables.Share.{CanFork, Forked, copy_page_tables-Forked}
use hios.Sched.{Task, running, at_slot}
use hios.Sched.Refill.{at_slot_lem}
use hios.Proc.{on_slot}
use hios.System.{Files, System, nr_open, with_mm, in_proc-in_mm, on_inode}
use hios.Files.Refs.{ref, row, row_cong}
use hios.Fork.{
  Regs, child_task, child_tss, child_files, new_task, set_bases, place_child, share_file,
  share_files, more_inode, share_inodes, set_running, start_child, clear_slot, copy_process,
}
use hios.Fork.Memory.{
  OneRegion, base_of, Taken-CanFork, free_page_tables-absent, copy_mem-done, copy_mem-minus_one,
}

share_files-filp :
    (nr i n : ℕ) (t : Files)
    → ((share_files nr i n t).filp ≡ t.filp)
      × ((share_files nr i n t).close_on_exec ≡ t.close_on_exec)
      × ((share_files nr i n t).inode_table ≡ t.inode_table)
      × ((share_files nr i n t).pwd ≡ t.pwd)
      × ((share_files nr i n t).root ≡ t.root)
      × ((share_files nr i n t).executable ≡ t.executable)
unfolding share_files share_file
share_files-filp nr i zero t = (refl, refl, refl, refl, refl, refl)
share_files-filp nr i (suc n) t =
    let rest = share_files-filp nr (suc i) n (share_file nr i t) in
    elim (Option-cases (t.filp nr i)) [
      | inl e ↦ ground (arith, rest)
      | inr (f, e) ↦ ground (arith, rest)
    ]

-- The use count of a file after the loop over the descriptors from `i` on.
share_files-count :
    (nr f i n : ℕ) (t : Files)
    → (t.file_table f).f_count + n < 2 ^ 16
    → ((share_files nr i n t).file_table f).f_count + row (t.filp nr) f i
      ≡ (t.file_table f).f_count + row (t.filp nr) f (i + n)
unfolding share_files share_file row
share_files-count nr f i zero t fits = ground arith
share_files-count nr f i (suc n) t fits =
    let rest = share_files-count nr f (suc i) n (share_file nr i t) in
    elim (Option-cases (t.filp nr i)) [
      | inl e ↦ ground (arith, rest)
      | inr (g, e) ↦ ground (arith, rest)
    ]

on_inode_lem :
    (i : Option ℕ) (t : Files)
    → ((on_inode i more_inode t).filp ≡ t.filp)
      × ((on_inode i more_inode t).file_table ≡ t.file_table)
      × ((on_inode i more_inode t).pwd ≡ t.pwd)
      × ((on_inode i more_inode t).root ≡ t.root)
      × ((on_inode i more_inode t).executable ≡ t.executable)
      × ((j : ℕ)
          → (t.inode_table j).i_count + 1 < 2 ^ 16
          → ((on_inode i more_inode t).inode_table j).i_count ≡ (t.inode_table j).i_count + ref j i)
on_inode_lem none t = (refl, refl, refl, refl, refl, λ j fits. omega arith)
on_inode_lem (some i) t = (refl, refl, refl, refl, refl, λ j fits. ground arith)

share_inodes_lem :
    (k : ℕ) (t : Files)
    → ((share_inodes k t).filp ≡ t.filp)
      × ((share_inodes k t).file_table ≡ t.file_table)
      × ((j : ℕ)
          → (t.inode_table j).i_count + 3 < 2 ^ 16
          → ((share_inodes k t).inode_table j).i_count
            ≡ (t.inode_table j).i_count
              + ref j (t.pwd k)
              + ref j (t.root k)
              + ref j (t.executable k))
unfolding share_inodes
share_inodes_lem k t =
    let t1 = on_inode (t.pwd k) more_inode t in
    let t2 = on_inode (t1.root k) more_inode t1 in
    let (f1, a1, p1, r1, e1, c1) = on_inode_lem (t.pwd k) t in
    let (f2, a2, p2, r2, e2, c2) = on_inode_lem (t1.root k) t1 in
    let (f3, a3, p3, r3, e3, c3) = on_inode_lem (t2.executable k) t2 in
    (
      f3 ∙ f2 ∙ f1,
      a3 ∙ a2 ∙ a1,
      λ j fits.
          let root : ref j (t1.root k) ≡ ref j (t.root k) = ap (λ g. ref j (g k)) r1 in
          let exec : ref j (t2.executable k) ≡ ref j (t.executable k) =
            ap (λ g. ref j (g k)) (e2 ∙ e1) in
          let b1 : ref j (t.pwd k) ≤ 1 = ref-le j (t.pwd k) in
          let b2 : ref j (t.root k) ≤ 1 = ref-le j (t.root k) in
          let d1 = c1 j (omega arith) in
          let d2 = c2 j (omega arith) in let d3 = c3 j (omega arith) in omega arith,
    )
  where
    ref-le : (j : ℕ) (o : Option ℕ) → ref j o ≤ 1
    ref-le j none = omega arith
    ref-le j (some i) = ground arith

-- In `s'` slot `nr` holds the child of the current task `t`, which starts at the registers `r`.
pub record Child (nr : ℕ) (r : Regs) (t : Task) (s s' : System) : Type 0 where
  pub page : ℕ
  pub mm : Mm
  pub taken : Taken s.proc.mm page mm
  pub task :
      s'.proc.task nr
      ≡ some (record t {
        page = page;
        state = running;
        counter = t.priority;
        signal = λ _. false;
        pid = s.last_pid;
        father = t.pid;
        alarm = 0;
        utime = 0;
        stime = 0;
        cutime = 0;
        cstime = 0;
        start_time = s.jiffies;
        code_base = base_of nr;
        data_base = base_of nr;
      })
  pub other_tasks : (j : ℕ) → j ≢ nr → s'.proc.task j ≡ s.proc.task j
  pub same_current : s'.proc.current ≡ s.proc.current
  pub memory : Forked t.data_base (base_of nr) mm s'.proc.mm
  pub returns_zero : (s'.tss nr).eax ≡ 0
  pub resumes : ((s'.tss nr).eip ≡ r.eip) × ((s'.tss nr).esp ≡ r.esp)
  pub kernel_stack : (s'.tss nr).esp0 ≡ page + 4096
  pub same_files : (fd : ℕ) → s'.files.filp nr fd ≡ s.files.filp s.proc.current fd
  pub other_files : (j fd : ℕ) → j ≢ nr → s'.files.filp j fd ≡ s.files.filp j fd
  -- Each descriptor that the child has counts, and each inode that it refers to.
  pub counts :
      (f : ℕ)
      → (s.files.file_table f).f_count + nr_open < 2 ^ 16
      → (s'.files.file_table f).f_count
        ≡ (s.files.file_table f).f_count + row (s.files.filp s.proc.current) f nr_open
  pub inode_counts :
      (i : ℕ)
      → (s.files.inode_table i).i_count + 3 < 2 ^ 16
      → (s'.files.inode_table i).i_count
        ≡ (s.files.inode_table i).i_count
          + ref i (s.files.pwd s.proc.current)
          + ref i (s.files.root s.proc.current)
          + ref i (s.files.executable s.proc.current)

-- There is no child: every task, every use count of a page, every file and every inode is as before.
pub record NoChild (nr : ℕ) (s s' : System) : Type 0 where
  pub same_tasks : (j : ℕ) → s'.proc.task j ≡ s.proc.task j
  pub no_task : (s'.proc.task nr ≡ none) ⊎ (64 ≤ nr)
  pub same_current : s'.proc.current ≡ s.proc.current
  pub same_counts : (j : ℕ) → s'.proc.mm.mem_map j ≡ s.proc.mm.mem_map j
  pub same_tables :
      (s'.files.file_table ≡ s.files.file_table) × (s'.files.inode_table ≡ s.files.inode_table)
  pub other_files : (j fd : ℕ) → j ≢ nr → s'.files.filp j fd ≡ s.files.filp j fd

module _ (nr : ℕ) (r : Regs) (s : System) (t : Task) (here : s.proc.task s.proc.current ≡ some t)
    (empty : s.proc.task nr ≡ none) (small : nr < 64) (pos : 1 ≤ nr) (one : OneRegion t) where
  abbrev p : ℕ
  p = (get_free_page s.proc.mm).0

  abbrev m1 : Mm
  m1 = (get_free_page s.proc.mm).1

  -- the state in which `copy_mem` is called
  abbrev begun : System
  begun = new_task nr p r (with_mm m1 s)

  apart : s.proc.current ≢ nr
  apart e = ground arith

  begun_here : begun.proc.task begun.proc.current ≡ some t
  unfolding new_task
  begun_here = ground (arith, apart, here)

  begun_child : begun.proc.task nr ≡ some (child_task p s.last_pid t.pid s.jiffies t)
  unfolding new_task
  begun_child = ground (arith, here)

  none_free : get_free_page s.proc.mm ≡ (0, s.proc.mm) → copy_process nr r s ≡ ok none s
  unfolding copy_process
  none_free e = rw (e, copy_process) refl

  module _ (taken : Taken s.proc.mm p m1) where
    nonzero : (p == 0) ≡ false
    nonzero = ground (arith, Taken-bounds taken)

    runs :
        (m2 : Mm)
        → copy_page_tables t.data_base (base_of nr) t.data_limit m1 ≡ ok done m2
        → copy_process nr r s
          ≡ ok (some s.last_pid) (start_child nr (with_mm m2 (place_child nr (base_of nr) begun)))
    unfolding copy_process new_task place_child
    runs m2 run =
        let copies = copy_mem-done nr begun t begun_here small one m2 run in
        rw (nonzero, copies, copy_process) refl

    -- What stays in the slots.
    ended_task :
        (m2 : Mm) (j : ℕ)
        → (start_child nr (with_mm m2 (place_child nr (base_of nr) begun))).proc.task j ≡ (
            if nr == j
            then some
                (set_running (set_bases (base_of nr) (child_task p s.last_pid t.pid s.jiffies t)))
            else s.proc.task j)
    unfolding start_child place_child on_slot new_task
    ended_task m2 j =
        let placed = at_slot (set_bases (base_of nr)) nr begun.proc.task in
        elim (Bool-cases (nr == j)) [
          | inl same ↦
              rw
                (
                  at_slot_lem set_running nr placed j,
                  at_slot_lem (set_bases (base_of nr)) nr begun.proc.task j,
                  same,
                  here,
                )
                refl
          | inr other ↦
              rw
                (
                  at_slot_lem set_running nr placed j,
                  at_slot_lem (set_bases (base_of nr)) nr begun.proc.task j,
                  other,
                )
                refl
        ]

    ended_filp :
        (m2 : Mm)
        → (start_child nr (with_mm m2 (place_child nr (base_of nr) begun))).files.filp
          ≡ update s.files.filp nr (s.files.filp s.proc.current)
    unfolding start_child place_child new_task child_files on_slot
    ended_filp m2 =
        let placed = (place_child nr (base_of nr) begun).files in
        (share_inodes_lem s.proc.current (share_files nr 0 20 placed)).0
        ∙ (share_files-filp nr 0 20 placed).0

    ended_counts :
        (m2 : Mm) (f : ℕ)
        → (s.files.file_table f).f_count + nr_open < 2 ^ 16
        → ((start_child nr (with_mm m2 (place_child nr (base_of nr) begun))).files.file_table
            f).f_count
          ≡ (s.files.file_table f).f_count + row (s.files.filp s.proc.current) f nr_open
    unfolding start_child place_child new_task child_files on_slot row
    ended_counts m2 f fits =
        let placed = (place_child nr (base_of nr) begun).files in
        let after = (share_inodes_lem s.proc.current (share_files nr 0 20 placed)).1 in
        let mine : row (placed.filp nr) f 20 ≡ row (s.files.filp s.proc.current) f 20 =
          row_cong (s.files.filp s.proc.current) (placed.filp nr) f 20 (λ fd. ground arith) in
        let shared = share_files-count nr f 0 20 placed fits in
        rw after (omega (arith, shared, mine))

    ended_inodes :
        (m2 : Mm) (i : ℕ)
        → (s.files.inode_table i).i_count + 3 < 2 ^ 16
        → ((start_child nr (with_mm m2 (place_child nr (base_of nr) begun))).files.inode_table
            i).i_count
          ≡ (s.files.inode_table i).i_count
            + ref i (s.files.pwd s.proc.current)
            + ref i (s.files.root s.proc.current)
            + ref i (s.files.executable s.proc.current)
    unfolding start_child place_child new_task child_files on_slot
    ended_inodes m2 i fits =
        let k = s.proc.current in
        let placed = (place_child nr (base_of nr) begun).files in
        let (fp, ce, ino, pw, ro, ex) = share_files-filp nr 0 20 placed in
        let same : ((share_files nr 0 20 placed).inode_table i).i_count
            ≡ (s.files.inode_table i).i_count =
          ap (λ g. (g i).i_count) ino in
        let pwd : ref i ((share_files nr 0 20 placed).pwd k) ≡ ref i (s.files.pwd k) =
          rw pw (ground arith) in
        let root : ref i ((share_files nr 0 20 placed).root k) ≡ ref i (s.files.root k) =
          rw ro (ground arith) in
        let exec : ref i ((share_files nr 0 20 placed).executable k)
            ≡ ref i (s.files.executable k) =
          rw ex (ground arith) in
        let after = (share_inodes_lem k (share_files nr 0 20 placed)).2 i (omega arith) in
        omega (arith, after)

    is_Child :
        (m2 : Mm)
        → Forked t.data_base (base_of nr) m1 m2
        → Child nr r t s (start_child nr (with_mm m2 (place_child nr (base_of nr) begun)))
    unfolding start_child place_child new_task child_tss on_slot set_running set_bases child_task
    is_Child m2 forked = record {
      page = p;
      mm = m1;
      taken = taken;
      task = rw (ended_task m2 nr) (ground arith);
      other_tasks = λ j ne. rw (ended_task m2 j) (ground arith);
      same_current = refl;
      memory = forked;
      returns_zero = ground arith;
      resumes = (ground arith, ground arith);
      kernel_stack = ground arith;
      same_files = λ fd. rw (ended_filp m2) (ground arith);
      other_files = λ j fd ne. rw (ended_filp m2) (ground arith);
      counts = ended_counts m2;
      inode_counts = ended_inodes m2;
    }

    -- `free_page(p)` after `copy_mem` failed
    given_back :
        FreeBelow s.proc.mm
        → (m3 : Mm) × (free_page p m1 ≡ ok tt m3) × ((j : ℕ) → m3.mem_map j ≡ s.proc.mm.mem_map j)
    given_back top =
        let b = Taken-bounds taken in
        let i : map_nr p ≡ taken.index = omega (arith, taken.address) in
        let below = top.1 taken.index taken.in_range taken.was_free in
        (
          record m1 { mem_map = update m1.mem_map (map_nr p) (m1.mem_map (map_nr p) - 1) },
          ground (
            arith,
            free_page_cases p m1,
            taken.marked (map_nr p),
            taken.same_top,
            taken.address,
            b,
            i,
            below,
          ),
          λ j. ground (arith, taken.marked j, taken.marked (map_nr p), taken.was_free, i),
        )

    fails :
        CanFork t.data_base (base_of nr) t.data_limit m1
        → FreeBelow s.proc.mm
        → copy_page_tables t.data_base (base_of nr) t.data_limit m1 ≡ ok minus_one m1
        → (s' : System) × (copy_process nr r s ≡ ok none s') × NoChild nr s s'
    unfolding copy_process new_task place_child clear_slot child_files on_slot
    fails can top run =
        let absent =
          free_page_tables-absent t.data_base (base_of nr) t.data_limit m1 can (omega arith) in
        let copies = copy_mem-minus_one nr begun t begun_here small one m1 m1 run absent in
        let (m3, frees, counts) = given_back top in
        let cleared = clear_slot nr (with_mm m1 (place_child nr (base_of nr) begun)) in
        let call = in_proc-in_mm (free_page p) cleared tt m3 frees in
        (
          with_mm m3 cleared,
          rw (nonzero, copies, copy_process) (rw call refl),
          record {
            same_tasks = λ j.
                ground (arith, at_slot_lem (set_bases (base_of nr)) nr begun.proc.task j, empty);
            no_task =
                inl (ground (arith, at_slot_lem (set_bases (base_of nr)) nr begun.proc.task nr));
            same_current = refl;
            same_counts = counts;
            same_tables = (refl, refl);
            other_files = λ j fd ne. ground arith;
          },
        )

-- `copy_process` into an empty slot, of a task whose memory can be copied. Either there is a child in
-- the slot, with the pid chosen before, or a page is missing and nothing is left of the attempt: the
-- result is -1 and every task, every use count, every file and every inode is as before. No page at or
-- above the end of memory counts as free.
pub copy_process-Child :
    (nr : ℕ) (r : Regs) (s : System) (t : Task)
    → s.proc.task s.proc.current ≡ some t
    → s.proc.task nr ≡ none
    → 1 ≤ nr
    → nr < 64
    → OneRegion t
    → CanFork t.data_base (base_of nr) t.data_limit s.proc.mm
    → FreeBelow s.proc.mm
    → ((s' : System) × (copy_process nr r s ≡ ok (some s.last_pid) s') × Child nr r t s s')
      ⊎ (((i : ℕ) → i < paging_pages → (get_free_page s.proc.mm).1.mem_map i ≢ 0)
          × (s' : System) × (copy_process nr r s ≡ ok none s')
          × NoChild nr s s')
copy_process-Child nr r s t here empty pos small one can top =
    elim (get_free_page-Taken s.proc.mm) [
      | inl (e, all) ↦ inr (
        λ i lt. rw e (all i lt),
        s,
        none_free nr r s t here empty small pos one e,
        record {
          same_tasks = λ j. refl;
          no_task = inl empty;
          same_current = refl;
          same_counts = λ j. refl;
          same_tables = (refl, refl);
          other_files = λ j fd ne. refl;
        },
      )
      | inr taken ↦
          let m1 = (get_free_page s.proc.mm).1 in
          let can1 = Taken-CanFork taken can in
          elim (copy_page_tables-Forked t.data_base (base_of nr) t.data_limit m1 can1) [
            | inl (e, all) ↦
                let (s', gives, failed) =
                  fails nr r s t here empty small pos one taken can1 top e in
                inr (all, s', gives, failed)
            | inr (m2, run, forked) ↦ inl (
              start_child nr (
                  with_mm m2
                    (place_child nr (base_of nr) (begun nr r s t here empty small pos one))),
              runs nr r s t here empty small pos one taken m2 run,
              is_Child nr r s t here empty small pos one taken m2 forked,
            )
          ]
    ]
