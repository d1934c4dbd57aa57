-- ===== src/Proc/Exit.antt =====
-- `sys_exit` of kernel/exit.c: the state in which an exiting task leaves the others.
use hios.Base.{
  ℕ, zero, suc, ◌<◌, ◌≡◌, ◌≢◌, refl, ap, ◌∙◌, inl, inr, arith, ltb, leb, ◌==◌, ◌&&◌, ◌||◌,
  if◌then◌else◌, Bool, true, false, Bool-cases, Option-cases, Option, none, some,
}
use mathlib.Core.Path.{subst}
use hios.Run.{ok, Cmd, Run-cases}
use hios.Mm.{Mm}
use hios.Mm.Tables.{free_page_tables}
use hios.Sched.{Task, Tasks, zombie}
use hios.Sched.Refill.{at_slot_lem}
use hios.Proc.{
  Proc, in_mm, field, on_slot, add_signal, set_zombie, find_pid, tell_father, reparent, do_exit,
  exit_status, sys_exit,
}
use hios.Proc.Reparent.{dead_children, adopted, reparent_lem, reparent_keeps}

pub in_mm_keeps :
    {A : Type 0} (f : Cmd Mm A) (k : Proc) {a : A} {k' : Proc}
    → in_mm f k ≡ ok a k'
    → (k'.task ≡ k.task) × (k'.current ≡ k.current)
unfolding in_mm
in_mm_keeps f k run = elim (Run-cases (f k.mm)) [
  | inl (a, m, e) ↦ (ground arith, ground arith)
  | inr (p, e) ↦ absurd (ground arith)
]

abbrev pub has_pid : ℕ → Option Task → Bool
has_pid pid none = false
has_pid pid (some t) = t.pid == pid

find_same :
    (pid i n : ℕ) (k k' : Proc)
    → ((j : ℕ) → has_pid pid (k'.task j) ≡ has_pid pid (k.task j))
    → find_pid pid i n k' ≡ find_pid pid i n k
unfolding find_pid
find_same pid i zero k k' h = refl
find_same pid i (suc n) k k' h = ground (arith, h i, find_same pid (suc i) n k k' h)

-- What a task becomes when the task `gone` in slot `current`, whose father is in slot `f`, exits.
pub record Left (ts : Tasks) (gone : Task) (current f code i : ℕ) (u u' : Task) : Type 0 where
  pub father : u'.father ≡ (if u.father == gone.pid then 1 else u.father)
  pub state : u'.state ≡ (if current == i then zombie else u.state)
  pub status : u'.exit_code ≡ (if current == i then code else u.exit_code)
  pub told : i ≡ f → u'.signal 16 ≡ true
  pub init_told : i ≡ 1 → dead_children gone.pid 0 64 ts ≡ true → u'.signal 16 ≡ true

-- The task in slot `current`, and the pid it had, in the state in which `tell_father` is called.
abbrev pub gone_from : ℕ → ℕ → Proc → Proc
gone_from pid code k = let k3 = reparent pid 0 64 k in on_slot (set_zombie code) k3.current k3

gone_lem :
    (pid code : ℕ) (k : Proc) (i : ℕ)
    → (gone_from pid code k).task i ≡ elim (k.task i) [
      | none ↦ none
      | some u ↦
          let v = adopted pid (leb 0 i && ltb i 64) (dead_children pid 0 64 k.task && (1 == i)) u in
          some (if k.current == i then set_zombie code v else v)
    ]
unfolding on_slot
gone_lem pid code k i =
    let k3 = reparent pid 0 64 k in
    let slot = at_slot_lem (set_zombie code) k3.current k3.task i in
    let at_i = reparent_lem pid 0 64 k i in
    let now = (reparent_keeps pid 0 64 k).0 in
    elim (Option-cases (k.task i)) [
      | inl e ↦ rw (slot, at_i, e, now) (ground arith)
      | inr (u, e) ↦ elim (Bool-cases (k.current == i)) [
        | inl here ↦ rw (slot, at_i, e, now, here) refl
        | inr there ↦ rw (slot, at_i, e, now, there) refl
      ]
    ]

gone_pid :
    (pid code : ℕ) (k : Proc) (p i : ℕ)
    → has_pid p ((gone_from pid code k).task i) ≡ has_pid p (k.task i)
unfolding set_zombie
gone_pid pid code k p i = elim (Option-cases (k.task i)) [
  | inl e ↦ ground (arith, gone_lem pid code k i)
  | inr (u, e) ↦ ground (arith, gone_lem pid code k i)
]

pub field_lem : (f : Task → ℕ) (k : Proc) (i : ℕ) (t : Task) → k.task i ≡ some t → field f i k ≡ f t
unfolding field
field_lem f k i t e = rw (e, field) refl

gone_father :
    (pid code : ℕ) (k : Proc) (t : Task)
    → k.task k.current ≡ some t
    → t.father ≢ pid
    → field (λ u. u.father) (gone_from pid code k).current (gone_from pid code k) ≡ t.father
unfolding on_slot set_zombie
gone_father pid code k t e ne =
    let g = gone_from pid code k in
    let cur = k.current in
    let v = adopted pid (leb 0 cur && ltb cur 64) (dead_children pid 0 64 k.task && (1 == cur)) t in
    let there : g.task cur ≡ some (set_zombie code v) = ground (arith, gone_lem pid code k cur) in
    let same : (set_zombie code v).father ≡ t.father = ground arith in
    ap (λ c. field (λ u. u.father) c g) (reparent_keeps pid 0 64 k).0
    ∙ field_lem (λ u. u.father) g cur (set_zombie code v) there
    ∙ same

-- What the loop, the end of the task itself and `tell_father` make of one task.
abbrev pub final : ℕ → ℕ → Bool → Bool → Bool → Bool → Task → Task
final pid code child dead here told u =
    let v = adopted pid child dead u in
    let w = if here then set_zombie code v else v in if told then add_signal 17 w else w

module _ (pid code : ℕ) (child dead here told : Bool) (u : Task) where
  final_father :
      (final pid code child dead here told u).father
      ≡ (if child && (u.father == pid) then 1 else u.father)
  unfolding set_zombie add_signal
  final_father = ground arith

  final_state : (final pid code child dead here told u).state ≡ (if here then zombie else u.state)
  unfolding set_zombie add_signal
  final_state = ground arith

  final_status :
      (final pid code child dead here told u).exit_code ≡ (if here then code else u.exit_code)
  unfolding set_zombie add_signal
  final_status = ground arith

  final_signal : (told || dead) ≡ true → (final pid code child dead here told u).signal 16 ≡ true
  unfolding set_zombie add_signal
  final_signal h = ground arith

-- The task table after the exit, with the father in slot `f` told.
told_Left :
    (k : Proc) (t : Task) (f code i : ℕ) (u : Task)
    → i < 64
    → k.task i ≡ some u
    → (u' : Task) × ((on_slot (add_signal 17) f (gone_from t.pid code k)).task i ≡ some u')
      × Left k.task t k.current f code i u u'
unfolding on_slot
told_Left k t f code i u lt e =
    let child : Bool = leb 0 i && ltb i 64 in
    let dead : Bool = dead_children t.pid 0 64 k.task && (1 == i) in
    let here : Bool = k.current == i in
    let u' = final t.pid code child dead here (f == i) u in
    let child_true : child ≡ true = ground arith in
    let at_i = gone_lem t.pid code k i in
    let there : (on_slot (add_signal 17) f (gone_from t.pid code k)).task i ≡ some u' =
      elim (Bool-cases (f == i)) [
        | inl c ↦
            rw (at_slot_lem (add_signal 17) f (gone_from t.pid code k).task i, at_i, e, c) refl
        | inr c ↦
            rw (at_slot_lem (add_signal 17) f (gone_from t.pid code k).task i, at_i, e, c) refl
      ] in
    (
      u',
      there,
      record {
        father = rw (final_father t.pid code child dead here (f == i) u, child_true) refl;
        state = rw (final_state t.pid code child dead here (f == i) u) refl;
        status = rw (final_status t.pid code child dead here (f == i) u) refl;
        told = λ x. final_signal t.pid code child dead here (f == i) u (ground arith);
        init_told = λ x y. final_signal t.pid code child dead here (f == i) u (ground arith);
      },
    )

tell_father_found :
    (others : Cmd Proc (Unit {0})) (pid f : ℕ) (k : Proc)
    → pid ≢ 0
    → find_pid pid 0 64 k ≡ some f
    → tell_father others pid k ≡ ok tt (on_slot (add_signal 17) f k)
unfolding tell_father
tell_father_found others pid f k ne found =
    let test : (if pid == 0 then none else find_pid pid 0 64 k) ≡ some f = ground arith in
    rw (test, tell_father) refl

-- `sys_exit` of a task whose own pages can be freed and whose father is another living task, in slot
-- `f`, with a pid that is neither 0 nor the task's own. Task 1, whose father is task 0, is not covered.
-- Every child of the exiting task now has task 1 as its father, and no other task changes its father.
-- The task is a zombie with its status, and no other task changes state. The father has SIGCHLD
-- pending, and so has task 1 if one of the children is a zombie. No slot becomes empty, and the code
-- does not panic.
pub sys_exit-Left :
    (others : Cmd Proc (Unit {0})) (error_code f : ℕ) (k k1 k2 : Proc) (t : Task)
    → k.task k.current ≡ some t
    → t.father ≢ t.pid
    → t.father ≢ 0
    → in_mm (free_page_tables t.code_base t.code_limit) k ≡ ok tt k1
    → in_mm (free_page_tables t.data_base t.data_limit) k1 ≡ ok tt k2
    → find_pid t.father 0 64 k ≡ some f
    → (k' : Proc) × (sys_exit others error_code k ≡ ok tt k')
      × ((i : ℕ) (u : Task)
          → i < 64
          → k.task i ≡ some u
          → (u' : Task) × (k'.task i ≡ some u')
            × Left k.task t k.current f (exit_status error_code) i u u')
unfolding sys_exit do_exit
sys_exit-Left others error_code f k k1 k2 t e ne alive run1 run2 found =
    let code = exit_status error_code in
    let (task1, cur1) = in_mm_keeps (free_page_tables t.code_base t.code_limit) k run1 in
    let (task2, cur2) = in_mm_keeps (free_page_tables t.data_base t.data_limit) k1 run2 in
    let e2 : k2.task k2.current ≡ some t = rw (task2, cur2, task1, cur1) e in
    let father = gone_father t.pid code k2 t e2 ne in
    let same : find_pid t.father 0 64 (gone_from t.pid code k2) ≡ some f =
      find_same t.father 0 64 k (gone_from t.pid code k2) (λ j.
        gone_pid t.pid code k2 t.father j ∙ ap (has_pid t.father) (ap (λ ts. ts j) (task2 ∙ task1)))
      ∙ found in
    (
      on_slot (add_signal 17) f (gone_from t.pid code k2),
      rw (e, do_exit, run1, run2, father)
          (tell_father_found others t.father f (gone_from t.pid code k2) alive same),
      λ i u lt at_i.
          let (u', there, left) =
            told_Left k2 t f code i u lt (ap (λ ts. ts i) (task2 ∙ task1) ∙ at_i) in
          (
            u',
            there,
            subst (λ ts. Left ts t k.current f code i u u') (task2 ∙ task1)
                (subst (λ c. Left k2.task t c f code i u u') (cur2 ∙ cur1) left),
          ),
    )
