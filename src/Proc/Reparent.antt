-- ===== src/Proc/Reparent.antt =====
-- `do_exit` of kernel/exit.c: what becomes of the children of a task that exits.
use hios.Base.{
  ℕ, zero, suc, ◌+◌, ◌<◌, ◌≡◌, refl, fun_ext, inl, inr, arith, ltb, leb, ◌==◌, ◌&&◌, ◌||◌, update,
  if◌then◌else◌, Bool, true, false, Bool-cases, Option-cases, Option, none, some,
}
use hios.Sched.{Task, Tasks, at_slot}
use hios.Sched.Refill.{at_slot_lem}
use hios.Proc.{Proc, is_zombie, add_signal, set_father, on_slot, send_sig, reparent_slot, reparent}

update_twice : (s : ℕ → Bool) (i : ℕ) → update (update s i true) i true ≡ update s i true
update_twice s i = fun_ext λ j. ground arith

-- Slot `i` holds a zombie child of `pid`.
abbrev pub dead_child : ℕ → Option Task → Bool
dead_child pid none = false
dead_child pid (some t) = t.father == pid && is_zombie t.state

-- One of the `n` slots from `i` on holds a zombie child of `pid`.
unfoldable pub dead_children : ℕ → ℕ → ℕ → Tasks → Bool
dead_children pid i zero ts = false
dead_children pid i (suc n) ts = dead_child pid (ts i) || dead_children pid (suc i) n ts

-- A task whose father has exited goes to task 1, which is told of the dead ones.
abbrev pub adopted : ℕ → Bool → Bool → Task → Task
adopted pid child told t = record t {
  father = if child && (t.father == pid) then 1 else t.father;
  signal = if told then update t.signal 16 true else t.signal;
}

-- `send_sig(SIGCHLD, task[1], 1)`
tell_init :
    (k : Proc) (j : ℕ)
    → (send_sig 17 1 true k).1.task j ≡ (
        if 1 == j
        then elim (k.task j) [ none ↦ none | some t ↦ some (add_signal 17 t) ]
        else k.task j)
unfolding send_sig on_slot
tell_init k j = elim (Option-cases (k.task 1)) [
  | inl e ↦ ground arith
  | inr (u, e) ↦ ground (arith, at_slot_lem (add_signal 17) 1 k.task j)
]

slot_lem :
    (pid i : ℕ) (k : Proc) (j : ℕ)
    → (reparent_slot pid i k).task j ≡ elim (k.task j) [
      | none ↦ none
      | some t ↦ some (adopted pid (i == j) (dead_child pid (k.task i) && (1 == j)) t)
    ]
unfolding reparent_slot on_slot set_father add_signal
slot_lem pid i k j = elim (Option-cases (k.task i)) [
  | inl e ↦ elim (Option-cases (k.task j)) [ inl f ↦ ground arith | inr (u, f) ↦ ground arith ]
  | inr (t, e) ↦ elim (Bool-cases (t.father == pid)) [
    | inr other ↦ elim (Option-cases (k.task j)) [
      | inl f ↦ ground arith
      | inr (u, f) ↦ ground arith
    ]
    | inl mine ↦ elim (Bool-cases (is_zombie t.state)) [
      | inr alive ↦ elim (Option-cases (k.task j)) [
        | inl f ↦ ground (arith, at_slot_lem (set_father 1) i k.task j)
        | inr (u, f) ↦ ground (arith, at_slot_lem (set_father 1) i k.task j)
      ]
      | inl dead ↦ elim (Option-cases (k.task j)) [
        | inl f ↦
            ground (
              arith,
              at_slot_lem (set_father 1) i k.task j,
              tell_init (on_slot (set_father 1) i k) j,
            )
        | inr (u, f) ↦
            ground (
              arith,
              at_slot_lem (set_father 1) i k.task j,
              tell_init (on_slot (set_father 1) i k) j,
            )
      ]
    ]
  ]
]

same_child :
    (pid i : ℕ) (k : Proc) (m : ℕ)
    → i < m
    → dead_child pid ((reparent_slot pid i k).task m) ≡ dead_child pid (k.task m)
same_child pid i k m lt = elim (Option-cases (k.task m)) [
  | inl e ↦ ground (arith, slot_lem pid i k m)
  | inr (t, e) ↦ ground (arith, slot_lem pid i k m)
]

same_children :
    (pid i : ℕ) (k : Proc) (m n : ℕ)
    → i < m
    → dead_children pid m n (reparent_slot pid i k).task ≡ dead_children pid m n k.task
unfolding dead_children
same_children pid i k m zero lt = refl
same_children pid i k m (suc n) lt =
    ground (arith, same_child pid i k m lt, same_children pid i k (suc m) n (omega arith))

adopted_twice :
    (pid : ℕ) (c1 d1 c2 d2 : Bool) (t : Task)
    → c1 && c2 ≡ false
    → adopted pid c2 d2 (adopted pid c1 d1 t) ≡ adopted pid (c1 || c2) (d1 || d2) t
adopted_twice pid c1 d1 c2 d2 t apart = ground (arith, update_twice t.signal 16)

-- The whole loop: the tasks in its slots whose father is `pid` are adopted, and task 1 is told if one
-- of them is dead.
pub reparent_lem :
    (pid i n : ℕ) (k : Proc) (j : ℕ)
    → (reparent pid i n k).task j ≡ elim (k.task j) [
      | none ↦ none
      | some t ↦
          some (adopted pid (leb i j && ltb j (i + n)) (dead_children pid i n k.task && (1 == j)) t)
    ]
unfolding reparent dead_children
reparent_lem pid i zero k j = elim (Option-cases (k.task j)) [
  | inl e ↦ ground arith
  | inr (t, e) ↦ ground arith
]
reparent_lem pid i (suc n) k j =
    let k1 = reparent_slot pid i k in
    let rest = reparent_lem pid (suc i) n k1 j in
    elim (Option-cases (k.task j)) [
      | inl e ↦ ground (arith, rest, slot_lem pid i k j)
      | inr (t, e) ↦
          let d1 : Bool = dead_child pid (k.task i) && (1 == j) in
          let d2 : Bool = dead_children pid (suc i) n k.task && (1 == j) in
          let c2 : Bool = leb (suc i) j && ltb j (suc i + n) in
          let once : k1.task j ≡ some (adopted pid (i == j) d1 t) =
            rw (slot_lem pid i k j, e) refl in
          let told : (dead_children pid (suc i) n k1.task && (1 == j)) ≡ d2 =
            rw (same_children pid i k (suc i) n (omega arith)) refl in
          let twice : (reparent pid (suc i) n k1).task j
              ≡ some (adopted pid c2 d2 (adopted pid (i == j) d1 t)) =
            rw (rest, once, told) refl in
          let both = adopted_twice pid (i == j) d1 c2 d2 t (ground arith) in
          let c : ((i == j) || c2) ≡ (leb i j && ltb j (i + suc n)) = ground arith in
          let d : (d1 || d2) ≡ (dead_children pid i (suc n) k.task && (1 == j)) = ground arith in
          rw (e, reparent) (rw (twice, both, c, d) refl)
    ]

slot_keeps :
    (pid i : ℕ) (k : Proc)
    → ((reparent_slot pid i k).current ≡ k.current) × ((reparent_slot pid i k).mm ≡ k.mm)
unfolding reparent_slot on_slot send_sig
slot_keeps pid i k = elim (Option-cases (k.task i)) [
  | inl e ↦ ground arith
  | inr (t, e) ↦ elim (Bool-cases (t.father == pid)) [
    | inr other ↦ ground arith
    | inl mine ↦ elim (Bool-cases (is_zombie t.state)) [
      | inr alive ↦ ground arith
      | inl dead ↦ elim (Option-cases (at_slot (set_father 1) i k.task 1)) [
        | inl g ↦ ground arith
        | inr (w, g) ↦ ground arith
      ]
    ]
  ]
]

pub reparent_keeps :
    (pid i n : ℕ) (k : Proc)
    → ((reparent pid i n k).current ≡ k.current) × ((reparent pid i n k).mm ≡ k.mm)
unfolding reparent
reparent_keeps pid i zero k = (refl, refl)
reparent_keeps pid i (suc n) k =
    let rest = reparent_keeps pid (suc i) n (reparent_slot pid i k) in
    (rw (rest.0, (slot_keeps pid i k).0) refl, rw (rest.1, (slot_keeps pid i k).1) refl)
