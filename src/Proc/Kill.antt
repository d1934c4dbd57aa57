-- ===== src/Proc/Kill.antt =====
-- `sys_kill` of kernel/exit.c: which tasks get the signal.
use hios.Base.{
  ℕ, zero, suc, ◌-◌, ◌≤◌, ◌≡◌, refl, inl, inr, arith, leb, ◌==◌, ◌&&◌, update, if◌then◌else◌, Bool,
  true, Bool-cases, Option-cases, none, some,
}
use hios.Errno.{Ret, ret}
use hios.Sched.{Task}
use hios.Sched.Refill.{at_slot_lem}
use hios.Proc.{Proc, on_slot, add_signal, send_sig, kill_slot, kill_loop, sys_kill}

-- `t` with signal `sig` pending
abbrev pub signalled : ℕ → Task → Task
signalled sig t = record t { signal = update t.signal (sig - 1) true }

-- What `sys_kill` does to one task.
abbrev pub hit : ℕ → ℕ → Task → Task
hit pid sig t = if t.pid == pid then signalled sig t else t

abbrev pub valid : ℕ → Bool
valid sig = leb 1 sig && leb sig 32

kill_slot_task :
    (pid sig p i : ℕ) (r : Ret ℕ) (k : Proc)
    → valid sig ≡ true
    → (kill_slot pid sig p (r, k)).1.task i ≡ (
        if p == i
        then elim (k.task i) [ none ↦ none | some t ↦ some (hit pid sig t) ]
        else k.task i)
unfolding kill_slot send_sig on_slot add_signal
kill_slot_task pid sig p i r k ok_sig = elim (Option-cases (k.task p)) [
  | inl e ↦ ground arith
  | inr (t, e) ↦ elim (Bool-cases (t.pid == pid)) [
    | inl same ↦ ground (arith, at_slot_lem (add_signal sig) p k.task i)
    | inr other ↦ ground arith
  ]
]

kill_slot_ret :
    (pid sig p : ℕ) (r : Ret ℕ × Proc)
    → valid sig ≡ true
    → r.0 ≡ ret 0
    → (kill_slot pid sig p r).0 ≡ ret 0
unfolding kill_slot send_sig on_slot add_signal
kill_slot_ret pid sig p (r, k) ok_sig h = elim (Option-cases (k.task p)) [
  | inl e ↦ ground arith
  | inr (t, e) ↦ elim (Bool-cases (t.pid == pid)) [
    | inl same ↦ ground arith
    | inr other ↦ ground arith
  ]
]

kill_loop_task :
    (pid sig n i : ℕ) (r : Ret ℕ × Proc)
    → valid sig ≡ true
    → (kill_loop pid sig n r).1.task i ≡ (
        if leb 1 i && leb i n
        then elim (r.1.task i) [ none ↦ none | some t ↦ some (hit pid sig t) ]
        else r.1.task i)
unfolding kill_loop
kill_loop_task pid sig zero i r ok_sig = ground arith
kill_loop_task pid sig (suc n) i r ok_sig = ground (
  arith,
  kill_loop_task pid sig n i (kill_slot pid sig (suc n) r) ok_sig,
  kill_slot_task pid sig (suc n) i r.0 r.1 ok_sig,
)

kill_loop_ret :
    (pid sig n : ℕ) (r : Ret ℕ × Proc)
    → valid sig ≡ true
    → r.0 ≡ ret 0
    → (kill_loop pid sig n r).0 ≡ ret 0
unfolding kill_loop
kill_loop_ret pid sig zero r ok_sig h = h
kill_loop_ret pid sig (suc n) r ok_sig h =
    kill_loop_ret pid sig n (kill_slot pid sig (suc n) r) ok_sig
      (kill_slot_ret pid sig (suc n) r ok_sig h)

-- `sys_kill` with a positive pid and a signal from 1 to 32 succeeds. Every task with that pid, task 0
-- excepted, has the signal pending afterwards, whoever owns it, and no other task changes.
pub sys_kill-signalled :
    (pid sig : ℕ) (k : Proc)
    → 1 ≤ sig
    → sig ≤ 32
    → ((sys_kill (some pid) sig k).0 ≡ ret 0)
      × ((i : ℕ)
          → (sys_kill (some pid) sig k).1.task i ≡ (
              if leb 1 i && leb i 63
              then elim (k.task i) [
                | none ↦ none
                | some t ↦ some (if t.pid == pid then signalled sig t else t)
              ]
              else k.task i))
unfolding sys_kill
sys_kill-signalled pid sig k lo hi =
    let fine : valid sig ≡ true = ground arith in
    (
      kill_loop_ret pid sig 63 (ret 0, k) fine refl,
      λ i. kill_loop_task pid sig 63 i (ret 0, k) fine,
    )
