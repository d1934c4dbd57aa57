-- ===== src/Wait/Pass.antt =====
-- `sys_waitpid`: each way that one pass over the task table can end.
use hios.Base.{
  ℕ, ◌≤◌, ◌≡◌, refl, ◌⊎◌, inl, inr, arith, Bool, true, false, Bool-cases, Option-cases, none, some,
}
use hios.Run.{ok, panic, Panic, Cmd}
use hios.Errno.{echild, ret, fail}
use hios.Sched.{Task, zombie, stopped}
use hios.Proc.{Proc, on_slot}
use hios.Proc.Release.{release_panics}
use hios.Proc.Exit.{field_lem}
use hios.Wait.{Wanted, candidate, add_times, set_interruptible, reap, wait_pass}
use hios.Wait.Scan.{child_at, is_busy, Decides, NoneDecides, scan_cases}

child_at-task :
    (w : Wanted) (c t : Task) (k : Proc) (p : ℕ) → child_at w c k p ≡ some t → k.task p ≡ some t
unfolding candidate
child_at-task w c t k p e = elim (Option-cases (k.task p)) [
  | inl empty ↦ absurd (ground arith)
  | inr (u, here) ↦ ground arith
]

module _ (others : Cmd Proc (Unit {0})) where
  reap_panics :
      (p : ℕ) (t : Task) (k : Proc) → k.task p ≡ some t → (e : Panic) × (reap others p k ≡ panic e)
  unfolding reap
  reap_panics p t k here =
      let (e, stops) = release_panics others p (on_slot (add_times t) k.current k) in
      (e, rw (here, stops, reap) refl)

  -- One pass of `waitpid` for the current task `c`, from the highest slot down, whatever other tasks do.
  -- The first child that it waits for and that is a zombie, or stopped where WUNTRACED is set, decides:
  -- a zombie ends in a panic, and a stopped child is the result, with 0x7f as its status. If no child
  -- decides but one that it waits for is neither a zombie nor stopped, the result is 0 where WNOHANG is
  -- set, and else the task becomes interruptible. If there is no such child either, stopped ones aside,
  -- the result is ECHILD. But for the zombie and the new state of `c`, nothing changes.
  pub wait_pass-cases :
      (w : Wanted) (untraced nohang : Bool) (c : Task) (k : Proc)
      → ((p : ℕ) × (t : Task) × (e : Panic) × (t.state ≡ zombie)
          × Decides w untraced c k 63 p t
          × (wait_pass others w untraced nohang c k ≡ panic e))
        ⊎ ((p : ℕ) × (t : Task) × (t.state ≡ stopped)
            × (untraced ≡ true)
            × Decides w untraced c k 63 p t
            × (wait_pass others w untraced nohang c k ≡ ok (some (ret t.pid, some 0x7f)) k))
        ⊎ ((p : ℕ) × (t : Task) × (1 ≤ p)
            × (p ≤ 63)
            × (child_at w c k p ≡ some t)
            × (is_busy t.state ≡ true)
            × NoneDecides w untraced c k 63
            × ((nohang ≡ true)
                  × (wait_pass others w untraced nohang c k ≡ ok (some (ret 0, none)) k)
                ⊎ (nohang ≡ false)
                  × (wait_pass others w untraced nohang c k
                      ≡ ok none (on_slot set_interruptible k.current k))))
        ⊎ ((p : ℕ) (t : Task)
            → 1 ≤ p
            → p ≤ 63
            → child_at w c k p ≡ some t
            → (t.state ≡ stopped) × (untraced ≡ false))
          × (wait_pass others w untraced nohang c k ≡ ok (some (fail echild, none)) k)
  unfolding wait_pass
  wait_pass-cases w untraced nohang c k = elim (scan_cases w untraced c 63 false k) [
    | inl (p, t, run, z, d) ↦
        let (e, stops) = reap_panics p t k (child_at-task w c t k p d.here) in
        inl (p, t, e, z, d, rw (run, wait_pass) (rw stops refl))
    | inr (inl (p, t, run, z, o, d)) ↦
        let pid = field_lem (λ u. u.pid) k p t (child_at-task w c t k p d.here) in
        inr (inl (p, t, z, o, d, rw (run, pid, wait_pass) refl))
    | inr (inr (inl (run, all, inl up))) ↦ absurd (ground arith)
    | inr (inr (inl (run, all, inr (p, t, lo, hi, here, busy)))) ↦ inr (
        inr (
          inl (
            p,
            t,
            lo,
            hi,
            here,
            busy,
            all,
            elim (Bool-cases nohang) [
              | inl now ↦ inl (now, rw (run, now, wait_pass) refl)
              | inr sleeps ↦ inr (sleeps, rw (run, sleeps, wait_pass) refl)
            ],
          )))
    | inr (inr (inr (run, down, all))) ↦ inr (inr (inr (all, rw (run, wait_pass) refl)))
  ]
