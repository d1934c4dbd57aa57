-- ===== src/Proc/Release.antt =====
-- `release` of kernel/exit.c never returns for a task.
use hios.Base.{ℕ, zero, suc, ◌≡◌, refl, inl, inr, some}
use hios.Run.{panic, Cmd, Panic, Run-cases}
use hios.Proc.{Proc, release_slot, release_loop, release}

module _ (others : Cmd Proc (Unit {0})) where
  release_loop_panics :
      (p i n : ℕ) (k : Proc) → (e : Panic) × (release_loop others p i n k ≡ panic e)
  unfolding release_loop
  release_loop_panics p i zero k = (_, refl)
  release_loop_panics p i (suc n) k = elim (Run-cases (release_slot others p i k)) [
    | inl (a, k1, e) ↦
        let (f, g) = release_loop_panics p (suc i) n k1 in (f, rw (e, release_loop) g)
    | inr (f, e) ↦ (f, rw (e, release_loop) refl)
  ]

  -- Whatever the other tasks do while `release` waits, and whether or not it finds the task, it ends
  -- in a panic: after the task is gone and `schedule` has returned, the loop goes on to its end, and
  -- the panic for a task that does not exist stands behind it.
  pub release_panics : (p : ℕ) (k : Proc) → (e : Panic) × (release others (some p) k ≡ panic e)
  unfolding release
  release_panics p k = release_loop_panics p 1 63 k
