-- ===== src/Wait/Scan.antt =====
-- The scan of `sys_waitpid`: which child decides how it ends.
use hios.Base.{
  ℕ, zero, suc, ◌≤◌, ◌<◌, ◌≡◌, refl, sym, ◌⊎◌, inl, inr, arith, ◌==◌, Bool, true, false, Bool-cases,
  Option-cases, Option, some,
}
use hios.Sched.{Task, TaskState, running, interruptible, uninterruptible, zombie, stopped}
use hios.Proc.{Proc}
use hios.Wait.{Wanted, candidate, at_stopped, at_zombie, at_end, look_at, scan}

-- The child that is waited for in slot `p`
abbrev pub child_at : Wanted → Task → Proc → ℕ → Option Task
child_at w c k p = candidate w c (p == k.current) (k.task p)

-- A child in this state ends the scan.
abbrev pub is_decisive : Bool → TaskState → Bool
is_decisive untraced running = false
is_decisive untraced interruptible = false
is_decisive untraced uninterruptible = false
is_decisive untraced zombie = true
is_decisive untraced stopped = untraced

-- A child in this state may still exit or stop.
abbrev pub is_busy : TaskState → Bool
is_busy running = true
is_busy interruptible = true
is_busy uninterruptible = true
is_busy zombie = false
is_busy stopped = false

-- The child in slot `p`, the highest one of those up to `n` that end the scan.
pub record Decides (w : Wanted) (untraced : Bool) (c : Task) (k : Proc) (n p : ℕ) (t : Task)
    : Type 0 where
  pub place : (1 ≤ p) × (p ≤ n)
  pub here : child_at w c k p ≡ some t
  pub decides : is_decisive untraced t.state ≡ true
  pub highest :
      (j : ℕ) (u : Task)
      → p < j
      → j ≤ n
      → child_at w c k j ≡ some u
      → is_decisive untraced u.state ≡ false

-- No child up to `n` ends the scan.
abbrev pub NoneDecides : Wanted → Bool → Task → Proc → ℕ → Type 0
NoneDecides w untraced c k n =
    (j : ℕ) (u : Task)
    → 1 ≤ j
    → j ≤ n
    → child_at w c k j ≡ some u
    → is_decisive untraced u.state ≡ false

look_at-cases :
    (untraced : Bool) (p : ℕ) (flag : Bool) (s : TaskState)
    → (look_at untraced p flag s ≡ at_zombie p) × (s ≡ zombie)
      ⊎ (look_at untraced p flag s ≡ at_stopped p) × (s ≡ stopped) × (untraced ≡ true)
      ⊎ (look_at untraced p flag s ≡ at_end true) × (is_busy s ≡ true)
      ⊎ (look_at untraced p flag s ≡ at_end flag) × (s ≡ stopped) × (untraced ≡ false)
unfolding look_at
look_at-cases untraced p flag running = inr (inr (inl (refl, refl)))
look_at-cases untraced p flag interruptible = inr (inr (inl (refl, refl)))
look_at-cases untraced p flag uninterruptible = inr (inr (inl (refl, refl)))
look_at-cases untraced p flag zombie = inl (refl, refl)
look_at-cases true p flag stopped = inr (inl (refl, refl, refl))
look_at-cases false p flag stopped = inr (inr (inr (refl, refl, refl)))

-- How a scan of the slots up to `n` may end.
abbrev Ends : Wanted → Bool → Task → ℕ → Bool → Proc → Type 0
Ends w untraced c n flag k =
    ((p : ℕ) × (t : Task) × (scan w untraced c n flag k ≡ at_zombie p)
      × (t.state ≡ zombie)
      × Decides w untraced c k n p t)
    ⊎ ((p : ℕ) × (t : Task) × (scan w untraced c n flag k ≡ at_stopped p)
        × (t.state ≡ stopped)
        × (untraced ≡ true)
        × Decides w untraced c k n p t)
    ⊎ (scan w untraced c n flag k ≡ at_end true)
      × NoneDecides w untraced c k n
      × ((flag ≡ true)
          ⊎ ((p : ℕ) × (t : Task) × (1 ≤ p)
              × (p ≤ n)
              × (child_at w c k p ≡ some t)
              × (is_busy t.state ≡ true)))
    ⊎ (scan w untraced c n flag k ≡ at_end false)
      × (flag ≡ false)
      × ((p : ℕ) (t : Task)
          → 1 ≤ p
          → p ≤ n
          → child_at w c k p ≡ some t
          → (t.state ≡ stopped) × (untraced ≡ false))

step_Decides :
    {w : Wanted} {untraced : Bool} {c : Task} {k : Proc} {n p : ℕ} {t : Task}
    → ((u : Task) → child_at w c k (suc n) ≡ some u → is_decisive untraced u.state ≡ false)
    → Decides w untraced c k n p t
    → Decides w untraced c k (suc n) p t
step_Decides {n = n} top d = record {
  place = omega (arith, d.place);
  here = d.here;
  decides = d.decides;
  highest = λ j u lo hi e. elim (Bool-cases (j == suc n)) [
    | inl same ↦ top u (let at : j ≡ suc n = ground arith in rw at at e)
    | inr other ↦ d.highest j u lo (ground arith) e
  ];
}

step_NoneDecides :
    (w : Wanted) (untraced : Bool) (c : Task) (k : Proc) (n : ℕ)
    → ((u : Task) → child_at w c k (suc n) ≡ some u → is_decisive untraced u.state ≡ false)
    → NoneDecides w untraced c k n
    → NoneDecides w untraced c k (suc n)
step_NoneDecides w untraced c k n top d j u lo hi e = elim (Bool-cases (j == suc n)) [
  | inl same ↦ top u (let at : j ≡ suc n = ground arith in rw at at e)
  | inr other ↦ d j u lo (ground arith) e
]

-- A slot that does not end the scan, and leaves `flag` as `flag'`.
module _ (w : Wanted) (untraced : Bool) (c : Task) (n : ℕ) (flag flag' : Bool) (k : Proc)
    (runs : scan w untraced c (suc n) flag k ≡ scan w untraced c n flag' k)
    (top : (u : Task) → child_at w c k (suc n) ≡ some u → is_decisive untraced u.state ≡ false)
    (raised : flag' ≡ true
      → (flag ≡ true) ⊎ ((t : Task) × (child_at w c k (suc n) ≡ some t) × (is_busy t.state ≡ true)))
    (kept : flag' ≡ false
      → (flag ≡ false)
        × ((u : Task)
            → child_at w c k (suc n) ≡ some u
            → (u.state ≡ stopped) × (untraced ≡ false))) where
  goes_on : Ends w untraced c n flag' k → Ends w untraced c (suc n) flag k
  goes_on (inl (p, t, e, z, d)) = inl (p, t, rw runs e, z, step_Decides top d)
  goes_on (inr (inl (p, t, e, z, o, d))) = inr (inl (p, t, rw runs e, z, o, step_Decides top d))
  goes_on (inr (inr (inl (e, all, why)))) = inr (
      inr (
        inl (
          rw runs e,
          step_NoneDecides w untraced c k n top all,
          elim why [
            | inl up ↦ elim (raised up) [
              | inl was ↦ inl was
              | inr (t, here, busy) ↦ inr (suc n, t, omega arith, omega arith, here, busy)
            ]
            | inr (p, t, lo, hi, here, busy) ↦ inr (p, t, lo, omega arith, here, busy)
          ],
        )))
  goes_on (inr (inr (inr (e, down, all)))) = inr (
      inr (
        inr (
          rw runs e,
          (kept down).0,
          λ p t lo hi here. elim (Bool-cases (p == suc n)) [
            | inl same ↦ (kept down).1 t (let at : p ≡ suc n = ground arith in rw at at here)
            | inr other ↦ all p t lo (ground arith) here
          ],
        )))

pub scan_cases :
    (w : Wanted) (untraced : Bool) (c : Task) (n : ℕ) (flag : Bool) (k : Proc)
    → Ends w untraced c n flag k
unfolding scan
scan_cases w untraced c zero true k =
    inr (inr (inl (refl, λ j u lo hi e. absurd (omega arith), inl refl)))
scan_cases w untraced c zero false k =
    inr (inr (inr (refl, refl, λ p t lo hi e. absurd (omega arith))))
scan_cases w untraced c (suc n) flag k = elim (Option-cases (child_at w c k (suc n))) [
  | inl e ↦
      goes_on w untraced c n flag flag k (rw (e, scan) refl) (λ u h. absurd (ground arith))
        (λ up. inl up) (λ down. (down, λ u h. absurd (ground arith)))
        (scan_cases w untraced c n flag k)
  | inr (t, e) ↦ elim (look_at-cases untraced (suc n) flag t.state) [
    | inl (is, z) ↦ inl (
      suc n,
      t,
      rw (e, is, scan) refl,
      z,
      record {
        place = omega arith;
        here = e;
        decides = rw z refl;
        highest = λ j u lo hi h. absurd (omega arith);
      },
    )
    | inr (inl (is, z, o)) ↦ inr (
        inl (
          suc n,
          t,
          rw (e, is, scan) refl,
          z,
          o,
          record {
            place = omega arith;
            here = e;
            decides = rw (z, o) refl;
            highest = λ j u lo hi h. absurd (omega arith);
          },
        ))
    | inr (inr (inl (is, busy))) ↦
        goes_on w untraced c n flag true k (rw (e, is, scan) refl)
          (λ u h. let same : t ≡ u = ground arith in rw (sym same) (calm untraced t.state busy))
          (λ up. inr (t, e, busy)) (λ down. absurd (ground arith))
          (scan_cases w untraced c n true k)
    | inr (inr (inr (is, z, o))) ↦
        goes_on w untraced c n flag flag k (rw (e, is, scan) refl)
          (λ u h. let same : t ≡ u = ground arith in rw (sym same, z, o) refl) (λ up. inl up)
          (λ down. (down, λ u h. (let same : t ≡ u = ground arith in rw (sym same) (z, o))))
          (scan_cases w untraced c n flag k)
  ]
]
  where
    calm : (untraced : Bool) (s : TaskState) → is_busy s ≡ true → is_decisive untraced s ≡ false
    calm untraced running h = refl
    calm untraced interruptible h = refl
    calm untraced uninterruptible h = refl
    calm untraced zombie h = absurd (ground arith)
    calm untraced stopped h = absurd (ground arith)
