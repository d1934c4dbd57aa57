-- ===== src/Mm/Tables/Release.antt =====
-- The inner loop of `free_page_tables` of mm/memory.c, by the references that it gives back.
use hios.Base.{
  ℕ, zero, suc, ◌+◌, ◌-◌, ◌*◌, ◌^◌, ◌≤◌, ◌<◌, ◌≡◌, refl, ◌⊎◌, inl, inr, ◌∙◌, arith, if◌then◌else◌,
  Bool-cases, ℕ-cases, update,
}
use hios.Run.{ok}
use hios.Mm.{Mm, map_nr, frame, present, set_word}
use hios.Mm.Pages.{free_page}
use hios.Mm.Pages.Alloc.{free_page_cases}
use hios.Mm.Tables.{free_entries}
use hios.Mm.Tables.Loops.{ref, refs, refs_cong, start, next}

-- What freeing `n` entries leaves: the entries are 0, each page has lost the references that they
-- held, and no other word changes.
pub record Released (m : Mm) (n tbl : ℕ) (m' : Mm) : Type 0 where
  pub emptied : (k : ℕ) → k < n → m'.word (tbl + 4 * k) ≡ 0
  pub others : (a : ℕ) → (a < tbl) ⊎ (tbl + 4 * n ≤ a) → m'.word a ≡ m.word a
  pub counts : (j : ℕ) → m'.mem_map j + refs m.word tbl n j ≡ m.mem_map j
  pub same_top : m'.high_memory ≡ m.high_memory

-- One round of the freeing loop, at an entry whose page is counted.
abbrev ReleasedEntry : Mm → ℕ → Mm → Type 0
ReleasedEntry m tbl m1 =
    ((j : ℕ) → m1.mem_map j + ref (m.word tbl) j ≡ m.mem_map j)
    × ((a : ℕ) → m1.word a ≡ m.word a)
    × (m1.high_memory ≡ m.high_memory)

abbrev lowered : ℕ → Mm → Mm
lowered tbl m =
    let i = map_nr (frame (m.word tbl)) in
    record m { mem_map = update m.mem_map i (m.mem_map i - 1) }

release_entry :
    (m : Mm) (tbl : ℕ)
    → frame (m.word tbl) < m.high_memory
    → m.high_memory ≤ 2 ^ 24
    → ((j : ℕ) → ref (m.word tbl) j ≤ m.mem_map j)
    → (m1 : Mm) × ((if present (m.word tbl) then free_page (frame (m.word tbl)) m else ok tt m)
        ≡ ok tt m1)
      × ReleasedEntry m tbl m1
release_entry m tbl top bound held = elim (Bool-cases (present (m.word tbl))) [
  | inr absent ↦ (m, rw absent, (λ j. rw absent (omega arith), λ a. refl, refl))
  | inl here ↦ elim (free_page_cases (frame (m.word tbl)) m) [
    | inl (out, e) ↦ (m, rw here e, (λ j. ground arith, λ a. refl, refl))
    | inr (inl (lo, hi, free, e)) ↦ absurd (ground (arith, held (map_nr (frame (m.word tbl)))))
    | inr (inr (lo, hi, pos, e)) ↦ (lowered tbl m, rw here e, (λ j. ground arith, λ a. refl, refl))
  ]
]

module _ (m m1 m' : Mm) (n tbl : ℕ) (one : ReleasedEntry m tbl m1)
    (s : Released (set_word tbl 0 m1) n (tbl + 4) m') where
  emptied_step : (k : ℕ) → k < suc n → m'.word (tbl + 4 * k) ≡ 0
  emptied_step k h = elim (ℕ-cases k) [
    | inl e ↦ rw e (rw (start tbl) (ground (arith, s.others tbl)))
    | inr (i, e) ↦ rw e (rw (next tbl i) (s.emptied i (omega arith)))
  ]

  Released-step : Released m (suc n) tbl m'
  unfolding refs
  Released-step = record {
    emptied = emptied_step;
    others = λ a out. ground (arith, s.others a, one.1 a);
    counts = λ j. omega (
      arith,
      s.counts j,
      one.0 j,
      refs_cong (update m1.word tbl 0) m.word (tbl + 4) n j (λ a lo hi. ground (arith, one.1 a)),
    );
    same_top = s.same_top ∙ one.2;
  }

-- The inner loop of `free_page_tables` runs to its end, without a panic, where every page that the
-- entries name lies below the top of memory and has at least the references that they hold.
pub free_entries-Released :
    (n tbl : ℕ) (m : Mm)
    → m.high_memory ≤ 2 ^ 24
    → ((k : ℕ) → k < n → frame (m.word (tbl + 4 * k)) < m.high_memory)
    → ((j : ℕ) → refs m.word tbl n j ≤ m.mem_map j)
    → (m' : Mm) × (free_entries n tbl m ≡ ok tt m') × Released m n tbl m'
unfolding free_entries refs
free_entries-Released zero tbl m bound top held = (
  m,
  refl,
  record {
    emptied = λ k h. absurd (omega arith);
    others = λ a out. refl;
    counts = λ j. omega arith;
    same_top = refl;
  },
)
free_entries-Released (suc n) tbl m bound top held =
    let (m1, run, one) =
      release_entry m tbl (rw (start tbl) at (top 0 (omega arith))) bound
        (λ j. omega (arith, held j)) in
    let later : (j : ℕ) → refs (update m1.word tbl 0) (tbl + 4) n j ≡ refs m.word (tbl + 4) n j =
      λ j.
        refs_cong (update m1.word tbl 0) m.word (tbl + 4) n j
          (λ a lo hi. ground (arith, one.1 a)) in
    let (m', rest, s) =
      free_entries-Released n (tbl + 4) (set_word tbl 0 m1) (omega (arith, one.2))
        (λ k h. ground (arith, top (suc k), next tbl k, one.1 (tbl + 4 + 4 * k), one.2))
        (λ j. omega (arith, later j, held j, one.0 j)) in
    (m', rw run rest, Released-step m m1 m' n tbl one s)
