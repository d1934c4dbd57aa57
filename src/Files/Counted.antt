-- ===== src/Files/Counted.antt =====
-- The use counts of the file table: `f_count` is the number of descriptors, of all tasks, that stand
-- for the entry. `dup` and `close` keep that, and `close` does not panic.
use hios.Base.{
  ℕ, ◌+◌, ◌-◌, ◌≤◌, ◌<◌, ◌≡◌, ◌≢◌, refl, ◌⊎◌, inl, inr, arith, leb, ◌==◌, ◌||◌, Bool, true, false,
  Bool-cases, Option-cases, Option, none, some, if◌then◌else◌, update, is_null, first-cases,
}
use hios.Run.{ok}
use hios.Errno.{ret, fail, einval, ebadf, emfile}
use hios.Sched.{Tasks}
use hios.System.{Files, nr_open, nr_file, on_file, set_filp}
use hios.Files.{free_fd, dupfd, close_fd, keep_on_exec, more_count, less_count}
use hios.Files.Refs.{ref, row, living, refs, row-update, refs-change, refs-ge, refs-le}

pub record IsCounted (ts : Tasks) (t : Files) : Type 0 where
  pub counts : (f : ℕ) → f < nr_file → (t.file_table f).f_count ≡ refs (living ts) t.filp f 64
  pub inside :
      (k fd f : ℕ) → k < 64 → fd < nr_open → living ts k ≡ true → t.filp k fd ≡ some f → f < nr_file

-- One descriptor of a living task is changed.
pub refs-set_filp :
    (live : ℕ → Bool) (t : Files) (f k fd : ℕ) (b : Option ℕ)
    → k < 64
    → fd < nr_open
    → live k ≡ true
    → refs live (set_filp k fd b t).filp f 64 + ref f (t.filp k fd)
      ≡ refs live t.filp f 64 + ref f b
refs-set_filp live t f k fd b lt ltf l =
    let whole =
      refs-change live live t.filp (set_filp k fd b t).filp f k 64 lt (λ j ne. refl)
        (λ j d ne. ground arith) in
    let one = row-update (t.filp k) f fd 20 b ltf in
    let self : row ((set_filp k fd b t).filp k) f 20 ≡ row (update (t.filp k) fd b) f 20 =
      ground arith in
    ground (arith, whole, one, self)

pub inside-set_filp :
    (ts : Tasks) (t t' : Files) (k fd : ℕ) (b : Option ℕ)
    → IsCounted ts t
    → t'.filp ≡ (set_filp k fd b t).filp
    → ((f : ℕ) → b ≡ some f → f < nr_file)
    → (j d f : ℕ) → j < 64
    → d < nr_open
    → living ts j ≡ true
    → t'.filp j d ≡ some f
    → f < nr_file
inside-set_filp ts t t' k fd b c same new j d f lt ltd l e = elim (Bool-cases (k == j)) [
  | inl slot ↦ elim (Bool-cases (fd == d)) [
    | inl desc ↦ new f (ground (arith, same))
    | inr other ↦ c.inside j d f lt ltd l (ground (arith, same))
  ]
  | inr other ↦ c.inside j d f lt ltd l (ground (arith, same))
]

pub free_fd-lt :
    (k arg fd : ℕ) (t : Files)
    → arg < nr_open
    → free_fd k arg t ≡ some fd
    → (arg ≤ fd)
      × (fd < nr_open)
      × (t.filp k fd ≡ none)
      × ((j : ℕ) → arg ≤ j → j < fd → t.filp k j ≢ none)
unfolding free_fd
free_fd-lt k arg fd t small e = elim (first-cases (λ d. is_null (t.filp k d)) arg (20 - arg)) [
  | inl (run, all) ↦ absurd (ground arith)
  | inr (d, is, lo, hi, null, before) ↦
      let same : d ≡ fd = ground arith in
      (
        omega arith,
        omega arith,
        elim (Option-cases (t.filp k fd)) [ inl h ↦ h | inr (x, h) ↦ absurd (ground arith) ],
        λ j lj hj h. ground (arith, before j lj (omega arith)),
      )
]

free_fd-none :
    (k arg : ℕ) (t : Files)
    → free_fd k arg t ≡ none
    → (d : ℕ) → arg ≤ d
    → d < nr_open
    → t.filp k d ≢ none
unfolding free_fd
free_fd-none k arg t e d lo hi gone =
    elim (first-cases (λ d. is_null (t.filp k d)) arg (20 - arg)) [
      | inl (run, all) ↦ ground (arith, all d lo (omega arith))
      | inr (j, run, l, h, is, before) ↦ absurd (ground arith)
    ]

module _ (ts : Tasks) (t : Files) (k : ℕ) (c : IsCounted ts t) (lt : k < 64)
    (alive : living ts k ≡ true) where
  -- A free descriptor is made to stand for a file that is in use.
  pub shared :
      (fd f : ℕ)
      → fd < nr_open
      → f < nr_file
      → t.filp k fd ≡ none
      → IsCounted ts (on_file f more_count (set_filp k fd (some f) (keep_on_exec k fd t)))
  shared fd f ltd ltf free = record {
    counts = λ g hg. ground (
      arith,
      refs-set_filp (living ts) t g k fd (some f) lt ltd alive,
      c.counts g hg,
      refs-le (living ts) t.filp g 64,
    );
    inside =
        inside-set_filp ts t (on_file f more_count (set_filp k fd (some f) (keep_on_exec k fd t))) k
          fd (some f) c refl (λ g e. ground arith);
  }

  -- `dup` of a descriptor either fails, with the reason that the code gives and no change, or the result
  -- is the lowest free descriptor from `arg` on, which then stands for the same file, and each use
  -- count is again the number of descriptors.
  pub dupfd-IsCounted :
      (fd arg : ℕ)
      → ((dupfd k fd arg t ≡ (fail ebadf, t)) × ((nr_open ≤ fd) ⊎ (t.filp k fd ≡ none)))
        ⊎ ((dupfd k fd arg t ≡ (fail einval, t)) × (nr_open ≤ arg))
        ⊎ ((dupfd k fd arg t ≡ (fail emfile, t))
            × ((d : ℕ) → arg ≤ d → d < nr_open → t.filp k d ≢ none))
        ⊎ ((new : ℕ) × (t' : Files) × (dupfd k fd arg t ≡ (ret new, t'))
            × (arg ≤ new)
            × (new < nr_open)
            × ((d : ℕ) → arg ≤ d → d < new → t.filp k d ≢ none)
            × (t.filp k new ≡ none)
            × (t'.filp k new ≡ t.filp k fd)
            × IsCounted ts t')
  unfolding dupfd
  dupfd-IsCounted fd arg = elim (Bool-cases (leb nr_open fd || is_null (t.filp k fd))) [
    | inl bad ↦ inl (
      rw (bad, dupfd) refl,
      elim (Option-cases (t.filp k fd)) [ inl e ↦ inr e | inr (f, e) ↦ inl (ground arith) ],
    )
    | inr good ↦ elim (Bool-cases (leb nr_open arg)) [
      | inl high ↦ inr (inl (rw (good, high, dupfd) refl, ground arith))
      | inr low ↦ elim (Option-cases (free_fd k arg t)) [
        | inl full ↦ inr (inr (inl (rw (good, low, full, dupfd) refl, free_fd-none k arg t full)))
        | inr (new, e) ↦ elim (Option-cases (t.filp k fd)) [
          | inl gone ↦ absurd (ground arith)
          | inr (f, is) ↦
              let small : fd < nr_open = ground arith in
              let (lo, hi, free, before) = free_fd-lt k arg new t (ground arith) e in
              inr (
                inr (
                  inr (
                    new,
                    on_file f more_count (set_filp k new (some f) (keep_on_exec k new t)),
                    rw (good, low, e, is, dupfd) refl,
                    lo,
                    hi,
                    before,
                    free,
                    ground arith,
                    shared new f hi (c.inside k fd f lt small alive is) free,
                  )))
        ]
      ]
    ]
  ]

  -- The last descriptor of a file gives its inode back.
  closed :
      (fd f : ℕ)
      → fd < nr_open
      → t.filp k fd ≡ some f
      → IsCounted ts (on_file f less_count (set_filp k fd none (keep_on_exec k fd t)))
        × ((t.file_table f).f_count ≢ 0)
  closed fd f ltd is =
      let ltf = c.inside k fd f lt ltd alive is in
      (
        record {
          counts = λ g hg. ground (
            arith,
            refs-set_filp (living ts) t g k fd none lt ltd alive,
            c.counts g hg,
            refs-ge (living ts) t.filp f k fd 64 lt ltd alive is,
          );
          inside =
              inside-set_filp ts t (on_file f less_count (set_filp k fd none (keep_on_exec k fd t)))
                k fd none c refl (λ g e. ground arith);
        },
        λ z. omega (arith, z, c.counts f ltf, refs-ge (living ts) t.filp f k fd 64 lt ltd alive is),
      )

  -- `close` does not panic. It fails on a descriptor that is not open, and changes no file then; else the
  -- descriptor is free, the inode is given back if this was the last descriptor of the file, and only
  -- then, and each use count is again the number of descriptors.
  pub close_fd-IsCounted :
      (fd : ℕ)
      → ((t' : Files) × (close_fd k fd t ≡ ok (fail einval) t')
          × ((nr_open ≤ fd) ⊎ (t.filp k fd ≡ none))
          × (t'.filp ≡ t.filp)
          × (t'.file_table ≡ t.file_table))
        ⊎ ((f : ℕ) × (t' : Files) × (last : Option ℕ) × (close_fd k fd t ≡ ok (ret last) t')
            × (t.filp k fd ≡ some f)
            × (t'.filp k fd ≡ none)
            × (last ≡ (
                if refs (living ts) t.filp f 64 == 1 then some (t.file_table f).f_inode else none))
            × IsCounted ts t')
  unfolding close_fd
  close_fd-IsCounted fd = elim (Bool-cases (leb nr_open fd)) [
    | inl high ↦ inl (t, rw (high, close_fd) refl, inl (ground arith), refl, refl)
    | inr low ↦ elim (Option-cases (t.filp k fd)) [
      | inl e ↦ inl (keep_on_exec k fd t, rw (low, e, close_fd) refl, inr e, refl, refl)
      | inr (f, e) ↦
          let ltd : fd < nr_open = ground arith in
          let (counted, used) = closed fd f ltd e in
          let zero : ((t.file_table f).f_count == 0) ≡ false = ground arith in
          let count = c.counts f (c.inside k fd f lt ltd alive e) in
          inr (
            f,
            on_file f less_count (set_filp k fd none (keep_on_exec k fd t)),
            if (t.file_table f).f_count == 1 then some (t.file_table f).f_inode else none,
            rw (low, e, zero, close_fd) refl,
            e,
            ground arith,
            rw count refl,
            counted,
          )
    ]
  ]
