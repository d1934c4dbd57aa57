-- ===== src/Cache/Links.antt =====
-- The pointers of the hash queues of fs/buffer.c: what taking a buffer out of its queue and putting
-- it in front of one does to all the queues.
use hios.Base.{
  ℕ, ◌≡◌, ◌≢◌, refl, sym, ◌∙◌, ap, ◌⊎◌, inl, inr, arith, true, false, Bool-cases, Option-cases,
  ◌==◌, if◌then◌else◌, Option, none, some, update, List, ◌∷◌,
}
use hios.Cache.{update_at, is_at}
use hios.Cache.Chain.{
  has, erase, skip, has-erase_self, Chain, skip_out, Chain-frame, along-Chain, first-Chain,
  Chain-erase, link,
}

some-inj : {i j : ℕ} → some i ≡ some j → i ≡ j
some-inj {i = i} e = ap (λ (o : Option ℕ). elim o [ none ↦ i | some k ↦ k ]) e

-- The queues are doubly linked: `queue h` lists the buffers of queue `h`.
pub record Links (next prev table : ℕ → Option ℕ) (queue : ℕ → List ℕ) : Type 0 where
  pub runs : (h : ℕ) → Chain next (table h) (queue h)
  pub back : (i j : ℕ) → next i ≡ some j → prev j ≡ some i
  pub forth : (i j : ℕ) → prev j ≡ some i → next i ≡ some j
  pub head : (h i : ℕ) → table h ≡ some i → prev i ≡ none

-- The same of all buffers but `b`, to which no pointer leads.
pub record Apart (b : ℕ) (next prev table : ℕ → Option ℕ) (queue : ℕ → List ℕ) : Type 0 where
  pub runs : (h : ℕ) → Chain next (table h) (queue h)
  pub gone : (h : ℕ) → has b (queue h) ≡ false
  pub back : (i j : ℕ) → i ≢ b → next i ≡ some j → (j ≢ b) × (prev j ≡ some i)
  pub forth : (i j : ℕ) → j ≢ b → prev j ≡ some i → (i ≢ b) × (next i ≡ some j)
  pub head : (h i : ℕ) → table h ≡ some i → prev i ≡ none

-- What a pointer that steps over `b` points to
skip-cases :
    (f : ℕ → Option ℕ) (b k : ℕ) (p : Option ℕ)
    → skip f b p ≡ some k
    → ((p ≡ some k) × (b ≢ k)) ⊎ ((p ≡ some b) × (f b ≡ some k))
skip-cases f b k none e = absurd (ground arith)
skip-cases f b k (some j) e = elim (Bool-cases (b == j)) [
  | inl same ↦ inr (ground arith, ground arith)
  | inr other ↦ let jk : j ≡ k = some-inj (ground arith) in inl (ground arith, ground arith)
]

skip_past : (f : ℕ → Option ℕ) (b : ℕ) (p : Option ℕ) → p ≡ some b → skip f b p ≡ f b
skip_past f b p e = rw e (ground arith)

skip_stay : (f : ℕ → Option ℕ) (b : ℕ) (p : Option ℕ) → (p ≢ some b) → skip f b p ≡ p
skip_stay f b none ne = refl
skip_stay f b (some j) ne = elim (Bool-cases (b == j)) [
  | inl same ↦ absurd (ne (ap some (ground arith)))
  | inr other ↦ ground arith
]

update_at-skip :
    (f g : ℕ → Option ℕ) (b j : ℕ)
    → ((i : ℕ) → f i ≡ some b → g b ≡ some i)
    → ((i : ℕ) → g b ≡ some i → f i ≡ some b)
    → update_at f (g b) (f b) j ≡ skip f b (f j)
update_at-skip f g b j back forth = elim (Option-cases (g b)) [
  | inl e ↦ rw e (sym (skip_stay f b (f j) (λ q. let at = back j q in ground arith)))
  | inr (p, e) ↦ elim (Bool-cases (p == j)) [
    | inl same ↦
        let at : f j ≡ some b = forth j (e ∙ ap some (ground arith)) in
        rw (e, same) (sym (skip_past f b (f j) at))
    | inr other ↦
        let away : f j ≢ some b =
          λ q. let pj : p ≡ j = some-inj (sym e ∙ back j q) in ground arith in
        rw (e, other) (sym (skip_stay f b (f j) away))
  ]
]

-- One link of the queues, stepping over `b`, leads back as it leads forth.
step :
    (f g : ℕ → Option ℕ) (b i j : ℕ)
    → ((i j : ℕ) → f i ≡ some j → g j ≡ some i)
    → i ≢ b
    → skip f b (f i) ≡ some j
    → (j ≢ b) × (skip g b (g j) ≡ some i)
step f g b i j back ne e = elim (skip-cases f b j (f i) e) [
  | inl (to, nj) ↦ (
    λ q. nj (sym q),
    skip_stay g b (g j) (λ q. ne (some-inj (sym (back i j to) ∙ q))) ∙ back i j to,
  )
  | inr (to, past) ↦
      let gb : g b ≡ some i = back i b to in
      (
        λ q. ne (some-inj (sym gb ∙ back b b (past ∙ ap some q))),
        skip_past g b (g j) (back b j past) ∙ gb,
      )
]

-- The table with the first of a queue, if that is `b`, replaced by the next.
table-skip :
    (next table : ℕ → Option ℕ) {l : List ℕ} (b k h : ℕ)
    → Chain next (table h) l
    → (h ≢ k → has b l ≡ false)
    → (if is_at (table k) b then update table k (next b) else table) h ≡ skip next b (table h)
table-skip next table b k h c out = elim (Bool-cases (k == h)) [
  | inl same ↦ let e : k ≡ h = ground arith in rw e (here (table h) refl)
  | inr other ↦ elim (Bool-cases (is_at (table k) b)) [
    | inl at ↦ rw (at, other) (sym (skip_out next b c (out (ground arith))))
    | inr no_at ↦ rw no_at (sym (skip_out next b c (out (ground arith))))
  ]
]
  where
    here :
        (p : Option ℕ)
        → p ≡ table h
        → (if is_at p b then update table h (next b) else table) h ≡ skip next b p
    here none e = ground arith
    here (some i) e = ground arith

-- The buffer `b`, in no queue but `k`, leaves its queue.
pub Links-leave :
    {next prev table : ℕ → Option ℕ} {queue : ℕ → List ℕ} (b k : ℕ)
    → Links next prev table queue
    → ((h : ℕ) → h ≢ k → has b (queue h) ≡ false)
    → Apart b
        (update_at next (prev b) (next b))
        (update_at prev (next b) (prev b))
        (if is_at (table k) b then update table k (next b) else table)
        (λ h. erase b (queue h))
Links-leave {next = next} {prev = prev} {table = table} {queue = queue} b k w out =
    let over : (j : ℕ) → update_at next (prev b) (next b) j ≡ skip next b (next j) =
      λ j. update_at-skip next prev b j (λ i. w.back i b) (λ i. w.forth i b) in
    let under : (j : ℕ) → update_at prev (next b) (prev b) j ≡ skip prev b (prev j) =
      λ j. update_at-skip prev next b j (λ i. w.forth b i) (λ i. w.back b i) in
    let first : (h : ℕ)
        → (if is_at (table k) b then update table k (next b) else table) h ≡ skip next b (table h) =
      λ h. table-skip next table b k h (w.runs h) (out h) in
    record {
      runs = λ h. along-Chain (sym (first h)) (Chain-erase b (λ j ne. over j) (w.runs h));
      gone = λ h. has-erase_self b (queue h);
      back = λ i j ne e.
          let (nj, r) = step next prev b i j w.back ne (sym (over i) ∙ e) in (nj, under j ∙ r);
      forth = λ i j ne e.
          let (ni, r) = step prev next b j i (λ j i. w.forth i j) ne (sym (under j) ∙ e) in
          (ni, over i ∙ r);
      head = λ h i e. under i ∙ elim (skip-cases next b i (table h) (sym (first h) ∙ e)) [
        | inl (to, ni) ↦ let at = w.head h i to in rw at refl
        | inr (to, past) ↦ skip_past prev b (prev i) (w.back b i past) ∙ w.head h b to
      ];
    }

module _ {b : ℕ} {next prev table : ℕ → Option ℕ} {queue : ℕ → List ℕ} where
  -- Where `b` goes into no queue, its own pointers become null.
  pub Links-loose :
      Apart b next prev table queue → Links (update next b none) (update prev b none) table queue
  Links-loose w = record {
    runs = λ h. Chain-frame (w.runs h) (λ j m. elim (Bool-cases (b == j)) [
      | inl same ↦ let e : b ≡ j = ground arith in ground (arith, w.gone h)
      | inr other ↦ ground arith
    ]);
    back = λ i j e. elim (Bool-cases (b == i)) [
      | inl same ↦ absurd (ground arith)
      | inr other ↦ let (nj, r) = w.back i j (ground arith) (ground arith) in ground arith
    ];
    forth = λ i j e. elim (Bool-cases (b == j)) [
      | inl same ↦ absurd (ground arith)
      | inr other ↦ let (ni, r) = w.forth i j (ground arith) (ground arith) in ground arith
    ];
    head = λ h i e. elim (Bool-cases (b == i)) [
      | inl same ↦ ground arith
      | inr other ↦ let r = w.head h i e in ground arith
    ];
  }

  -- The queues themselves, when `b` goes in front of the queue `k`
  join-runs :
      (k : ℕ)
      → Apart b next prev table queue
      → (h : ℕ)
      → Chain
          (update next b (table k))
          (update table k (some b) h)
          (if k == h then b ∷ queue h else queue h)
  join-runs k w h = elim (Bool-cases (k == h)) [
    | inl same ↦
        let e : k ≡ h = ground arith in
        let front : update next b (table k) b ≡ table h = ground arith in
        rw same (link (w.gone h) (along-Chain (sym front) (Chain-frame (w.runs h) spare)))
    | inr other ↦ rw other (Chain-frame (w.runs h) spare)
  ]
    where
      spare : (j : ℕ) → has j (queue h) ≡ true → update next b (table k) j ≡ next j
      spare j m = elim (Bool-cases (b == j)) [
        | inl same ↦ let e : b ≡ j = ground arith in ground (arith, w.gone h)
        | inr other ↦ ground arith
      ]

  -- `b` goes in front of the queue `k`, whose first buffer so far is `front`.
  pub Links-join :
      (k : ℕ) (front : Option ℕ)
      → table k ≡ front
      → Apart b next prev table queue
      → ((h i : ℕ) → has i (queue h) ≡ true → has i (queue k) ≡ true → h ≡ k)
      → Links
          (update next b front)
          (update_at (update prev b none) front (some b))
          (update table k (some b))
          (λ h. if k == h then b ∷ queue h else queue h)
  Links-join k none at w only = record {
    runs = λ h. rw (sym at) (join-runs k w h);
    back = λ i j e. elim (Bool-cases (b == i)) [
      | inl same ↦ absurd (ground arith)
      | inr other ↦ let (nj, r) = w.back i j (ground arith) (ground arith) in ground arith
    ];
    forth = λ i j e. elim (Bool-cases (b == j)) [
      | inl same ↦ absurd (ground arith)
      | inr other ↦ let (ni, r) = w.forth i j (ground arith) (ground arith) in ground arith
    ];
    head = λ h i e. elim (Bool-cases (b == i)) [
      | inl same ↦ ground arith
      | inr other ↦ elim (Bool-cases (k == h)) [
        | inl here ↦ absurd (let bi : b ≡ i = some-inj (ground arith) in ground arith)
        | inr there ↦ let r = w.head h i (ground arith) in ground arith
      ]
    ];
  }
  Links-join k (some t) at w only = record {
    runs = λ h. rw (sym at) (join-runs k w h);
    back = λ i j e. elim (Bool-cases (b == i)) [
      | inl same ↦
          let bi : b ≡ i = ground arith in let tj : t ≡ j = some-inj (ground arith) in ground arith
      | inr other ↦
          let (nj, r) = w.back i j (ground arith) (ground arith) in
          let tj : t ≢ j = λ q. let n = w.head k j (at ∙ ap some q) in ground arith in ground arith
    ];
    forth = λ i j e. elim (Bool-cases (t == j)) [
      | inl same ↦
          let bi : b ≡ i = some-inj (ground arith) in
          let tj : some t ≡ some j = ap some (ground arith) in ground arith
      | inr far ↦ elim (Bool-cases (b == j)) [
        | inl same ↦ absurd (ground arith)
        | inr other ↦ let (ni, r) = w.forth i j (ground arith) (ground arith) in ground arith
      ]
    ];
    head = λ h i e. elim (Bool-cases (k == h)) [
      | inl here ↦
          let bi : b ≡ i = some-inj (ground arith) in
          let tb : t ≢ b =
            λ q. let m = first-Chain b (w.runs k) (at ∙ ap some q) in ground (arith, w.gone k) in
          ground arith
      | inr there ↦
          let to : table h ≡ some i = ground arith in
          let m : has i (queue h) ≡ true = first-Chain i (w.runs h) to in
          let bi : b ≢ i = λ q. ground (arith, w.gone h) in
          let ti : t ≢ i =
            λ q. let n = only h i m (first-Chain i (w.runs k) (at ∙ ap some q)) in ground arith in
          let r = w.head h i to in ground arith
    ];
  }
