-- ===== src/Cache/Init.antt =====
-- `buffer_init` of fs/buffer.c: the loop ends, and the cache is then in order.
use hios.Base.{
  ℕ, zero, suc, ◌+◌, ◌-◌, ◌*◌, ◌/◌, ◌^◌, ◌≤◌, ◌<◌, ◌≡◌, refl, sym, ◌∙◌, ap, inl, inr, arith, true,
  false, Bool-cases, ◌&&◌, ◌==◌, leb, if◌then◌else◌, Option, none, some, update, update_self, List,
  [], ◌∷◌, length,
}
use hios.Cache.{
  Cache, badness, head_size, usable_end, init_head, init_loop, close_ring, buffer_init,
}
use hios.Cache.Chain.{has, end}
use hios.Cache.Queues.{IsHashed}
use hios.Cache.Ring.{Round, last, more, IsRing}

-- The first `h` buffer heads are set up.
record Ready (h : ℕ) (s : Cache) : Type 0 where
  count : s.nr_buffers ≡ h
  dev : (i : ℕ) → i < h → s.b_dev i ≡ 0
  idle : (i : ℕ) → i < h → s.b_count i ≡ 0
  unlocked : (i : ℕ) → i < h → s.b_lock i ≡ false
  tidy : (i : ℕ) → i < h → s.b_dirt i ≡ false
  next : (i : ℕ) → s.b_next i ≡ none
  prev : (i : ℕ) → s.b_prev i ≡ none
  next_free : (i : ℕ) → i < h → s.b_next_free i ≡ some (i + 1)
  prev_free : (i : ℕ) → i < h → s.b_prev_free i ≡ some (i - 1)

below_next {ℓ} :
    {A : Type ℓ} (f g : ℕ → A) (h : ℕ) (v : A)
    → ((i : ℕ) → i < h → f i ≡ g i)
    → v ≡ g h
    → (i : ℕ) → i < h + 1
    → update f h v i ≡ g i
below_next f g h v all here i lt = elim (Bool-cases (h == i)) [
  | inl same ↦ let e : h ≡ i = ground arith in rw same (here ∙ ap g e)
  | inr other ↦ rw other (all i (ground arith))
]

still_none :
    (f : ℕ → Option ℕ) (h : ℕ) → ((i : ℕ) → f i ≡ none) → (i : ℕ) → update f h none i ≡ none
still_none f h all i = elim (Bool-cases (h == i)) [
  | inl same ↦ rw same refl
  | inr other ↦ rw other (all i)
]

init_head-Ready : (h : ℕ) (s : Cache) → Ready h s → Ready (h + 1) (init_head h s)
unfolding init_head
init_head-Ready h s w = record {
  count = ap (λ n. n + 1) w.count;
  dev = below_next s.b_dev (λ _. 0) h 0 w.dev refl;
  idle = below_next s.b_count (λ _. 0) h 0 w.idle refl;
  unlocked = below_next s.b_lock (λ _. false) h false w.unlocked refl;
  tidy = below_next s.b_dirt (λ _. false) h false w.tidy refl;
  next = still_none s.b_next h w.next;
  prev = still_none s.b_prev h w.prev;
  next_free = below_next s.b_next_free (λ i. some (i + 1)) h (some (h + 1)) w.next_free refl;
  prev_free = below_next s.b_prev_free (λ i. some (i - 1)) h (some (h - 1)) w.prev_free refl;
}

-- A round with room for a head and a block goes on to the next.
after : ℕ → ℕ
after b = if b - 1024 == 2 ^ 20 then 640 * 1024 else b - 1024

after-lt : (fuel b : ℕ) → 1024 ≤ b → b < suc fuel * 1024 → after b < fuel * 1024
unfolding after
after-lt fuel b room enough = ground arith

init_loop-step :
    (fuel start b h : ℕ) (s : Cache)
    → 1024 ≤ b
    → start + (h + 1) * head_size ≤ b - 1024
    → init_loop (suc fuel) start b h s ≡ init_loop fuel start (after b) (h + 1) (init_head h s)
unfolding init_loop after
init_loop-step fuel start b h s block room =
    let big : leb 1024 b ≡ true = ground arith in
    let fits : leb (start + (h + 1) * head_size) (b - 1024) ≡ true = ground arith in
    rw (big, fits) refl

init_loop-Ready :
    (fuel start b h : ℕ) (s : Cache)
    → Ready h s
    → b < fuel * 1024
    → (h' : ℕ) × (s' : Cache) × (init_loop fuel start b h s ≡ some (h', s'))
      × Ready h' s'
      × (h ≤ h')
unfolding init_loop
init_loop-Ready zero start b h s w enough = absurd (omega arith)
init_loop-Ready (suc fuel) start b h s w enough =
    elim (Bool-cases (leb 1024 b && leb (start + (h + 1) * head_size) (b - 1024))) [
      | inl room ↦
          let block : 1024 ≤ b = ground arith in
          let fits : start + (h + 1) * head_size ≤ b - 1024 = ground arith in
          let (h', s', run, w', le) =
            init_loop-Ready fuel start (after b) (h + 1) (init_head h s) (init_head-Ready h s w)
              (after-lt fuel b block enough) in
          (h', s', init_loop-step fuel start b h s block fits ∙ run, w', omega arith)
      | inr full ↦ (h, s, rw full refl, w, omega arith)
    ]

-- The buffers from `i` on
from : ℕ → ℕ → List ℕ
from i zero = []
from i (suc n) = i ∷ from (suc i) n

has-from : (i n j : ℕ) → i ≤ j → j < i + n → has j (from i n) ≡ true
unfolding from
has-from i zero j lo hi = absurd (omega arith)
has-from i (suc n) j lo hi = elim (Bool-cases (j == i)) [
  | inl same ↦ ground arith
  | inr other ↦ ground (arith, has-from (suc i) n j)
]

from-lt : (i n j : ℕ) → has j (from i n) ≡ true → j < i + n
unfolding from
from-lt i zero j m = absurd (ground arith)
from-lt i (suc n) j m = elim (Bool-cases (j == i)) [
  | inl same ↦ ground arith
  | inr other ↦ let lt = from-lt (suc i) n j (ground arith) in omega arith
]

length-from : (i n : ℕ) → length (from i n) ≡ n
unfolding from
length-from i zero = refl
length-from i (suc n) = ap suc (length-from (suc i) n)

from-Round :
    (next : ℕ → Option ℕ) (i n : ℕ)
    → ((j : ℕ) → j < i + n → next j ≡ some (j + 1))
    → next (i + n) ≡ some 0
    → Round next 0 i (from i (suc n))
unfolding from
from-Round next i zero up close = last (ap next (omega arith) ∙ close)
from-Round next i (suc n) up close =
    more (up i (omega arith) ∙ ap some (omega arith)) (omega arith)
      (from-Round next (suc i) n (λ j lt. up j (omega arith)) (ap next (omega arith) ∙ close))

close_ring-IsHashed : (h : ℕ) (s : Cache) → Ready (h + 1) s → IsHashed (close_ring h s)
unfolding close_ring
close_ring-IsHashed h s w = record {
  queue = λ _. [];
  links = record {
    runs = λ _. end;
    back = λ i j e. let n = w.next i in absurd (ground arith);
    forth = λ i j e. let n = w.prev j in absurd (ground arith);
    head = λ i j e. absurd (ground arith);
  };
  inside = λ i j m. absurd (ground arith);
  all = λ i lt used. absurd (used (w.dev i (ground (arith, w.count))));
  one = λ i j li lj used d b. absurd (used (w.dev i (ground (arith, w.count))));
}

-- The pointers of the closed ring
closed_next :
    (h : ℕ) (s : Cache)
    → Ready (h + 1) s
    → (i : ℕ) → i < h
    → (close_ring h s).b_next_free i ≡ some (i + 1)
unfolding close_ring
closed_next h s w i lt =
    let n = w.next_free i (omega arith) in let ne : (h == i) ≡ false = ground arith in rw ne n

closed_last : (h : ℕ) (s : Cache) → (close_ring h s).b_next_free h ≡ some 0
unfolding close_ring
closed_last h s = update_self s.b_next_free h (some 0)

closed_prev :
    (h : ℕ) (s : Cache)
    → Ready (h + 1) s
    → (i : ℕ) → i < h
    → (close_ring h s).b_prev_free (i + 1) ≡ some i
unfolding close_ring
closed_prev h s w i lt =
    let n = w.prev_free (i + 1) (omega arith) in
    let ne : (0 == i + 1) ≡ false = ground arith in rw ne (n ∙ ap some (omega arith))

closed_first : (h : ℕ) (s : Cache) → (close_ring h s).b_prev_free 0 ≡ some h
unfolding close_ring
closed_first h s = refl

some-inj : {i j : ℕ} → some i ≡ some j → i ≡ j
some-inj {i = i} e = ap (λ (o : Option ℕ). elim o [ none ↦ i | some k ↦ k ]) e

close_ring-IsRing : (h : ℕ) (s : Cache) → Ready (h + 1) s → IsRing (close_ring h s)
unfolding close_ring
close_ring-IsRing h s w =
    let count : (close_ring h s).nr_buffers ≡ h + 1 = w.count in
    record {
      ring = from 0 (suc h);
      round =
          from-Round (close_ring h s).b_next_free 0 h (λ j lt. closed_next h s w j (omega arith))
            (ap (close_ring h s).b_next_free (omega arith) ∙ closed_last h s);
      size = length-from 0 (suc h) ∙ omega (arith, count);
      all = λ i lt. has-from 0 (suc h) i (omega arith) (omega (arith, count));
      inside = λ i m. omega (arith, count, from-lt 0 (suc h) i m);
      back = λ i j lt e. elim (Bool-cases (i == h)) [
        | inl same ↦
            let ih : i ≡ h = ground arith in
            let j0 : 0 ≡ j =
              some-inj (sym (closed_last h s) ∙ ap (close_ring h s).b_next_free (sym ih) ∙ e) in
            ap (close_ring h s).b_prev_free (sym j0) ∙ closed_first h s ∙ ap some (sym ih)
        | inr other ↦
            let near : i < h = ground (arith, count) in
            let ji : i + 1 ≡ j = some-inj (sym (closed_next h s w i near) ∙ e) in
            ap (close_ring h s).b_prev_free (sym ji) ∙ closed_prev h s w i near
      ];
      joined = λ i lt.
          let (q, next) = next_of i (omega (arith, count)) in
          let (p, prev) = prev_of i (omega (arith, count)) in (p, q, prev, next);
    }
  where
    next_of : (i : ℕ) → i < h + 1 → (q : ℕ) × ((close_ring h s).b_next_free i ≡ some q)
    next_of i lt = elim (Bool-cases (i == h)) [
      | inl same ↦ (0, ap (close_ring h s).b_next_free {y = h} (ground arith) ∙ closed_last h s)
      | inr other ↦ (i + 1, closed_next h s w i (ground arith))
    ]

    prev_of : (i : ℕ) → i < h + 1 → (p : ℕ) × ((close_ring h s).b_prev_free i ≡ some p)
    prev_of i lt = elim (Bool-cases (i == 0)) [
      | inl same ↦ (h, ap (close_ring h s).b_prev_free {y = 0} (ground arith) ∙ closed_first h s)
      | inr other ↦ (
        i - 1,
        ap (close_ring h s).b_prev_free {y = i - 1 + 1} (ground arith)
            ∙ closed_prev h s w (i - 1) (ground arith),
      )
    ]

none-Ready :
    (s : Cache)
    → s.nr_buffers ≡ 0
    → ((i : ℕ) → (s.b_next i ≡ none) × (s.b_prev i ≡ none))
    → Ready 0 s
none-Ready s empty null = record {
  count = empty;
  dev = λ i lt. absurd (omega arith);
  idle = λ i lt. absurd (omega arith);
  unlocked = λ i lt. absurd (omega arith);
  tidy = λ i lt. absurd (omega arith);
  next = λ i. (null i).0;
  prev = λ i. (null i).1;
  next_free = λ i lt. absurd (omega arith);
  prev_free = λ i lt. absurd (omega arith);
}

-- A cache as `buffer_init` leaves it
unfoldable pub IsFresh : Cache → Type 0
IsFresh s =
    (0 < s.nr_buffers)
    × IsHashed s
    × IsRing s
    × ((i : ℕ)
        → i < s.nr_buffers
        → (s.b_dev i ≡ 0) × (s.b_count i ≡ 0) × (s.b_lock i ≡ false) × (badness i s ≡ 0))

close_ring-IsFresh : (h : ℕ) (s : Cache) → Ready (h + 1) s → IsFresh (close_ring h s)
unfolding close_ring badness IsFresh
close_ring-IsFresh h s w = (
  omega (arith, w.count),
  close_ring-IsHashed h s w,
  close_ring-IsRing h s w,
  λ i lt.
      let near : i < h + 1 = omega (arith, w.count) in
      let free = w.unlocked i near in
      let tidy = w.tidy i near in (w.dev i near, w.idle i near, free, rw (free, tidy) refl),
)

buffer_init-closed :
    (fuel start buffer_end h : ℕ) (s s' : Cache)
    → init_loop fuel start (usable_end buffer_end) 0 s ≡ some (h, s')
    → buffer_init fuel start buffer_end s ≡ some (close_ring (h - 1) s')
unfolding buffer_init
buffer_init-closed fuel start buffer_end h s s' run = rw (run, buffer_init) refl

pub buffer_init-IsFresh :
    (start buffer_end : ℕ) (s : Cache)
    → s.nr_buffers ≡ 0
    → ((i : ℕ) → (s.b_next i ≡ none) × (s.b_prev i ≡ none))
    → start + head_size + 1024 ≤ usable_end buffer_end
    → (s' : Cache) × (buffer_init (usable_end buffer_end / 1024 + 1) start buffer_end s ≡ some s')
      × IsFresh s'
buffer_init-IsFresh start buffer_end s empty null room =
    let end_addr = usable_end buffer_end in
    let fuel = end_addr / 1024 in
    let enough : end_addr < suc fuel * 1024 = ground arith in
    let block : 1024 ≤ end_addr = omega arith in
    let (h', s', run, w, le) =
      init_loop-Ready fuel start (after end_addr) 1 (init_head 0 s)
        (init_head-Ready 0 s (none-Ready s empty null)) (after-lt fuel end_addr block enough) in
    let whole : init_loop (fuel + 1) start end_addr 0 s ≡ some (h', s') =
      ap (λ n. init_loop n start end_addr 0 s) (omega arith)
      ∙ init_loop-step fuel start end_addr 0 s block (omega arith)
      ∙ run in
    let count : h' - 1 + 1 ≡ h' = omega arith in
    (
      close_ring (h' - 1) s',
      buffer_init-closed (fuel + 1) start buffer_end h' s s' whole,
      close_ring-IsFresh (h' - 1) s' (rw count w),
    )
