-- ===== src/Tty/Ring.antt =====
-- The rings of kernel/chr_drv/tty_queue.c as queues of at most 1023 characters.
use hios.Base.{
  ℕ, zero, suc, ◌+◌, ◌%◌, ◌<◌, ◌≡◌, ◌≢◌, refl, ap, ◌∙◌, ◌⊎◌, inl, inr, arith, ◌==◌, true, false,
  if◌then◌else◌, update, update_self, Bool-cases, List, [], ◌∷◌, ◌++◌, length,
}
use hios.Tty.{
  Queue, inc, left, full, chars, getch, putch, tty_isempty_q, tty_isfull_q, tty_pop_q, tty_push_q,
}

-- Both positions are in the array.
pub record IsRing (q : Queue) : Type 0 where
  pub head : q.head < 1024
  pub tail : q.tail < 1024

-- The `n` characters of `buf` from position `i` on, around the end.
abbrev pub gather : ℕ → ℕ → (ℕ → ℕ) → List ℕ
gather zero i buf = []
gather (suc n) i buf = buf (i % 1024) ∷ gather n (suc i) buf

-- The characters in the queue, the oldest first.
abbrev pub contents : Queue → List ℕ
contents q = gather (chars q) q.tail q.buf

pub length-gather : (n i : ℕ) (buf : ℕ → ℕ) → length (gather n i buf) ≡ n
length-gather zero i buf = refl
length-gather (suc n) i buf = ap suc (length-gather n (suc i) buf)

pub gather_around :
    (n i j : ℕ) (buf : ℕ → ℕ) → i % 1024 ≡ j % 1024 → gather n i buf ≡ gather n j buf
gather_around zero i j buf h = refl
gather_around (suc n) i j buf h =
    rw (h, gather_around n (suc i) (suc j) buf (omega (arith, h))) refl

pub gather-update :
    (n i h c : ℕ) (buf : ℕ → ℕ)
    → ((k : ℕ) → k < n → (i + k) % 1024 ≢ h)
    → gather n i (update buf h c) ≡ gather n i buf
gather-update zero i h c buf apart = refl
gather-update (suc n) i h c buf apart =
    let rest =
      gather-update n (suc i) h c buf (λ k lt e. apart (suc k) (omega arith) (omega (arith, e))) in
    let here : update buf h c (i % 1024) ≡ buf (i % 1024) = ground (arith, apart 0 (omega arith)) in
    rw (here, rest) refl

-- One character more at the end.
pub gather_snoc :
    (n i : ℕ) (buf : ℕ → ℕ) → gather (suc n) i buf ≡ gather n i buf ++ (buf ((i + n) % 1024) ∷ [])
gather_snoc zero i buf = ap (λ k. buf (k % 1024) ∷ []) (omega arith)
gather_snoc (suc n) i buf = ap (◌∷◌ (buf (i % 1024))) (
    gather_snoc n (suc i) buf
    ∙ ap (λ k. gather n (suc i) buf ++ (buf (k % 1024) ∷ [])) (omega arith))

-- The macros and the functions agree on when a ring is full, and 1023 characters are the most.
pub full-tty_isfull_q : (q : Queue) → IsRing q → full q ≡ tty_isfull_q q
unfolding full left tty_isfull_q
full-tty_isfull_q q ring = ground (arith, ring.head, ring.tail)

pub chars-putch :
    (q : Queue) (c : ℕ) → IsRing q → chars q < 1023 → chars (putch c q) ≡ suc (chars q)
unfolding chars putch inc
chars-putch q c ring room = omega (arith, ring.head, ring.tail, room)

-- PUTCH puts a character at the end of a ring that is not full.
pub contents-putch :
    (q : Queue) (c : ℕ) → IsRing q → chars q < 1023 → contents (putch c q) ≡ contents q ++ (c ∷ [])
unfolding putch
contents-putch q c ring room =
    let n = chars q in
    let buf' = update q.buf q.head c in
    let end : (q.tail + n) % 1024 ≡ q.head = unfold chars in omega (arith, ring.head, ring.tail) in
    let at_end : buf' ((q.tail + n) % 1024) ≡ c = rw end (update_self q.buf q.head c) in
    let before : gather n q.tail buf' ≡ gather n q.tail q.buf =
      gather-update n q.tail q.head c q.buf
        (λ k lt. unfold chars in omega (arith, ring.head, ring.tail, lt)) in
    ap (λ m. gather m q.tail buf') (chars-putch q c ring room)
    ∙ gather_snoc n q.tail buf'
    ∙ rw (before, at_end) refl

pub chars-getch : (q : Queue) → IsRing q → 0 < chars q → chars q ≡ suc (chars (getch q).1)
unfolding chars getch inc
chars-getch q ring some_left = omega (arith, ring.head, ring.tail, some_left)

-- GETCH takes the first character of a ring that is not empty.
pub contents-getch :
    (q : Queue) → IsRing q → 0 < chars q → contents q ≡ (getch q).0 ∷ contents (getch q).1
unfolding getch inc
contents-getch q ring some_left =
    let n = chars (getch q).1 in
    let here : q.tail % 1024 ≡ q.tail = omega (arith, ring.tail) in
    ap (λ m. gather m q.tail q.buf) (chars-getch q ring some_left)
    ∙ rw (here, gather_around n (suc q.tail) ((q.tail + 1) % 1024) q.buf (omega arith)) refl

pub putch-IsRing : (q : Queue) (c : ℕ) → IsRing q → IsRing (putch c q)
unfolding putch inc
putch-IsRing q c ring = record { head = omega arith; tail = ring.tail }

pub getch-IsRing : (q : Queue) → IsRing q → IsRing (getch q).1
unfolding getch inc
getch-IsRing q ring = record { head = ring.head; tail = omega arith }

push_lem :
    (q : Queue) (c : ℕ)
    → tty_push_q q c ≡ (if tty_isfull_q q then (false, q) else (true, putch c q))
unfolding tty_push_q putch inc
push_lem q c = refl

isfull-chars : (q : Queue) → IsRing q → tty_isfull_q q ≡ (chars q == 1023)
unfolding tty_isfull_q chars
isfull-chars q ring = ground (arith, ring.head, ring.tail)

isempty-chars : (q : Queue) → IsRing q → tty_isempty_q q ≡ (chars q == 0)
unfolding tty_isempty_q chars
isempty-chars q ring = ground (arith, ring.head, ring.tail)

-- `tty_push_q` adds a character at the end, or refuses it, and then changes nothing, exactly when
-- 1023 characters are in the queue. The positions stay in the array.
pub tty_push_q-contents :
    (q : Queue) (c : ℕ)
    → IsRing q
    → IsRing (tty_push_q q c).1
      × (((length (contents q) ≡ 1023) × (tty_push_q q c ≡ (false, q)))
          ⊎ (length (contents q) < 1023)
            × ((tty_push_q q c).0 ≡ true)
            × (contents (tty_push_q q c).1 ≡ contents q ++ (c ∷ [])))
tty_push_q-contents q c ring = elim (Bool-cases (tty_isfull_q q)) [
  | inl is_full ↦
      let pushed : tty_push_q q c ≡ (false, q) = push_lem q c ∙ rw is_full refl in
      (
        rw pushed ring,
        inl (length-gather (chars q) q.tail q.buf ∙ ground (arith, isfull-chars q ring), pushed),
      )
  | inr has_room ↦
      let pushed : tty_push_q q c ≡ (true, putch c q) = push_lem q c ∙ rw has_room refl in
      let room : chars q < 1023 =
        unfold chars in ground (arith, isfull-chars q ring, ring.head, ring.tail) in
      (
        rw pushed (putch-IsRing q c ring),
        inr (
          rw (length-gather (chars q) q.tail q.buf) room,
          rw pushed refl,
          rw pushed (contents-putch q c ring room),
        ),
      )
]

-- `tty_pop_q` takes the oldest character of a queue that is not empty, and the positions stay in the
-- array. `tty_isempty_q` tells whether there is one.
pub tty_pop_q-contents :
    (q : Queue)
    → IsRing q
    → IsRing (tty_pop_q q).1
      × (((tty_isempty_q q ≡ true) × (contents q ≡ []))
          ⊎ (tty_isempty_q q ≡ false) × (contents q ≡ (tty_pop_q q).0 ∷ contents (tty_pop_q q).1))
tty_pop_q-contents q ring = (
  unfold tty_pop_q in record { head = ring.head; tail = omega arith },
  elim (Bool-cases (tty_isempty_q q)) [
    | inl is_empty ↦
        let zero_left : chars q ≡ 0 = ground (arith, isempty-chars q ring) in
        inl (is_empty, rw zero_left refl)
    | inr has_some ↦
        let some_left : 0 < chars q = ground (arith, isempty-chars q ring) in
        inr (has_some, unfold tty_pop_q getch inc in contents-getch q ring some_left)
  ],
)
