-- ===== src/Cache/Assign.antt =====
-- The end of `getblk` in fs/buffer.c: a buffer leaves its hash queue and goes into that of another
-- block.
use hios.Base.{
  ℕ, ◌<◌, ◌≡◌, ◌≢◌, refl, sym, ◌∙◌, ap, inl, inr, arith, true, false, not, Bool-cases, ◌==◌, ◌%◌,
  if◌then◌else◌, some, update, update_self, update_ne, List, ◌∷◌,
}
use hios.Cache.{
  Cache, hashfn, is_block, leave_hash, leave_free, off_ring, remove_from_queues, join_free,
  join_hash, insert_into_queues, take_buffer, name_block, assign,
}
use hios.Run.{ok}
use hios.Cache.Chain.{has, erase, has-erase_ne, has-erase_self}
use hios.Cache.Links.{Apart, Links-leave, Links-join}
use hios.Cache.Queues.{IsHashed}

-- The queues are in order but for `bh`, which is in none.
record IsHashedBut (bh : ℕ) (s : Cache) : Type 0 where
  queue : ℕ → List ℕ
  apart : Apart bh s.b_next s.b_prev s.hash_table queue
  inside :
      (h i : ℕ)
      → has i (queue h) ≡ true
      → (i < s.nr_buffers) × (s.b_dev i ≢ 0) × (hashfn (s.b_dev i) (s.b_blocknr i) ≡ h)
  all :
      (i : ℕ)
      → i ≢ bh
      → i < s.nr_buffers
      → s.b_dev i ≢ 0
      → has i (queue (hashfn (s.b_dev i) (s.b_blocknr i))) ≡ true
  one :
      (i j : ℕ)
      → i ≢ bh
      → j ≢ bh
      → i < s.nr_buffers
      → j < s.nr_buffers
      → s.b_dev i ≢ 0
      → s.b_dev i ≡ s.b_dev j
      → s.b_blocknr i ≡ s.b_blocknr j
      → i ≡ j

leave_hash-IsHashedBut : (bh : ℕ) (s : Cache) → IsHashed s → IsHashedBut bh (leave_hash bh s)
unfolding leave_hash
leave_hash-IsHashedBut bh s w =
    let k = hashfn (s.b_dev bh) (s.b_blocknr bh) in
    let keep : (h i : ℕ) → has i (erase bh (w.queue h)) ≡ true → has i (w.queue h) ≡ true = λ h i m.
      elim (Bool-cases (bh == i)) [
        | inl same ↦ let e : bh ≡ i = ground arith in ground (arith, has-erase_self bh (w.queue h))
        | inr other ↦ ground (arith, has-erase_ne bh i (w.queue h))
      ] in
    record {
      queue = λ h. erase bh (w.queue h);
      apart = Links-leave bh k w.links (λ h ne. elim (Bool-cases (has bh (w.queue h))) [
        | inl m ↦ absurd (ne (sym (w.inside h bh m).2))
        | inr out ↦ out
      ]);
      inside = λ h i m. w.inside h i (keep h i m);
      all = λ i ne lt used.
          has-erase_ne bh i (w.queue (hashfn (s.b_dev i) (s.b_blocknr i))) (λ e. ne (sym e))
          ∙ w.all i lt used;
      one = λ i j ni nj. w.one i j;
    }

-- The ring and the counts do not matter to the queues.
off_ring-IsHashedBut :
    (bh p q : ℕ) (s : Cache) → IsHashedBut bh s → IsHashedBut bh (off_ring p q bh s)
off_ring-IsHashedBut bh p q s w = record {
  queue = w.queue;
  apart = w.apart;
  inside = w.inside;
  all = w.all;
  one = w.one;
}

join_free-IsHashedBut : (bh : ℕ) (s : Cache) → IsHashedBut bh s → IsHashedBut bh (join_free bh s)
unfolding join_free
join_free-IsHashedBut bh s w = record {
  queue = w.queue;
  apart = w.apart;
  inside = w.inside;
  all = w.all;
  one = w.one;
}

take_buffer-IsHashed : (bh : ℕ) (s : Cache) → IsHashed s → IsHashed (take_buffer bh s)
take_buffer-IsHashed bh s w = record {
  queue = w.queue;
  links = w.links;
  inside = w.inside;
  all = w.all;
  one = w.one;
}

-- The queues of the others do not depend on the block that `bh` holds.
name_block-IsHashedBut :
    (dev block bh : ℕ) (s : Cache) → IsHashedBut bh s → IsHashedBut bh (name_block dev block bh s)
name_block-IsHashedBut dev block bh s w = record {
  queue = w.queue;
  apart = w.apart;
  inside = λ h i m.
      let ne : i ≢ bh = λ e. ground (arith, w.apart.gone h) in
      rw (same_dev i ne, same_block i ne) (w.inside h i m);
  all = λ i ne lt used.
      rw (same_dev i ne, same_block i ne) (w.all i ne lt (λ e. used (same_dev i ne ∙ e)));
  one = λ i j ni nj li lj used d b.
      w.one i j ni nj li lj (λ e. used (same_dev i ni ∙ e))
        (sym (same_dev i ni) ∙ d ∙ same_dev j nj) (sym (same_block i ni) ∙ b ∙ same_block j nj);
}
  where
    same_dev : (i : ℕ) → i ≢ bh → update s.b_dev bh (dev % 65536) i ≡ s.b_dev i
    same_dev i ne = update_ne s.b_dev bh i _ (λ e. ne (sym e))

    same_block : (i : ℕ) → i ≢ bh → update s.b_blocknr bh block i ≡ s.b_blocknr i
    same_block i ne = update_ne s.b_blocknr bh i _ (λ e. ne (sym e))

join_hash-IsHashed :
    (bh : ℕ) (s : Cache)
    → IsHashedBut bh s
    → s.b_dev bh ≢ 0
    → bh < s.nr_buffers
    → ((i : ℕ)
        → i ≢ bh
        → i < s.nr_buffers
        → s.b_dev i ≡ s.b_dev bh
        → s.b_blocknr i ≢ s.b_blocknr bh)
    → IsHashed (join_hash bh s)
unfolding join_hash
join_hash-IsHashed bh s w used lt new =
    let k = hashfn (s.b_dev bh) (s.b_blocknr bh) in
    let has_dev : not (s.b_dev bh == 0) ≡ true = ground arith in
    record {
      queue = λ h. if k == h then bh ∷ w.queue h else w.queue h;
      links = rw has_dev (
          Links-join k (s.hash_table k) refl w.apart
            (λ h i m m'. sym (w.inside h i m).2 ∙ (w.inside k i m').2));
      inside = λ h i m. elim (Bool-cases (i == bh)) [
        | inl same ↦ elim (Bool-cases (k == h)) [
          | inl here ↦ let e : i ≡ bh = ground arith in rw e (lt, used, ground arith)
          | inr there ↦ let e : i ≡ bh = ground arith in absurd (ground (arith, w.apart.gone h))
        ]
        | inr other ↦ w.inside h i (ground arith)
      ];
      all = λ i li ui. elim (Bool-cases (i == bh)) [
        | inl same ↦ let e : i ≡ bh = ground arith in rw e (ground arith)
        | inr other ↦ let m = w.all i (ground arith) li ui in ground arith
      ];
      one = λ i j li lj ui d b. elim (Bool-cases (i == bh)) [
        | inl ib ↦ elim (Bool-cases (j == bh)) [
          | inl jb ↦ ground arith
          | inr nj ↦
              let e : i ≡ bh = ground arith in
              absurd (new j (ground arith) lj (sym d ∙ ap s.b_dev e) (sym b ∙ ap s.b_blocknr e))
        ]
        | inr ni ↦ elim (Bool-cases (j == bh)) [
          | inl jb ↦
              let e : j ≡ bh = ground arith in
              absurd (new i (ground arith) li (d ∙ ap s.b_dev e) (b ∙ ap s.b_blocknr e))
          | inr nj ↦ w.one i j (ground arith) (ground arith) li lj ui d b
        ]
      ];
    }

leave_free-run :
    (bh p q : ℕ) (s : Cache)
    → s.b_prev_free bh ≡ some p
    → s.b_next_free bh ≡ some q
    → leave_free bh s ≡ ok tt (off_ring p q bh s)
unfolding leave_free
leave_free-run bh p q s prev next = rw (prev, next, leave_free) refl

assign-run :
    (dev block bh p q : ℕ) (s : Cache)
    → s.b_prev_free bh ≡ some p
    → s.b_next_free bh ≡ some q
    → assign dev block bh s
      ≡ ok tt (
          insert_into_queues bh
            (name_block dev block bh (off_ring p q bh (leave_hash bh (take_buffer bh s)))))
unfolding assign remove_from_queues leave_hash
assign-run dev block bh p q s prev next =
    rw (leave_free-run bh p q (leave_hash bh (take_buffer bh s)) prev next) refl

-- A buffer that a free ring has room for is taken for a block that no buffer holds: the call does not
-- panic, the queues stay in order, and the buffer holds the block.
pub assign-IsHashed :
    (dev block bh p q : ℕ) (s : Cache)
    → IsHashed s
    → s.b_prev_free bh ≡ some p
    → s.b_next_free bh ≡ some q
    → bh < s.nr_buffers
    → dev ≢ 0
    → dev < 65536
    → ((i : ℕ) → i < s.nr_buffers → is_block dev block i s ≡ false)
    → (s' : Cache) × (assign dev block bh s ≡ ok tt s')
      × IsHashed s'
      × (s'.b_dev ≡ update s.b_dev bh dev)
      × (s'.b_blocknr ≡ update s.b_blocknr bh block)
      × (s'.b_count ≡ update s.b_count bh 1)
      × (s'.nr_buffers ≡ s.nr_buffers)
unfolding leave_hash insert_into_queues join_hash join_free is_block
assign-IsHashed dev block bh p q s w prev next lt used small fresh =
    let s1 = name_block dev block bh (off_ring p q bh (leave_hash bh (take_buffer bh s))) in
    let w1 : IsHashedBut bh (join_free bh s1) = join_free-IsHashedBut bh s1 (
      name_block-IsHashedBut dev block bh _ (
        off_ring-IsHashedBut bh p q _
          (leave_hash-IsHashedBut bh (take_buffer bh s) (take_buffer-IsHashed bh s w)))) in
    let short : dev % 65536 ≡ dev = ground arith in
    (
      insert_into_queues bh s1,
      assign-run dev block bh p q s prev next,
      join_hash-IsHashed bh (join_free bh s1) w1
          (λ e. used (sym short ∙ sym (update_self s.b_dev bh (dev % 65536)) ∙ e)) lt
          (λ i ni li d b.
            (let d' : s.b_dev i ≡ dev % 65536 =
                sym (update_ne s.b_dev bh i _ (λ e. ni (sym e))) ∙ d ∙ update_self s.b_dev bh _ in
              let b' : s.b_blocknr i ≡ block =
                sym (update_ne s.b_blocknr bh i _ (λ e. ni (sym e)))
                ∙ b
                ∙ update_self s.b_blocknr bh _ in
              ground (arith, fresh i li))),
      ap (update s.b_dev bh) short,
      refl,
      refl,
      refl,
    )
