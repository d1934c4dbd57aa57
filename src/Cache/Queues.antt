-- ===== src/Cache/Queues.antt =====
-- The hash queues of fs/buffer.c: `find_buffer` finds a block if and only if it is in the cache.
use hios.Base.{
  ℕ, zero, suc, ◌≤◌, ◌<◌, ◌≡◌, ◌≢◌, refl, sym, ◌∙◌, ◌⊎◌, inl, inr, arith, true, false, Bool-cases,
  ◌==◌, Option, none, some, List, length,
}
use hios.Cache.{Cache, hashfn, is_block, find_loop, find_buffer}
use hios.Cache.Chain.{has, Chain, end, link, Chain-length}
use hios.Cache.Links.{Links}

-- Every buffer with a device is in the queue of its block, and no two hold the same block.
pub record IsHashed (s : Cache) : Type 0 where
  pub queue : ℕ → List ℕ
  pub links : Links s.b_next s.b_prev s.hash_table queue
  pub inside :
      (h i : ℕ)
      → has i (queue h) ≡ true
      → (i < s.nr_buffers) × (s.b_dev i ≢ 0) × (hashfn (s.b_dev i) (s.b_blocknr i) ≡ h)
  pub all :
      (i : ℕ)
      → i < s.nr_buffers
      → s.b_dev i ≢ 0
      → has i (queue (hashfn (s.b_dev i) (s.b_blocknr i))) ≡ true
  pub one :
      (i j : ℕ)
      → i < s.nr_buffers
      → j < s.nr_buffers
      → s.b_dev i ≢ 0
      → s.b_dev i ≡ s.b_dev j
      → s.b_blocknr i ≡ s.b_blocknr j
      → i ≡ j

pub is_block_iff :
    (dev block i : ℕ) (s : Cache)
    → dev < 65536
    → is_block dev block i s ≡ true
    → (s.b_dev i ≡ dev) × (s.b_blocknr i ≡ block)
unfolding is_block
is_block_iff dev block i s small h = (ground arith, ground arith)

find_loop-cases :
    (s : Cache) (fuel dev block : ℕ) {p : Option ℕ} {l : List ℕ}
    → Chain s.b_next p l
    → length l ≤ fuel
    → (find_loop fuel dev block p s ≡ none)
        × ((i : ℕ) → has i l ≡ true → is_block dev block i s ≡ false)
      ⊎ ((i : ℕ) × (find_loop fuel dev block p s ≡ some i)
          × (has i l ≡ true)
          × (is_block dev block i s ≡ true))
unfolding find_loop
find_loop-cases s fuel dev block end fits = inl (refl, λ i m. absurd (ground arith))
find_loop-cases s zero dev block (link new c) fits = absurd (omega arith)
find_loop-cases s (suc fuel) dev block (link {i = j} {l = l} new c) fits =
    elim (Bool-cases (is_block dev block j s)) [
      | inl hit ↦ inr (j, rw hit refl, ground arith, hit)
      | inr miss ↦ elim (find_loop-cases s fuel dev block c (omega arith)) [
        | inl (run, all) ↦ inl (
          rw (miss, run) refl,
          λ i m. elim (Bool-cases (i == j)) [
            | inl same ↦ let e : i ≡ j = ground arith in rw e miss
            | inr other ↦ all i (ground arith)
          ],
        )
        | inr (i, run, m, hit) ↦ inr (i, rw (miss, run) refl, ground arith, hit)
      ]
    ]

-- In a cache whose queues are in order, `find_buffer` finds the one buffer that holds the block, or
-- no buffer holds it. The number of buffers is enough fuel for the walk along the queue.
pub find_buffer-cases :
    (dev block : ℕ) (s : Cache)
    → IsHashed s
    → dev ≢ 0
    → dev < 65536
    → (find_buffer dev block s ≡ none)
        × ((i : ℕ) → i < s.nr_buffers → is_block dev block i s ≡ false)
      ⊎ ((i : ℕ) × (find_buffer dev block s ≡ some i)
          × (i < s.nr_buffers)
          × (is_block dev block i s ≡ true)
          × ((j : ℕ) → j < s.nr_buffers → is_block dev block j s ≡ true → j ≡ i))
unfolding find_buffer
find_buffer-cases dev block s w used small =
    let h = hashfn dev block in
    let fits = Chain-length s.nr_buffers (w.links.runs h) (λ i m. (w.inside h i m).0) in
    let here : (i : ℕ)
        → i < s.nr_buffers
        → is_block dev block i s ≡ true
        → has i (w.queue h) ≡ true =
      λ i lt hit.
        let (d, b) = is_block_iff dev block i s small hit in
        rw (sym d, sym b) (w.all i lt (λ q. used (sym d ∙ q))) in
    elim (find_loop-cases s s.nr_buffers dev block (w.links.runs h) fits) [
      | inl (run, none_is) ↦ inl (
        run,
        λ i lt. elim (Bool-cases (is_block dev block i s)) [
          | inl hit ↦ ground (arith, none_is i (here i lt hit))
          | inr miss ↦ miss
        ],
      )
      | inr (i, run, m, hit) ↦
          let (d, b) = is_block_iff dev block i s small hit in
          let (lt, dv, key) = w.inside h i m in
          inr (
            i,
            run,
            lt,
            hit,
            λ j lj hj.
                (let (d', b') = is_block_iff dev block j s small hj in
                  w.one j i lj lt (λ q. used (sym d' ∙ q)) (d' ∙ sym d) (b' ∙ sym b)),
          )
    ]
