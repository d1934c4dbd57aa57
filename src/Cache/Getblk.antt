-- ===== src/Cache/Getblk.antt =====
-- `getblk`, `brelse` and `bread` of fs/buffer.c.
use hios.Base.{
  ℕ, zero, suc, ◌<◌, ◌≡◌, ◌≢◌, refl, ◌∙◌, ap, ◌⊎◌, inl, inr, arith, true, false, none, some, update,
  update_self,
}
use hios.Run.{ok, Cmd, and_then}
use hios.Cache.{
  Cache, WaitQueue, Direction, badness, is_block, find_buffer, count_up, scan_free, assign,
  wait_on_buffer, get_hash_table, clean, getblk,
}
use hios.Cache.Queues.{IsHashed, find_buffer-cases}
use hios.Cache.Assign.{assign-IsHashed}
use hios.Cache.Ring.{IsRing, Best, scan_free-Best}

count_up-IsHashed : (bh : ℕ) (s : Cache) → IsHashed s → IsHashed (count_up bh s)
unfolding count_up
count_up-IsHashed bh s w = record {
  queue = w.queue;
  links = w.links;
  inside = w.inside;
  all = w.all;
  one = w.one;
}

-- In a ring with an idle buffer that is neither dirty nor locked, the search gives one.
scan_free-idle :
    (s : Cache)
    → IsRing s
    → (i : ℕ) → i < s.nr_buffers
    → s.b_count i ≡ 0
    → badness i s ≡ 0
    → (b : ℕ) × (scan_free s.nr_buffers s.free_list none s ≡ some b)
      × (b < s.nr_buffers)
      × (s.b_count b ≡ 0)
      × (badness b s ≡ 0)
unfolding Best
scan_free-idle s w i lt idle good =
    elim (scan_free-Best s s.nr_buffers s.free_list none w.round (omega (arith, w.size))) [
      | inl (run, _, all) ↦ absurd (all i (w.all i lt) idle)
      | inr (b, run, from, least, _) ↦ elim from [
        | inl e ↦ absurd (ground arith)
        | inr (m, free) ↦
            (b, run, w.inside b m, free, (let le = least i (w.all i lt) idle in omega arith))
      ]
    ]

holds :
    (dev block bh : ℕ) (s : Cache)
    → dev < 65536
    → s.b_dev bh ≡ dev
    → s.b_blocknr bh ≡ block
    → is_block dev block bh s ≡ true
unfolding is_block
holds dev block bh s small d b = ground arith

module _ (sleep_on : WaitQueue → Cmd Cache (Unit {0}))
    (ll_rw_block : Direction → ℕ → Cmd Cache (Unit {0})) (sync_inodes : Cmd Cache (Unit {0})) where
  pub wait_on_buffer-free :
      (fuel bh : ℕ) (s : Cache)
      → s.b_lock bh ≡ false
      → wait_on_buffer sleep_on ll_rw_block sync_inodes fuel bh s ≡ ok (some tt) s
  unfolding wait_on_buffer
  wait_on_buffer-free zero bh s free = rw (free, wait_on_buffer) refl
  wait_on_buffer-free (suc fuel) bh s free = rw (free, wait_on_buffer) refl

  get_hash_table-hit :
      (fuel dev block bh : ℕ) (s : Cache)
      → find_buffer dev block s ≡ some bh
      → s.b_lock bh ≡ false
      → is_block dev block bh s ≡ true
      → get_hash_table sleep_on ll_rw_block sync_inodes (suc fuel) dev block s
        ≡ ok (some (some bh)) (count_up bh s)
  unfolding get_hash_table count_up is_block
  get_hash_table-hit fuel dev block bh s found free is =
      rw (found, get_hash_table)
        (rw (wait_on_buffer-free fuel bh (count_up bh s) free) (rw is refl))

  get_hash_table-miss :
      (fuel dev block : ℕ) (s : Cache)
      → find_buffer dev block s ≡ none
      → get_hash_table sleep_on ll_rw_block sync_inodes (suc fuel) dev block s ≡ ok (some none) s
  unfolding get_hash_table
  get_hash_table-miss fuel dev block s miss = rw (miss, get_hash_table) refl

  clean-idle :
      (fuel bh : ℕ) (s : Cache)
      → s.b_count bh ≡ 0
      → badness bh s ≡ 0
      → clean sleep_on ll_rw_block sync_inodes (suc fuel) bh s ≡ ok (some false) s
  unfolding clean badness
  clean-idle fuel bh s idle good =
      let free : s.b_lock bh ≡ false = ground arith in
      let tidy : s.b_dirt bh ≡ false = ground arith in
      rw (wait_on_buffer-free fuel bh s free, idle, tidy) refl

  pub getblk-hit :
      (fuel dev block bh : ℕ) (s : Cache)
      → find_buffer dev block s ≡ some bh
      → s.b_lock bh ≡ false
      → is_block dev block bh s ≡ true
      → getblk sleep_on ll_rw_block sync_inodes (suc (suc fuel)) dev block s
        ≡ ok (some bh) (count_up bh s)
  unfolding getblk
  getblk-hit fuel dev block bh s found free is =
      rw (get_hash_table-hit fuel dev block bh s found free is) refl

  pub getblk-miss :
      (fuel dev block bh : ℕ) (s s' : Cache)
      → find_buffer dev block s ≡ none
      → scan_free s.nr_buffers s.free_list none s ≡ some bh
      → s.b_count bh ≡ 0
      → badness bh s ≡ 0
      → assign dev block bh s ≡ ok tt s'
      → getblk sleep_on ll_rw_block sync_inodes (suc (suc fuel)) dev block s ≡ ok (some bh) s'
  unfolding getblk
  getblk-miss fuel dev block bh s s' miss scan idle good run =
      rw (get_hash_table-miss fuel dev block s miss) (
        rw (scan, and_then, getblk)
          (rw (clean-idle fuel bh s idle good) (rw (miss, and_then, getblk) (rw run refl))))

  -- In a cache in order, whose buffers are unlocked and one of which is idle and clean, `getblk` gives
  -- a buffer that holds the block, and the queues stay in order. If the block was in the cache, it is
  -- its one buffer, used by one more; if not, it is a buffer that was idle and clean, used by one.
  pub getblk-IsHashed :
      (fuel dev block i : ℕ) (s : Cache)
      → IsHashed s
      → IsRing s
      → dev ≢ 0
      → dev < 65536
      → ((j : ℕ) → j < s.nr_buffers → s.b_lock j ≡ false)
      → i < s.nr_buffers
      → s.b_count i ≡ 0
      → badness i s ≡ 0
      → (bh : ℕ) × (s' : Cache) × (getblk sleep_on ll_rw_block sync_inodes
            (suc (suc fuel))
            dev
            block
            s
          ≡ ok (some bh) s')
        × IsHashed s'
        × (bh < s.nr_buffers)
        × (is_block dev block bh s' ≡ true)
        × ((is_block dev block bh s ≡ true) × (s' ≡ count_up bh s)
            ⊎ ((j : ℕ) → j < s.nr_buffers → is_block dev block j s ≡ false)
              × (s.b_count bh ≡ 0)
              × (s.b_dirt bh ≡ false)
              × (s'.b_count ≡ update s.b_count bh 1))
  unfolding is_block count_up badness
  getblk-IsHashed fuel dev block i s w ring used small unlocked lt idle good =
      elim (find_buffer-cases dev block s w used small) [
        | inl (miss, fresh) ↦
            let (bh, scan, lb, ib, gb) = scan_free-idle s ring i lt idle good in
            let (p, q, prev, next) = ring.joined bh lb in
            let (s', run, w', d, b, c, _) =
              assign-IsHashed dev block bh p q s w prev next lb used small fresh in
            (
              bh,
              s',
              getblk-miss fuel dev block bh s s' miss scan ib gb run,
              w',
              lb,
              holds dev block bh s' small (ap (λ f. f bh) d ∙ update_self s.b_dev bh dev)
                  (ap (λ f. f bh) b ∙ update_self s.b_blocknr bh block),
              inr (fresh, ib, ground arith, c),
            )
        | inr (bh, found, lb, is, _) ↦ (
          bh,
          count_up bh s,
          getblk-hit fuel dev block bh s found (unlocked bh lb) is,
          count_up-IsHashed bh s w,
          lb,
          is,
          inl (is, refl),
        )
      ]
