-- ===== src/Tests/OneBuffer.antt =====
-- Tests of the interfaces to the block cache (fs/buffer.c): the modelled cache, with one buffer and a
-- device that answers at once, keeps what `IsReader` promises.
use hios.Base.{
  ℕ, ◌%◌, ◌≡◌, refl, ◌⊎◌, inl, inr, arith, true, false, Bool-cases, Option-cases, not, ◌&&◌, ◌==◌,
  if◌then◌else◌, Option, none, some, update,
}
use hios.Run.{Run, ok, panic, Cmd, free_list_corrupted}
use hios.Cache.{
  Cache, WaitQueue, Direction, read, write, hashfn, is_block, find_loop, find_buffer, count_up,
  count_down, badness, better, choose, stops, follow, scan_free, leave_hash, leave_free,
  remove_from_queues, join_free, join_hash, insert_into_queues, assign, getblk, take_buffer,
  name_block, off_ring,
}
use hios.Cache.Getblk.{getblk-hit, getblk-miss}
use hios.Blocks.{Disk}

abbrev pub no_sleep : WaitQueue → Cmd Cache (Unit {0})
no_sleep q = ok tt

abbrev pub no_inodes : Cmd Cache (Unit {0})
no_inodes = ok tt

-- The code is not waiting when the fuel ends.
abbrev pub finish : {A : Type 0} → Run Cache (Option A) → Run Cache A
finish (ok (some a) s) = ok a s
finish (ok none s) = panic free_list_corrupted
finish (panic e) = panic e

module _ (disk : Disk) where
  -- The device answers at once.
  unfoldable pub transfer : Direction → ℕ → Cmd Cache (Unit {0})
  transfer write bh s = ok tt s
  transfer read bh s = elim (disk (s.b_dev bh) (s.b_blocknr bh)) [
    | none ↦ ok tt s
    | some c ↦
        ok tt (record s { b_data = update s.b_data bh c; b_uptodate = update s.b_uptodate bh true })
  ]

  -- The one buffer is in its hash queue and alone in the ring, is neither locked nor dirty, and holds
  -- its block if it is up to date; `count` tasks hold it.
  pub record One (count : ℕ) (s : Cache) : Type 0 where
    pub buffers : s.nr_buffers ≡ 1
    pub first : s.free_list ≡ 0
    pub next_free : s.b_next_free 0 ≡ some 0
    pub prev_free : s.b_prev_free 0 ≡ some 0
    pub next : s.b_next 0 ≡ none
    pub prev : s.b_prev 0 ≡ none
    pub held : s.b_count 0 ≡ count
    pub unlocked : s.b_lock 0 ≡ false
    pub clean_buffer : s.b_dirt 0 ≡ false
    pub hashed :
        (h : ℕ)
        → s.hash_table h ≡ (
            if not (s.b_dev 0 == 0) && (hashfn (s.b_dev 0) (s.b_blocknr 0) == h)
            then some 0
            else none)
    pub good : s.b_uptodate 0 ≡ true → disk (s.b_dev 0) (s.b_blocknr 0) ≡ some (s.b_data 0)

  -- `s` with the buffer in use
  count_up-One : (s : Cache) → One 0 s → One 1 (count_up 0 s)
  unfolding count_up
  count_up-One s one = record {
    buffers = one.buffers;
    first = one.first;
    next_free = one.next_free;
    prev_free = one.prev_free;
    next = one.next;
    prev = one.prev;
    held = rw one.held refl;
    unlocked = one.unlocked;
    clean_buffer = one.clean_buffer;
    hashed = one.hashed;
    good = one.good;
  }

  pub count_down-One : (s : Cache) → One 1 s → One 0 (count_down 0 s)
  unfolding count_down
  count_down-One s one = record {
    buffers = one.buffers;
    first = one.first;
    next_free = one.next_free;
    prev_free = one.prev_free;
    next = one.next;
    prev = one.prev;
    held = rw one.held refl;
    unlocked = one.unlocked;
    clean_buffer = one.clean_buffer;
    hashed = one.hashed;
    good = one.good;
  }

  find_buffer-One :
      (c dev block : ℕ) (s : Cache)
      → One c s
      → ((find_buffer dev block s ≡ some 0) × (is_block dev block 0 s ≡ true))
        ⊎ (find_buffer dev block s ≡ none)
  unfolding find_buffer find_loop is_block
  find_buffer-One c dev block s one = elim (Option-cases (s.hash_table (hashfn dev block))) [
    | inl empty ↦ inr (rw (one.buffers, empty, find_buffer) refl)
    | inr (i, there) ↦
        let zero_is : i ≡ 0 = ground (arith, one.hashed (hashfn dev block)) in
        elim (Bool-cases (is_block dev block 0 s)) [
          | inl match ↦ inl (rw (one.buffers, there, zero_is, match, find_buffer) refl, match)
          | inr other ↦ inr (rw (one.buffers, there, zero_is, other, one.next, find_buffer) refl)
        ]
  ]

  -- The buffer taken for another block
  abbrev renamed : ℕ → ℕ → Cache → Cache
  renamed dev block s =
      insert_into_queues 0
        (name_block dev block 0 (off_ring 0 0 0 (leave_hash 0 (take_buffer 0 s))))

  assign-One :
      (dev block : ℕ) (s : Cache) → One 0 s → assign dev block 0 s ≡ ok tt (renamed dev block s)
  unfolding assign remove_from_queues leave_free leave_hash
  assign-One dev block s one =
      rw (one.prev_free, one.next_free, assign, remove_from_queues, leave_free) refl

  left_hash : (s : Cache) → One 0 s → (h : ℕ) → (leave_hash 0 (take_buffer 0 s)).hash_table h ≡ none
  unfolding leave_hash
  left_hash s one h =
      ground (arith, one.next, one.hashed h, one.hashed (hashfn (s.b_dev 0) (s.b_blocknr 0)))

  renamed-One : (dev block : ℕ) (s : Cache) → One 0 s → One 1 (renamed dev block s)
  unfolding insert_into_queues join_hash join_free leave_hash
  renamed-One dev block s one =
      let gone = left_hash s one in
      record {
        buffers = one.buffers;
        first = ground (arith, one.first);
        next_free = rw one.first refl;
        prev_free = rw one.first refl;
        next = ground (arith, gone (hashfn (dev % 65536) block));
        prev = ground (arith, one.prev, gone (hashfn (dev % 65536) block));
        held = refl;
        unlocked = one.unlocked;
        clean_buffer = refl;
        hashed = λ h. ground (arith, gone h);
        good = λ up. absurd (ground arith);
      }

  abbrev pub cached_getblk : ℕ → ℕ → Cmd Cache (Option ℕ)
  cached_getblk = getblk no_sleep transfer no_inodes 3

  -- `getblk` takes the buffer for the block.
  abbrev pub Got : ℕ → ℕ → Run Cache (Option ℕ) → Type 0
  Got dev block r =
      (s' : Cache) × (r ≡ ok (some 0) s')
      × One 1 s'
      × (s'.b_dev 0 ≡ dev % 65536)
      × (s'.b_blocknr 0 ≡ block)

  scan_free-One : (s : Cache) → One 0 s → scan_free s.nr_buffers s.free_list none s ≡ some 0
  unfolding scan_free choose stops better badness follow
  scan_free-One s one = rw (one.buffers, one.first, one.held, one.clean_buffer, one.unlocked) refl

  pub getblk-One : (dev block : ℕ) (s : Cache) → One 0 s → Got dev block (cached_getblk dev block s)
  unfolding is_block count_up insert_into_queues join_hash join_free leave_hash badness
  getblk-One dev block s one = elim (find_buffer-One 0 dev block s one) [
    | inl (found, match) ↦ (
      count_up 0 s,
      getblk-hit no_sleep transfer no_inodes 1 dev block 0 s found one.unlocked match,
      count_up-One s one,
      ground arith,
      ground arith,
    )
    | inr lost ↦ (
      renamed dev block s,
      getblk-miss no_sleep transfer no_inodes 1 dev block 0 s (renamed dev block s) lost
          (scan_free-One s one) one.held (rw (one.clean_buffer, one.unlocked) refl)
          (assign-One dev block s one),
      renamed-One dev block s one,
      refl,
      refl,
    )
  ]
