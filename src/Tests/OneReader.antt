-- ===== src/Tests/OneReader.antt =====
-- Tests of the interface to the block cache: `bread` and `brelse` of the modelled cache, with one
-- buffer, keep what `IsReader` promises.
use hios.Base.{
  ℕ, ◌%◌, ◌≡◌, refl, sym, ◌∙◌, ap, inl, inr, arith, true, false, Bool-cases, Option, none, some,
  update,
}
use hios.Run.{ok, Cmd, and_then}
use hios.Cache.{Cache, read, count_down, brelse, bread}
use hios.Cache.Getblk.{wait_on_buffer-free}
use hios.Blocks.{BlockLayer, Disk, IsReader}
use hios.Tests.OneBuffer.{
  no_sleep, no_inodes, finish, transfer, One, cached_getblk, getblk-One, count_down-One,
}

abbrev bytes_in : Option (ℕ → ℕ) → ℕ → ℕ
bytes_in none = λ k. 0
bytes_in (some c) = c

module _ (disk : Disk) where
  brelse-One :
      (s : Cache)
      → One disk 1 s
      → brelse no_sleep (transfer disk) no_inodes 3 (some 0) s ≡ ok (some tt) (count_down 0 s)
  unfolding brelse
  brelse-One s one =
      rw (wait_on_buffer-free no_sleep (transfer disk) no_inodes 3 0 s one.unlocked, one.held) refl

  -- the state after the device has read a good block
  abbrev filled : (ℕ → ℕ) → Cache → Cache
  filled c s = record s { b_data = update s.b_data 0 c; b_uptodate = update s.b_uptodate 0 true }

  filled-One :
      (c : ℕ → ℕ) (s : Cache)
      → One disk 1 s
      → disk (s.b_dev 0) (s.b_blocknr 0) ≡ some c
      → One disk 1 (filled c s)
  filled-One c s one there = record {
    buffers = one.buffers;
    first = one.first;
    next_free = one.next_free;
    prev_free = one.prev_free;
    next = one.next;
    prev = one.prev;
    held = one.held;
    unlocked = one.unlocked;
    clean_buffer = one.clean_buffer;
    hashed = one.hashed;
    good = λ up. there;
  }

  transfer-good :
      (c : ℕ → ℕ) (s : Cache)
      → disk (s.b_dev 0) (s.b_blocknr 0) ≡ some c
      → transfer disk read 0 s ≡ ok tt (filled c s)
  unfolding transfer
  transfer-good c s there = rw (there, transfer) refl

  transfer-bad :
      (s : Cache) → disk (s.b_dev 0) (s.b_blocknr 0) ≡ none → transfer disk read 0 s ≡ ok tt s
  unfolding transfer
  transfer-bad s lost = rw (lost, transfer) refl

  abbrev cached_bread : ℕ → ℕ → Cmd Cache (Option (Option ℕ))
  cached_bread = bread no_sleep (transfer disk) no_inodes 3

  bread-kept :
      (dev block : ℕ) (s s1 : Cache)
      → cached_getblk disk dev block s ≡ ok (some 0) s1
      → s1.b_uptodate 0 ≡ true
      → cached_bread dev block s ≡ ok (some (some 0)) s1
  unfolding bread
  bread-kept dev block s s1 run up = rw run (rw (up, and_then, bread) refl)

  bread-filled :
      (dev block : ℕ) (c : ℕ → ℕ) (s s1 : Cache)
      → cached_getblk disk dev block s ≡ ok (some 0) s1
      → s1.b_uptodate 0 ≡ false
      → s1.b_lock 0 ≡ false
      → disk (s1.b_dev 0) (s1.b_blocknr 0) ≡ some c
      → cached_bread dev block s ≡ ok (some (some 0)) (filled c s1)
  unfolding bread
  bread-filled dev block c s s1 run stale free there =
      let waits = wait_on_buffer-free no_sleep (transfer disk) no_inodes 3 0 (filled c s1) free in
      rw run (
        rw (stale, and_then, bread)
          (rw (transfer-good c s1 there) (rw (waits, and_then, bread) refl)))

  bread-failed :
      (dev block : ℕ) (s s1 : Cache)
      → cached_getblk disk dev block s ≡ ok (some 0) s1
      → s1.b_uptodate 0 ≡ false
      → One disk 1 s1
      → disk (s1.b_dev 0) (s1.b_blocknr 0) ≡ none
      → cached_bread dev block s ≡ ok (some none) (count_down 0 s1)
  unfolding bread
  bread-failed dev block s s1 run stale one lost =
      let waits = wait_on_buffer-free no_sleep (transfer disk) no_inodes 3 0 s1 one.unlocked in
      rw run (
        rw (stale, and_then, bread)
          (rw (transfer-bad s1 lost)
            (rw (waits, and_then, bread) (rw (stale, brelse-One s1 one) refl))))

  -- The blocks and files use the modelled cache.
  abbrev pub cached : BlockLayer
  cached = record {
    State = Cache;
    bread = λ dev block s. finish (cached_bread dev block s);
    brelse = λ bh s. finish (brelse no_sleep (transfer disk) no_inodes 3 (some bh) s);
    b_data = λ s bh. s.b_data bh;
    write_data = λ bh k v s. record s {
      b_data = update s.b_data bh (update (s.b_data bh) k v);
      b_dirt = update s.b_dirt bh true;
    };
  }

  abbrev pub HeldOne : ℕ → Cache → Type 0
  HeldOne bh s = (bh ≡ 0) × One disk 1 s

  -- A device number has 16 bits.
  pub cached-IsReader : IsReader cached (λ dev. disk (dev % 65536)) (One disk 0) HeldOne
  cached-IsReader = record {
    reads = λ dev block c s one there.
        (let (s1, run, one1, same_dev, same_block) = getblk-One disk dev block s one in
          let here : disk (s1.b_dev 0) (s1.b_blocknr 0) ≡ some c =
            rw (same_dev, same_block) there in
          elim (Bool-cases (s1.b_uptodate 0)) [
            | inl up ↦ (
              0,
              s1,
              ap finish (bread-kept dev block s s1 run up),
              (refl, one1),
              ap bytes_in (sym (one1.good up) ∙ here),
            )
            | inr stale ↦ (
              0,
              filled c s1,
              ap finish (bread-filled dev block c s s1 run stale one1.unlocked here),
              (refl, filled-One c s1 one1 here),
              refl,
            )
          ]);
    fails = λ dev block s one lost.
        (let (s1, run, one1, same_dev, same_block) = getblk-One disk dev block s one in
          let here : disk (s1.b_dev 0) (s1.b_blocknr 0) ≡ none = rw (same_dev, same_block) lost in
          elim (Bool-cases (s1.b_uptodate 0)) [
            | inl up ↦ absurd (ground (arith, one1.good up))
            | inr stale ↦ (
              count_down 0 s1,
              ap finish (bread-failed dev block s s1 run stale one1 here),
              count_down-One disk s1 one1,
            )
          ]);
    releases = λ bh s (zero_is, one).
        (count_down 0 s, rw zero_is (ap finish (brelse-One s one)), count_down-One disk s one);
  }
