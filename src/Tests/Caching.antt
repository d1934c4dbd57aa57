-- ===== src/Tests/Caching.antt =====
-- Tests of fs/buffer.c, on a cache as buffer_init makes it in memory for a few buffers.
use hios.Base.{ℕ, ◌+◌, ◌/◌, ◌<◌, ◌≡◌, refl, ◌⊎◌, arith, true, false, none, some, update}
use hios.Run.{ok, Cmd}
use hios.Cache.{
  Cache, WaitQueue, Direction, badness, is_block, find_buffer, count_up, getblk, usable_end,
  init_head, init_loop, close_ring, buffer_init,
}
use hios.Cache.Queues.{IsHashed, find_buffer-cases}
use hios.Cache.Ring.{IsRing}
use hios.Cache.Getblk.{getblk-IsHashed}
use hios.Cache.Init.{IsFresh, buffer_init-IsFresh}

abbrev pub blank : Cache
blank = record {
  b_data = λ i k. 0;
  b_blocknr = λ i. 0;
  b_dev = λ i. 0;
  b_uptodate = λ i. false;
  b_dirt = λ i. false;
  b_count = λ i. 0;
  b_lock = λ i. false;
  b_prev = λ i. none;
  b_next = λ i. none;
  b_prev_free = λ i. none;
  b_next_free = λ i. none;
  hash_table = λ h. none;
  free_list = 0;
  nr_buffers = 0;
}

buffer_init-IsFresh_example :
    (s' : Cache) × (buffer_init (usable_end 8192 / 1024 + 1) 4096 8192 blank ≡ some s') × IsFresh s'
buffer_init-IsFresh_example =
    buffer_init-IsFresh 4096 8192 blank refl (λ i. (refl, refl)) (omega arith)

-- Three buffers
booted : Cache
booted = elim (buffer_init 9 4096 8192 blank) [ none ↦ blank | some s ↦ s ]

booted_has_3 : booted.nr_buffers ≡ 3
unfolding booted buffer_init init_loop init_head close_ring
booted_has_3 = refl

booted-IsFresh : IsFresh booted
unfolding booted
booted-IsFresh = let (s, run, fresh) = buffer_init-IsFresh_example in rw (run, booted) fresh

booted-IsHashed : IsHashed booted
unfolding IsFresh
booted-IsHashed = booted-IsFresh.1

booted-IsRing : IsRing booted
unfolding IsFresh
booted-IsRing = booted-IsFresh.2

free_buffers :
    (i : ℕ)
    → i < booted.nr_buffers
    → (booted.b_dev i ≡ 0)
      × (booted.b_count i ≡ 0)
      × (booted.b_lock i ≡ false)
      × (badness i booted ≡ 0)
unfolding IsFresh
free_buffers = booted-IsFresh.3

find_buffer-cases_example :
    (find_buffer 1 7 booted ≡ none)
      × ((i : ℕ) → i < booted.nr_buffers → is_block 1 7 i booted ≡ false)
    ⊎ ((i : ℕ) × (find_buffer 1 7 booted ≡ some i)
        × (i < booted.nr_buffers)
        × (is_block 1 7 i booted ≡ true)
        × ((j : ℕ) → j < booted.nr_buffers → is_block 1 7 j booted ≡ true → j ≡ i))
find_buffer-cases_example = find_buffer-cases 1 7 booted booted-IsHashed (omega arith) (omega arith)

abbrev no_sleep : WaitQueue → Cmd Cache (Unit {0})
no_sleep q = ok tt

abbrev no_device : Direction → ℕ → Cmd Cache (Unit {0})
no_device rw' bh = ok tt

getblk-IsHashed_example :
    (bh : ℕ) × (s' : Cache) × (getblk no_sleep no_device (ok tt) 2 1 7 booted ≡ ok (some bh) s')
    × IsHashed s'
    × (bh < booted.nr_buffers)
    × (is_block 1 7 bh s' ≡ true)
    × ((is_block 1 7 bh booted ≡ true) × (s' ≡ count_up bh booted)
        ⊎ ((j : ℕ) → j < booted.nr_buffers → is_block 1 7 j booted ≡ false)
          × (booted.b_count bh ≡ 0)
          × (booted.b_dirt bh ≡ false)
          × (s'.b_count ≡ update booted.b_count bh 1))
getblk-IsHashed_example =
    getblk-IsHashed no_sleep no_device (ok tt) 0 1 7 0 booted booted-IsHashed booted-IsRing
      (omega arith) (omega arith) (λ j lt. (free_buffers j lt).2) (omega (arith, booted_has_3))
      (free_buffers 0 (omega (arith, booted_has_3))).1
      (free_buffers 0 (omega (arith, booted_has_3))).3
