-- ===== src/Tests/Freeing.antt =====
-- Tests of fs/bitmap.c, on the modelled block cache.
use hios.Base.{
  ℕ, ◌+◌, ◌-◌, ◌%◌, ◌≡◌, ◌≢◌, refl, ◌⊎◌, arith, ◌==◌, if◌then◌else◌, none, some, true, false,
  update,
}
use hios.Run.{ok}
use hios.Cache.{
  Cache, count_up, count_down, hashfn, is_block, find_loop, find_buffer, wait_on_buffer,
  get_hash_table, brelse,
}
use hios.Blocks.{Disk}
use hios.Bitmap.{MapLayer, SuperBlock, bit_at, cleared_byte, clear_bit, free_bit, free_block}
use hios.Bitmap.Bits.{IsMapLayer, Cleared, free_block-Cleared}
use hios.Tests.Caching.{blank}
use hios.Tests.OneBuffer.{no_sleep, no_inodes, finish, transfer}

-- Nothing is read here.
abbrev no_disk : Disk
no_disk dev block = none

abbrev cached_map : MapLayer
cached_map = record {
  State = Cache;
  get_hash_table =
      λ dev block s. finish (get_hash_table no_sleep (transfer no_disk) no_inodes 2 dev block s);
  brelse = λ bh s. finish (brelse no_sleep (transfer no_disk) no_inodes 2 (some bh) s);
  b_count = λ s. s.b_count;
  b_data = λ s bh k. s.b_data bh k % 256;
  discard = λ bh s. record s {
    b_dirt = update s.b_dirt bh false;
    b_uptodate = update s.b_uptodate bh false;
  };
  write_byte = λ bh k v s. record s {
    b_data = update s.b_data bh (update (s.b_data bh) k v);
    b_dirt = update s.b_dirt bh true;
  };
}

cached_map-IsMapLayer : IsMapLayer cached_map
cached_map-IsMapLayer = record {
  writes = λ s bh k v bh' j small. ground arith;
  bytes = λ s bh k. omega arith;
}

-- A device whose data zone begins at block 10, and whose bitmap is in buffer 4
abbrev super : SuperBlock
super = record {
  s_ninodes = 100;
  s_nzones = 200;
  s_firstdatazone = 10;
  s_imap = λ i. if i == 0 then some 3 else none;
  s_zmap = λ i. if i == 0 then some 4 else none;
}

-- Buffer 4 has the bitmap, with all bits set; buffer 0 holds block 15, and `count` tasks use it.
abbrev cache : ℕ → Cache
cache count = record blank {
  b_data = λ bh k. if bh == 4 then 255 else 0;
  b_dev = λ bh. 1;
  b_blocknr = λ bh. if bh == 0 then 15 else 3;
  b_count = λ bh. if bh == 0 then count else 1;
  hash_table = λ h. if h == 14 then some 0 else none;
  nr_buffers = 5;
}

-- Nobody uses the block, and its bit is cleared.
frees_bit_6 :
    (s' : Cache) × (free_block cached_map (some super) 1 15 (cache 0) ≡ ok tt s')
    × (s'.b_data 4 0 ≡ 191)
    × (s'.b_data 4 1 ≡ 255)
    × (s'.b_count 0 ≡ 0)
unfolding free_block free_bit clear_bit cleared_byte bit_at get_hash_table brelse find_buffer
    find_loop hashfn is_block wait_on_buffer count_up count_down
frees_bit_6 = (_, refl, refl, refl, refl)

-- One task uses it besides.
in_use : cached_map.get_hash_table 1 15 (cache 1) ≡ ok (some 0) (count_up 0 (cache 1))
unfolding get_hash_table find_buffer find_loop hashfn is_block wait_on_buffer count_up
in_use = refl

free_block-Cleared_example :
    ((own : ℕ) × (some 0 ≡ some own)
      × (cached_map.b_count (count_up 0 (cache 1)) own ≢ 1)
      × (free_block cached_map (some super) 1 15 (cache 1) ≡ ok tt (count_up 0 (cache 1))))
    ⊎ (((own : ℕ) → some 0 ≡ some own → cached_map.b_count (count_up 0 (cache 1)) own ≡ 1)
        × Cleared cached_map cached_map-IsMapLayer
            (cached_map.b_data (cache 1))
            ((15 + 1 - 10) % 8192)
            4
            (free_block cached_map (some super) 1 15 (cache 1)))
unfolding count_up
free_block-Cleared_example =
    free_block-Cleared cached_map cached_map-IsMapLayer super 1 15 4 (cache 1) (some 0)
      (count_up 0 (cache 1)) (omega arith) (omega arith) refl in_use refl
      (λ own is one. absurd (ground arith))
