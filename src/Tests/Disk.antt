-- ===== src/Tests/Disk.antt =====
-- Tests of the blocks and the reading of files, on a small disk and the modelled block cache with one
-- buffer.
use hios.Base.{
  ℕ, ◌+◌, ◌%◌, ◌≤◌, ◌<◌, ◌≡◌, refl, ◌⊎◌, arith, true, false, ◌||◌, ◌==◌, if◌then◌else◌, none, some,
}
use hios.Run.{ok, Cmd}
use hios.Errno.{ret, fail, error}
use hios.System.{Inode, System}
use hios.Files.{s_isreg, s_isdir}
use hios.Cache.{Cache}
use hios.Blocks.{BlockLayer, Disk, bmap}
use hios.Blocks.Bmap.{zone_of, bmap-zone_of}
use hios.Reading.{Progress, file_read, sys_read}
use hios.Reading.File.{byte_of, IsBad, file_read-Copied}
use hios.Reading.Syscall.{moved, sys_read-rest}
use hios.Tests.Caching.{blank}
use hios.Tests.OneBuffer.{One}
use hios.Tests.OneReader.{cached, cached-IsReader}
use hios.Tests.Forking.{files, system}

-- Block 20 holds the bytes 1 to 7 over and over, block 30 the number 40 and then zeros, block 40
-- nines; block 50 cannot be read.
abbrev disk : Disk
disk dev n =
    if dev == 1
    then if n == 20
      then some (λ k. k % 7 + 1)
      else if n == 30
      then some (λ k. if k == 0 then 40 else 0)
      else if n == 40
      then some (λ _. 9)
      else none
    else none

abbrev layer : BlockLayer
layer = cached disk

-- The buffer is free, and holds no block.
abbrev at_rest : Cache
at_rest = record blank { b_prev_free = λ i. some 0; b_next_free = λ i. some 0; nr_buffers = 1 }

at_rest-One : One disk 0 at_rest
at_rest-One = record {
  buffers = refl;
  first = refl;
  next_free = refl;
  prev_free = refl;
  next = refl;
  prev = refl;
  held = refl;
  unlocked = refl;
  clean_buffer = refl;
  hashed = λ h. refl;
  good = λ up. absurd (ground arith);
}

-- Device numbers have 16 bits.
abbrev device : Disk
device dev = disk (dev % 65536)

-- A file with a block, six holes and a block through zone 7
abbrev a_file : Inode
a_file = record {
  i_mode = 0x81a4;
  i_uid = 0;
  i_size = 8192;
  i_mtime = 0;
  i_gid = 0;
  i_nlinks = 1;
  i_zone = λ z. if z == 0 then 20 else if z == 7 then 30 else 0;
  i_atime = 0;
  i_ctime = 0;
  i_dev = 1;
  i_num = 2;
  i_count = 1;
  i_lock = false;
  i_dirt = false;
  i_pipe = false;
  i_mount = false;
}

abbrev no_new_block : ℕ → Cmd Cache ℕ
no_new_block dev = ok 0

bmap-zone_of_example :
    (s' : Cache) × (bmap layer no_new_block 0 a_file 7 at_rest ≡ ok (zone_of device a_file 7) s')
    × One disk 0 s'
bmap-zone_of_example =
    bmap-zone_of layer no_new_block 0 (cached-IsReader disk) a_file 7 at_rest at_rest-One
      (omega arith)

file_read-Copied_example :
    (n : ℕ) × (p' : Progress) × (s' : Cache) × (file_read layer no_new_block 0 a_file 1020 100 10
        (λ _. 0)
        at_rest
      ≡ ok (if n == 0 then fail error else ret n, p') s')
    × One disk 0 s'
    × (n ≤ 10)
    × (p'.f_pos ≡ 1020 + n)
    × ((k : ℕ) → k < n → p'.user (100 + k) ≡ byte_of device a_file (1020 + k))
    × ((a : ℕ) → (a < 100) ⊎ (100 + n ≤ a) → p'.user a ≡ 0)
    × ((n ≡ 10) ⊎ IsBad device a_file (1020 + n))
file_read-Copied_example =
    file_read-Copied layer no_new_block 0 (cached-IsReader disk) a_file 1020 100 10 (λ _. 0) at_rest
      at_rest-One (omega arith) (omega arith)

-- Descriptor 1 stands for the file.
abbrev with_file : System
with_file = record system { files = record files { inode_table = λ i. a_file } }

sys_read-rest_example :
    (n : ℕ) × (user' : ℕ → ℕ) × (s' : Cache) × (sys_read layer no_new_block 60 1 100 5 with_file
        (λ _. 0)
        at_rest
      ≡ ok ((if n == 0 then fail error else ret n), moved 0 0 (0 + n) 60 with_file, user') s')
    × One disk 0 s'
    × ((k : ℕ) → k < n → user' (100 + k) ≡ byte_of device a_file (0 + k))
    × ((a : ℕ) → (a < 100) ⊎ (100 + n ≤ a) → user' a ≡ 0)
    × ((0 + n ≡ 8192) ⊎ IsBad device a_file (0 + n))
sys_read-rest_example =
    sys_read-rest layer no_new_block 60 (cached-IsReader disk) 1 100 5 0 with_file (λ _. 0) at_rest
      at_rest-One (omega arith) (omega arith) refl regular (omega arith) (omega arith)
  where
    regular : (s_isdir 0x81a4 || s_isreg 0x81a4) ≡ true
    regular = ground arith
