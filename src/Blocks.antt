-- ===== src/Blocks.antt =====
-- The blocks of a file: `_bmap` and `bmap` of fs/inode.c, `file_read` of fs/file_dev.c. `BlockLayer` is
-- what they use of the block cache.
use hios.Base.{
  ℕ, zero, suc, ◌+◌, ◌-◌, ◌*◌, ◌/◌, ◌%◌, ◌≡◌, Bool, true, false, not, ◌&&◌, ltb, leb, ◌==◌,
  if◌then◌else◌, Option, none, some, update, List, ◌∷◌,
}
use hios.Run.{Run, ok, panic, Cmd, and_then, ◌>>=◌, pure, block_big}
use hios.System.{Inode}
use Prim.Native.Nat.{min}
pub mod Bmap
pub mod Truncate

-- `bread`, `brelse` and the bytes of a buffer, on the state of the block cache. `write_data bh k v`
-- stands for `bh->b_data[k] = v` and `bh->b_dirt = 1`.
pub record BlockLayer : Type 1 where
  pub State : Type 0
  pub bread : ℕ → ℕ → Cmd State (Option ℕ)
  pub brelse : ℕ → Cmd State (Unit {0})
  pub b_data : State → ℕ → ℕ → ℕ
  pub write_data : ℕ → ℕ → ℕ → State → State

-- Blocks by device and number; `none` for one that the device fails to read.
abbrev pub Disk : Type 0
Disk = ℕ → ℕ → Option (ℕ → ℕ)

-- What a block layer promises to a task that holds at most one buffer at a time. `Ready` says of a
-- state that the task holds none and that a block can be read, `Held bh` that it holds the buffer `bh`:
-- reading a block gives a buffer with its bytes, or fails where the device does, and the buffer can be
-- released.
pub record IsReader (b : BlockLayer) (disk : Disk) (Ready : b.State → Type 0)
    (Held : ℕ → b.State → Type 0) : Type 0 where
  pub reads :
      (dev block : ℕ) (c : ℕ → ℕ) (s : b.State)
      → Ready s
      → disk dev block ≡ some c
      → (bh : ℕ) × (s' : b.State) × (b.bread dev block s ≡ ok (some bh) s')
        × Held bh s'
        × (b.b_data s' bh ≡ c)
  pub fails :
      (dev block : ℕ) (s : b.State)
      → Ready s
      → disk dev block ≡ none
      → (s' : b.State) × (b.bread dev block s ≡ ok none s') × Ready s'
  pub releases :
      (bh : ℕ) (s : b.State) → Held bh s → (s' : b.State) × (b.brelse bh s ≡ ok tt s') × Ready s'

-- `((unsigned short *) data)[k]`
unfoldable pub short_at : (ℕ → ℕ) → ℕ → ℕ
short_at bytes k = bytes (2 * k) + 256 * bytes (2 * k + 1)

-- BLOCK_SIZE, and the blocks that an inode can have
abbrev pub block_size : ℕ
block_size = 1024

abbrev pub max_blocks : ℕ
max_blocks = 7 + 512 + 512 * 512

-- `new_block` of fs/bitmap.c is a stub, whose value is undefined.
module _ (b : BlockLayer) (new_block : ℕ → Cmd b.State ℕ) (current_time : ℕ) where
  -- `if (create && !inode->i_zone[z]) …`
  unfoldable pub new_zone : ℕ → Bool → Inode → Cmd b.State Inode
  new_zone z create inode s =
      if create && (inode.i_zone z == 0)
      then and_then (new_block inode.i_dev s) (λ n. pure (
          if n % 65536 == 0 then inode else record inode {
            i_zone = update inode.i_zone z (n % 65536);
            i_ctime = current_time;
            i_dirt = true;
          }))
      else ok inode s

  -- The entry `k` of the buffer `bh` with block numbers
  unfoldable pub entry : ℕ → ℕ → ℕ → Bool → Cmd b.State ℕ
  entry dev bh k create s =
      let i = short_at (b.b_data s bh) k in
      if create && (i == 0)
      then and_then (new_block dev s) (λ n s'.
        if n == 0
        then ok n s'
        else ok n
            (b.write_data bh (2 * k + 1) (n / 256 % 256) (b.write_data bh (2 * k) (n % 256) s')))
      else ok i s

  -- `bread` of a block of block numbers, its entry `k`, and `brelse`
  unfoldable pub indirect : ℕ → ℕ → ℕ → Bool → Cmd b.State ℕ
  indirect dev block k create = b.bread dev block >>= λ found. elim found [
    | none ↦ pure 0
    | some bh ↦ entry dev bh k create >>= λ i. b.brelse bh >>= λ _. pure i
  ]

  -- `_bmap`, with the inode as it leaves it
  unfoldable pub bmap_create : Inode → ℕ → Bool → Cmd b.State (ℕ × Inode)
  bmap_create inode block create s =
      if leb max_blocks block
      then panic block_big
      else if ltb block 7
      then and_then (new_zone block create inode s) (λ inode'. pure (inode'.i_zone block, inode'))
      else if ltb (block - 7) 512
      then and_then (new_zone 7 create inode s) (λ inode' s'.
        if inode'.i_zone 7 == 0
        then ok (0, inode') s'
        else and_then (indirect inode'.i_dev (inode'.i_zone 7) (block - 7) create s')
            (λ i. pure (i, inode')))
      else and_then (new_zone 8 create inode s) (λ inode' s'.
        if inode'.i_zone 8 == 0
        then ok (0, inode') s'
        else and_then (indirect inode'.i_dev (inode'.i_zone 8) ((block - 519) / 512) create s')
            (λ i s''.
              if i == 0
              then ok (0, inode') s''
              else and_then (indirect inode'.i_dev i ((block - 519) % 512) create s'')
                  (λ j. pure (j, inode'))))

  unfoldable pub bmap : Inode → ℕ → Cmd b.State ℕ
  bmap inode block s = and_then (bmap_create inode block false s) (λ r. pure r.0)
