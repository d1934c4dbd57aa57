-- ===== src/Blocks/Truncate.antt =====
-- fs/truncate.c. `free_block` is that of fs/bitmap.c, on the state of the block cache.
use hios.Base.{ℕ, zero, suc, ◌==◌, true, not, ◌||◌, if◌then◌else◌, none, some, update}
use hios.Run.{ok, Cmd, and_then, ◌>>=◌, ◌>>◌}
use hios.System.{Inode}
use hios.Files.{s_isreg, s_isdir}
use hios.Blocks.{BlockLayer, short_at}

module _ (b : BlockLayer) (free_block : ℕ → ℕ → Cmd b.State (Unit {0})) where
  -- The loop over `n` entries of the buffer `bh` from entry `i` on, with what is done to each
  -- number that is not 0
  unfoldable pub free_each : (ℕ → Cmd b.State (Unit {0})) → ℕ → ℕ → ℕ → Cmd b.State (Unit {0})
  free_each free bh i zero s = ok tt s
  free_each free bh i (suc n) s =
      let p = short_at (b.b_data s bh) i in
      and_then (if p == 0 then ok tt s else free p s) (λ _. free_each free bh (suc i) n)

  -- A block of block numbers: its entries, then the block itself
  unfoldable pub free_level : (ℕ → Cmd b.State (Unit {0})) → ℕ → ℕ → Cmd b.State (Unit {0})
  free_level free dev block s =
      if block == 0
      then ok tt s
      else and_then (b.bread dev block s) (λ found s1. elim found [
        | none ↦ free_block dev block s1
        | some bh ↦ (free_each free bh 0 512 >> b.brelse bh >> free_block dev block) s1
      ])

  unfoldable pub free_ind : ℕ → ℕ → Cmd b.State (Unit {0})
  free_ind dev = free_level (free_block dev) dev

  unfoldable pub free_dind : ℕ → ℕ → Cmd b.State (Unit {0})
  free_dind dev = free_level (free_ind dev) dev

  abbrev pub set_zone : ℕ → Inode → Inode
  set_zone i inode = record inode { i_zone = update inode.i_zone i 0 }

  -- The loop over `n` direct blocks from zone `i` on
  unfoldable pub free_direct : ℕ → ℕ → Inode → Cmd b.State Inode
  free_direct i zero inode s = ok inode s
  free_direct i (suc n) inode s =
      and_then
        (if inode.i_zone i == 0
          then ok inode s
          else and_then (free_block inode.i_dev (inode.i_zone i) s) (λ _. ok (set_zone i inode)))
        (free_direct (suc i) n)

  -- `truncate`, with the inode as it leaves it
  unfoldable pub truncate : Inode → Cmd b.State Inode
  truncate inode s =
      if not (s_isreg inode.i_mode || s_isdir inode.i_mode)
      then ok inode s
      else (free_direct 0 7 inode >>= λ i.
            (free_ind i.i_dev (i.i_zone 7)
              >> free_dind i.i_dev (i.i_zone 8)
              >> ok (record i {
                i_zone = update (update i.i_zone 8 0) 7 0;
                i_size = 0;
                i_dirt = true;
              })))
          s
