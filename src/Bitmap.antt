-- ===== src/Bitmap.antt =====
-- fs/bitmap.c: the bitmaps of blocks and inodes, on the state of the block cache. new_block and
-- new_inode are stubs, which return a variable that is never set. `null_map` is the panic of free_inode
-- where a bitmap is missing; free_block reads through the null pointer there, and ends in the model.
use hios.Base.{
  ℕ, zero, suc, ◌+◌, ◌-◌, ◌*◌, ◌/◌, ◌%◌, ◌^◌, ◌<◌, ◌≡◌, Bool, true, false, not, ◌&&◌, ◌||◌, ltb,
  leb, ◌==◌, if◌then◌else◌, Option, none, some, update,
}
use hios.Run.{
  Run, ok, panic, Cmd, and_then, nonexistent_device, not_in_datazone, bit_already_cleared, null_map,
  inode_in_use, inode_has_links, no_such_inode,
}
use hios.System.{Inode}
pub mod Bits

-- What the bitmaps use of the block cache: `get_hash_table`, `brelse`, `b_count`, the bytes of a
-- buffer, `bh->b_dirt = bh->b_uptodate = 0`, and a write of a byte with `bh->b_dirt = 1`
pub record MapLayer : Type 1 where
  pub State : Type 0
  pub get_hash_table : ℕ → ℕ → Cmd State (Option ℕ)
  pub brelse : ℕ → Cmd State (Unit {0})
  pub b_count : State → ℕ → ℕ
  pub b_data : State → ℕ → ℕ → ℕ
  pub discard : ℕ → State → State
  pub write_byte : ℕ → ℕ → ℕ → State → State

-- The fields of `struct super_block` that the bitmaps use
pub record SuperBlock : Type 0 where
  pub s_ninodes : ℕ
  pub s_nzones : ℕ
  pub s_firstdatazone : ℕ
  pub s_imap : ℕ → Option ℕ
  pub s_zmap : ℕ → Option ℕ

-- Bit `nr` of a block, and `clear_bit`: whether the bit was clear before, and the byte after
unfoldable pub bit_at : (ℕ → ℕ) → ℕ → Bool
bit_at bytes nr = not (bytes (nr / 8) / 2 ^ (nr % 8) % 2 == 0)

unfoldable pub cleared_byte : (ℕ → ℕ) → ℕ → ℕ
cleared_byte bytes nr = if bit_at bytes nr then bytes (nr / 8) - 2 ^ (nr % 8) else bytes (nr / 8)

module _ (b : MapLayer) where
  -- `clear_bit(nr, bh->b_data)` and then `bh->b_dirt = 1`; the result tells whether it was clear.
  unfoldable pub clear_bit : ℕ → ℕ → b.State → Bool × b.State
  clear_bit nr bh s = (
    not (bit_at (b.b_data s bh) nr),
    b.write_byte bh (nr / 8) (cleared_byte (b.b_data s bh) nr) s,
  )

  -- The end of `free_block`, for the bit `nr`
  unfoldable pub free_bit : SuperBlock → ℕ → Cmd b.State (Unit {0})
  free_bit sb nr s = elim (sb.s_zmap (nr / 8192)) [
    | none ↦ panic null_map
    | some bh ↦
        let r = clear_bit (nr % 8192) bh s in if r.0 then panic bit_already_cleared else ok tt r.1
  ]

  -- `free_block`, where `sb` is what get_super gives
  unfoldable pub free_block : Option SuperBlock → ℕ → ℕ → Cmd b.State (Unit {0})
  free_block none dev block s = panic nonexistent_device
  free_block (some sb) dev block s =
      if ltb block sb.s_firstdatazone || leb sb.s_nzones block
      then panic not_in_datazone
      else and_then (b.get_hash_table dev block s) (λ found s1.
        (let nr = block + 1 - sb.s_firstdatazone in
          elim found [
            | none ↦ free_bit sb nr s1
            | some bh ↦
                if b.b_count s1 bh == 1
                then and_then (b.brelse bh (b.discard bh s1)) (λ _. free_bit sb nr)
                else ok tt s1
          ]))

  abbrev pub no_inode : Inode
  no_inode = record {
    i_mode = 0;
    i_uid = 0;
    i_size = 0;
    i_mtime = 0;
    i_gid = 0;
    i_nlinks = 0;
    i_zone = λ z. 0;
    i_atime = 0;
    i_ctime = 0;
    i_dev = 0;
    i_num = 0;
    i_count = 0;
    i_lock = false;
    i_dirt = false;
    i_pipe = false;
    i_mount = false;
  }

  -- `free_inode` of an inode that is not null, with the inode as it leaves it
  unfoldable pub free_inode : Option SuperBlock → Inode → Cmd b.State Inode
  free_inode sb inode s =
      if inode.i_dev == 0
      then ok no_inode s
      else if ltb 1 inode.i_count
      then panic inode_in_use
      else if not (inode.i_nlinks == 0)
      then panic inode_has_links
      else elim sb [
        | none ↦ panic nonexistent_device
        | some sb ↦
            if ltb inode.i_num 1 || ltb sb.s_ninodes inode.i_num
            then panic no_such_inode
            else elim (sb.s_imap (inode.i_num / 8192)) [
              | none ↦ panic null_map
              | some bh ↦ ok no_inode (clear_bit (inode.i_num % 8192) bh s).1
            ]
      ]
