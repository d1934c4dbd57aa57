-- ===== src/Reading.antt =====
-- Reading of files: fs/file_dev.c and fs/read_write.c. `user` is the memory of the caller, as bytes
-- by address in the segment `fs`.
use hios.Base.{
  ℕ, zero, suc, ◌+◌, ◌-◌, ◌/◌, ◌%◌, ◌^◌, ◌≡◌, Bool, true, false, not, ◌||◌, ltb, leb, ◌==◌,
  if◌then◌else◌, Option, none, some, update,
}
use Prim.Native.Nat.{min}
use hios.Run.{Run, ok, Cmd, and_then}
use hios.Errno.{Ret, ret, fail, einval, error}
use hios.System.{Inode, System, nr_open, on_file, on_inode}
use hios.Files.{s_isreg, s_isdir}
use hios.Blocks.{BlockLayer, block_size, bmap}
pub mod File
pub mod Syscall

-- `n` times `put_fs_byte(*(p++), buf++)`, from the byte `off` of a block
unfoldable pub copy : ℕ → (ℕ → ℕ) → ℕ → ℕ → (ℕ → ℕ) → ℕ → ℕ
copy zero bytes off buf user = user
copy (suc n) bytes off buf user = copy n bytes (suc off) (suc buf) (update user buf (bytes off))

-- What the loop of `file_read` changes
pub record Progress : Type 0 where
  pub left : ℕ
  pub f_pos : ℕ
  pub buf : ℕ
  pub user : ℕ → ℕ

-- `chars` of a round, and the part of a round that copies them
unfoldable pub round_chars : Progress → ℕ
round_chars p = min (block_size - p.f_pos % block_size) p.left

unfoldable pub advance : (ℕ → ℕ) → Progress → Progress
advance bytes p = record {
  left = p.left - round_chars p;
  f_pos = p.f_pos + round_chars p;
  buf = p.buf + round_chars p;
  user = copy (round_chars p) bytes (p.f_pos % block_size) p.buf p.user;
}

module _ (b : BlockLayer) (new_block : ℕ → Cmd b.State ℕ) (current_time : ℕ) where
  -- A round of the loop of `file_read`; `none` where it breaks off.
  unfoldable pub read_round : Inode → Progress → Cmd b.State (Option Progress)
  read_round inode p s =
      and_then (bmap b new_block current_time inode (p.f_pos / block_size) s) (λ nr s1.
        if nr == 0
        then ok (some (advance (λ _. 0) p)) s1
        else and_then (b.bread inode.i_dev nr s1) (λ found s2. elim found [
          | none ↦ ok none s2
          | some bh ↦ and_then (b.brelse bh s2) (λ _. ok (some (advance (b.b_data s2 bh) p)))
        ]))

  -- Each round reads a byte at least, so that the number of bytes to read is enough fuel.
  unfoldable pub read_loop : ℕ → Inode → Progress → Cmd b.State Progress
  read_loop zero inode p s = ok p s
  read_loop (suc fuel) inode p s =
      if p.left == 0
      then ok p s
      else and_then (read_round inode p s)
          (λ r s1. elim r [ none ↦ ok p s1 | some p' ↦ read_loop fuel inode p' s1 ])

  -- The value of `file_read`, the position and the memory it leaves. The caller sets `i_atime`.
  unfoldable pub file_read : Inode → ℕ → ℕ → ℕ → (ℕ → ℕ) → Cmd b.State (Ret ℕ × Progress)
  file_read inode f_pos buf count user s =
      let start : Progress = record { left = count; f_pos = f_pos; buf = buf; user = user } in
      if count == 0
      then ok (ret 0, start) s
      else and_then (read_loop count inode start s)
          (λ p. ok ((if count - p.left == 0 then fail error else ret (count - p.left)), p))

  -- `count` is a 32-bit number, negative from 2 ^ 31 on; the code replaces it by the size of the file.
  unfoldable pub sys_read : ℕ → ℕ → ℕ → System → (ℕ → ℕ) → Cmd b.State (Ret ℕ × System × (ℕ → ℕ))
  sys_read fd buf count t user s =
      if leb nr_open fd || leb (2 ^ 31) count
      then ok (fail einval, t, user) s
      else elim (t.files.filp t.proc.current fd) [
        | none ↦ ok (fail einval, t, user) s
        | some f ↦
            let file = t.files.file_table f in
            let inode = t.files.inode_table file.f_inode in
            let wanted = inode.i_size - file.f_pos in
            if not (s_isdir inode.i_mode || s_isreg inode.i_mode)
            then ok (fail einval, t, user) s
            else if wanted == 0
            then ok (ret 0, t, user) s
            else and_then (file_read inode file.f_pos buf wanted user s) (λ r. ok (
              r.0,
              record t {
                files =
                    on_inode (some file.f_inode) (λ i. record i { i_atime = current_time })
                      (on_file f (λ g. record g { f_pos = r.1.f_pos }) t.files);
              },
              r.1.user,
            ))
      ]
