-- ===== src/Reading/Syscall.antt =====
-- sys_read of fs/read_write.c.
use hios.Base.{
  ℕ, ◌+◌, ◌-◌, ◌*◌, ◌^◌, ◌≤◌, ◌<◌, ◌≡◌, refl, ◌⊎◌, inl, inr, arith, true, false, ◌||◌, leb, ◌==◌,
  if◌then◌else◌, some,
}
use hios.Run.{ok, Cmd}
use hios.Errno.{ret, fail, error}
use hios.System.{System, nr_open, on_file, on_inode}
use hios.Files.{s_isreg, s_isdir}
use hios.Blocks.{BlockLayer, Disk, IsReader, block_size, max_blocks}
use hios.Reading.{sys_read}
use hios.Reading.File.{byte_of, IsBad, file_read-Copied}

-- What the call leaves of the system: the position of the file and the access time of the inode
-- have changed.
abbrev pub moved : ℕ → ℕ → ℕ → ℕ → System → System
moved f i pos now t = record t {
  files =
      on_inode (some i) (λ inode. record inode { i_atime = now })
        (on_file f (λ file. record file { f_pos = pos }) t.files);
}

module _ (b : BlockLayer) (new_block : ℕ → Cmd b.State ℕ) (current_time : ℕ) {disk : Disk}
    {Ready : b.State → Type 0} {Held : ℕ → b.State → Type 0}
    (reader : IsReader b disk Ready Held) where
  -- For a descriptor of a file or directory whose position is not at the end, sys_read returns. It
  -- copies `n` bytes from the position on: all the rest of the file, whatever the count asked for, or
  -- up to a block that the device fails to read. The value is `n`, or -ERROR if `n` is 0.
  pub sys_read-rest :
      (fd buf count f : ℕ) (t : System) (user : ℕ → ℕ) (s : b.State)
      → Ready s
      → fd < nr_open
      → count < 2 ^ 31
      → t.files.filp t.proc.current fd ≡ some f
      → (s_isdir (t.files.inode_table (t.files.file_table f).f_inode).i_mode
          || s_isreg (t.files.inode_table (t.files.file_table f).f_inode).i_mode)
        ≡ true
      → (t.files.file_table f).f_pos < (t.files.inode_table (t.files.file_table f).f_inode).i_size
      → (t.files.inode_table (t.files.file_table f).f_inode).i_size ≤ max_blocks * block_size
      → (n : ℕ) × (user' : ℕ → ℕ) × (s' : b.State) × (sys_read b new_block current_time fd buf count
            t user s
          ≡ ok
              (
                (if n == 0 then fail error else ret n),
                moved f
                    (t.files.file_table f).f_inode
                    ((t.files.file_table f).f_pos + n)
                    current_time
                    t,
                user',
              )
              s')
        × Ready s'
        × ((k : ℕ)
            → k < n
            → user' (buf + k)
              ≡ byte_of disk
                  (t.files.inode_table (t.files.file_table f).f_inode)
                  ((t.files.file_table f).f_pos + k))
        × ((a : ℕ) → (a < buf) ⊎ (buf + n ≤ a) → user' a ≡ user a)
        × (((t.files.file_table f).f_pos + n
              ≡ (t.files.inode_table (t.files.file_table f).f_inode).i_size)
            ⊎ IsBad disk
                (t.files.inode_table (t.files.file_table f).f_inode)
                ((t.files.file_table f).f_pos + n))
  unfolding sys_read
  sys_read-rest fd buf count f t user s held low small opened is_file before fits =
      let file = t.files.file_table f in
      let inode = t.files.inode_table file.f_inode in
      let wanted = inode.i_size - file.f_pos in
      let (n, p, s1, run, held1, le, pos, inside, outside, ends) =
        file_read-Copied b new_block current_time reader inode file.f_pos buf wanted user s held
          (omega arith) (omega arith) in
      let good_fd : leb nr_open fd ≡ false = ground arith in
      let good_count : leb (2 ^ 31) count ≡ false = ground arith in
      let more : (wanted == 0) ≡ false = ground arith in
      (
        n,
        p.user,
        s1,
        rw (good_fd, good_count, opened, is_file, sys_read) (rw (more, run, pos) refl),
        held1,
        inside,
        outside,
        elim ends [ inl e ↦ inl (omega arith) | inr bad ↦ inr bad ],
      )
