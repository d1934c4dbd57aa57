-- ===== src/Reading/File.antt =====
-- `file_read` of fs/file_dev.c reads the bytes of the file.
use hios.Base.{
  ℕ, zero, suc, ◌+◌, ◌-◌, ◌*◌, ◌/◌, ◌%◌, ◌≤◌, ◌<◌, ◌≡◌, ◌≢◌, refl, sym, ◌∙◌, ap, ◌⊎◌, inl, inr,
  arith, true, false, Bool-cases, Option-cases, ltb, ◌==◌, if◌then◌else◌, none, some, update,
}
use hios.Run.{ok, Cmd}
use hios.Errno.{ret, fail, error}
use hios.System.{Inode}
use hios.Blocks.{BlockLayer, Disk, IsReader, block_size, max_blocks}
use hios.Blocks.Bmap.{zone_of, bmap-zone_of}
use hios.Reading.{Progress, copy, round_chars, advance, read_round, read_loop, file_read}

-- The byte `k` of a file: 0 in a hole
unfoldable pub byte_of : Disk → Inode → ℕ → ℕ
byte_of disk inode k =
    if zone_of disk inode (k / block_size) == 0
    then 0
    else elim (disk inode.i_dev (zone_of disk inode (k / block_size))) [
      | none ↦ 0
      | some c ↦ c (k % block_size)
    ]

-- The device fails to read the block of byte `k`.
unfoldable pub IsBad : Disk → Inode → ℕ → Type 0
IsBad disk inode k =
    ((zone_of disk inode (k / block_size) == 0) ≡ false)
    × (disk inode.i_dev (zone_of disk inode (k / block_size)) ≡ none)

copy-outside :
    (n : ℕ) (bytes : ℕ → ℕ) (off buf : ℕ) (user : ℕ → ℕ) (a : ℕ)
    → (a < buf) ⊎ (buf + n ≤ a)
    → copy n bytes off buf user a ≡ user a
unfolding copy
copy-outside zero bytes off buf user a out = refl
copy-outside (suc n) bytes off buf user a out =
    let ne : (buf == a) ≡ false = ground arith in
    copy-outside n bytes (suc off) (suc buf) (update user buf (bytes off)) a (ground arith)
    ∙ rw ne refl

copy-inside :
    (n : ℕ) (bytes : ℕ → ℕ) (off buf : ℕ) (user : ℕ → ℕ) (k : ℕ)
    → k < n
    → copy n bytes off buf user (buf + k) ≡ bytes (off + k)
unfolding copy
copy-inside zero bytes off buf user k lt = absurd (omega arith)
copy-inside (suc n) bytes off buf user zero lt =
    copy-outside n bytes (suc off) (suc buf) (update user buf (bytes off)) (buf + 0)
      (inl (omega arith))
    ∙ ground arith
copy-inside (suc n) bytes off buf user (suc k) lt =
    let user' = update user buf (bytes off) in
    ap (copy n bytes (suc off) (suc buf) user') (omega arith)
    ∙ copy-inside n bytes (suc off) (suc buf) user' k (omega arith)
    ∙ ap bytes (omega arith)

chars-cases :
    (p : Progress)
    → p.left ≢ 0
    → (0 < round_chars p)
      × (round_chars p ≤ p.left)
      × ((k : ℕ)
          → k < round_chars p
          → ((p.f_pos + k) / block_size ≡ p.f_pos / block_size)
            × ((p.f_pos + k) % block_size ≡ p.f_pos % block_size + k))
unfolding round_chars
chars-cases p some_left = (ground arith, ground arith, λ k lt. (ground arith, ground arith))

-- `n` bytes of the file have been copied to the memory, and nothing else there has changed.
pub record Copied (disk : Disk) (inode : Inode) (p p' : Progress) (n : ℕ) : Type 0 where
  pub left : p'.left + n ≡ p.left
  pub f_pos : p'.f_pos ≡ p.f_pos + n
  pub buf : p'.buf ≡ p.buf + n
  pub inside : (k : ℕ) → k < n → p'.user (p.buf + k) ≡ byte_of disk inode (p.f_pos + k)
  pub outside : (a : ℕ) → (a < p.buf) ⊎ (p.buf + n ≤ a) → p'.user a ≡ p.user a

Copied_none : (disk : Disk) (inode : Inode) (p : Progress) → Copied disk inode p p 0
Copied_none disk inode p = record {
  left = omega arith;
  f_pos = omega arith;
  buf = omega arith;
  inside = λ k lt. absurd (omega arith);
  outside = λ a out. refl;
}

Copied_trans :
    {disk : Disk} {inode : Inode} {p q r : Progress} {n m : ℕ}
    → Copied disk inode p q n
    → Copied disk inode q r m
    → Copied disk inode p r (n + m)
Copied_trans {disk = disk} {inode = inode} {p = p} {q = q} {r = r} {n = n} {m = m} u v = record {
  left = omega (arith, u.left, v.left);
  f_pos = omega (arith, u.f_pos, v.f_pos);
  buf = omega (arith, u.buf, v.buf);
  inside = λ k lt. elim (Bool-cases (ltb k n)) [
    | inl near ↦
        let here : k < n = ground arith in
        v.outside (p.buf + k) (inl (omega (arith, u.buf))) ∙ u.inside k here
    | inr far ↦
        let up : n ≤ k = ground arith in
        ap r.user (omega (arith, u.buf))
        ∙ v.inside (k - n) (omega arith)
        ∙ ap (byte_of disk inode) (omega (arith, u.f_pos))
  ];
  outside = λ a out. v.outside a (far a out) ∙ u.outside a (near a out);
}
  where
    far : (a : ℕ) → (a < p.buf) ⊎ (p.buf + (n + m) ≤ a) → (a < q.buf) ⊎ (q.buf + m ≤ a)
    far a (inl lo) = inl (omega (arith, u.buf))
    far a (inr hi) = inr (omega (arith, u.buf))

    near : (a : ℕ) → (a < p.buf) ⊎ (p.buf + (n + m) ≤ a) → (a < p.buf) ⊎ (p.buf + n ≤ a)
    near a (inl lo) = inl lo
    near a (inr hi) = inr (omega arith)

advance-Copied :
    (disk : Disk) (inode : Inode) (bytes : ℕ → ℕ) (p : Progress)
    → p.left ≢ 0
    → ((k : ℕ)
        → k < round_chars p
        → bytes (p.f_pos % block_size + k) ≡ byte_of disk inode (p.f_pos + k))
    → Copied disk inode p (advance bytes p) (round_chars p)
unfolding advance
advance-Copied disk inode bytes p some_left same =
    let (pos, le, _) = chars-cases p some_left in
    record {
      left = omega arith;
      f_pos = refl;
      buf = refl;
      inside = λ k lt.
          copy-inside (round_chars p) bytes (p.f_pos % block_size) p.buf p.user k lt ∙ same k lt;
      outside =
          λ a out. copy-outside (round_chars p) bytes (p.f_pos % block_size) p.buf p.user a out;
    }

byte_of-hole :
    (disk : Disk) (inode : Inode) (k : ℕ)
    → (zone_of disk inode (k / block_size) == 0) ≡ true
    → byte_of disk inode k ≡ 0
unfolding byte_of
byte_of-hole disk inode k hole = rw hole refl

byte_of-data :
    (disk : Disk) (inode : Inode) (k : ℕ) (c : ℕ → ℕ)
    → (zone_of disk inode (k / block_size) == 0) ≡ false
    → disk inode.i_dev (zone_of disk inode (k / block_size)) ≡ some c
    → byte_of disk inode k ≡ c (k % block_size)
unfolding byte_of
byte_of-data disk inode k c used good = rw (used, good) refl

module _ (b : BlockLayer) (new_block : ℕ → Cmd b.State ℕ) (current_time : ℕ) {disk : Disk}
    {Ready : b.State → Type 0} {Held : ℕ → b.State → Type 0}
    (reader : IsReader b disk Ready Held) where
  -- A round of the loop: it copies some bytes, or breaks off at a block that cannot be read.
  read_round-Copied :
      (inode : Inode) (p : Progress) (s : b.State)
      → Ready s
      → p.left ≢ 0
      → p.f_pos + p.left ≤ max_blocks * block_size
      → (s' : b.State) × Ready s'
        × (((p' : Progress) × (read_round b new_block current_time inode p s ≡ ok (some p') s')
              × Copied disk inode p p' (round_chars p))
            ⊎ ((read_round b new_block current_time inode p s ≡ ok none s')
                × IsBad disk inode p.f_pos))
  unfolding read_round IsBad
  read_round-Copied inode p s held some_left fits =
      let n = p.f_pos / block_size in
      let (pos, le, at) = chars-cases p some_left in
      let small : n < max_blocks = ground arith in
      let (s1, run, held1) = bmap-zone_of b new_block current_time reader inode n s held small in
      let zone = zone_of disk inode n in
      let same_zone : (k : ℕ)
          → k < round_chars p
          → zone_of disk inode ((p.f_pos + k) / block_size) ≡ zone =
        λ k lt. ap (zone_of disk inode) (at k lt).0 in
      elim (Bool-cases (zone == 0)) [
        | inl hole ↦ (
          s1,
          held1,
          inl (
            advance (λ _. 0) p,
            rw (run, hole) refl,
            advance-Copied disk inode (λ _. 0) p some_left
                (λ k lt. sym (byte_of-hole disk inode (p.f_pos + k) (rw (same_zone k lt) hole))),
          ),
        )
        | inr used ↦ elim (Option-cases (disk inode.i_dev zone)) [
          | inl bad ↦
              let (s2, run', held2) = reader.fails inode.i_dev zone s1 held1 bad in
              (s2, held2, inr (rw (run, used, run') refl, (used, bad)))
          | inr (c, good) ↦
              let (bh, s2, run2, held2, holds) = reader.reads inode.i_dev zone c s1 held1 good in
              let (s3, run3, held3) = reader.releases bh s2 held2 in
              (
                s3,
                held3,
                inl (
                  advance c p,
                  rw (run, used, run2, run3, holds) refl,
                  advance-Copied disk inode c p some_left (λ k lt.
                      (sym (
                        byte_of-data disk inode (p.f_pos + k) c (rw (same_zone k lt) used)
                          (rw (same_zone k lt) good)
                        ∙ ap c (at k lt).1))),
                ),
              )
        ]
      ]

  -- Where the loop ends: all is read, or the next block cannot be.
  Ends : Inode → Progress → Type 0
  Ends inode p = (p.left ≡ 0) ⊎ IsBad disk inode p.f_pos

  read_loop-Copied :
      (fuel : ℕ) (inode : Inode) (p : Progress) (s : b.State)
      → Ready s
      → p.left ≤ fuel
      → p.f_pos + p.left ≤ max_blocks * block_size
      → (p' : Progress) × (s' : b.State) × (n : ℕ) × (read_loop b new_block current_time fuel inode
            p s
          ≡ ok p' s')
        × Ready s'
        × Copied disk inode p p' n
        × Ends inode p'
  unfolding read_loop Ends
  read_loop-Copied zero inode p s held le fits =
      (p, s, 0, refl, held, Copied_none disk inode p, inl (omega arith))
  read_loop-Copied (suc fuel) inode p s held le fits = elim (Bool-cases (p.left == 0)) [
    | inl done ↦ (p, s, 0, rw done refl, held, Copied_none disk inode p, inl (ground arith))
    | inr go ↦
        let some_left : p.left ≢ 0 = ground arith in
        let (pos, _, _) = chars-cases p some_left in
        let (s1, held1, step) = read_round-Copied inode p s held some_left fits in
        elim step [
          | inr (run, bad) ↦ (p, s1, 0, rw (go, run) refl, held1, Copied_none disk inode p, inr bad)
          | inl (p1, run, c1) ↦
              let (p2, s2, n, run2, held2, c2, ends) =
                read_loop-Copied fuel inode p1 s1 held1 (omega (arith, c1.left))
                  (omega (arith, c1.left, c1.f_pos)) in
              (p2, s2, round_chars p + n, rw (go, run) run2, held2, Copied_trans c1 c2, ends)
        ]
  ]

  -- `file_read` returns, for a count above 0. It has copied the first `n` bytes of the file from the
  -- position on, zeros for holes, and changed nothing else of the memory; the position has moved by
  -- `n`. It stops before the count only at a block that the device fails to read. The value is `n`, or
  -- -ERROR if `n` is 0. It
  -- holds one buffer at most at a time, and releases it.
  pub file_read-Copied :
      (inode : Inode) (f_pos buf count : ℕ) (user : ℕ → ℕ) (s : b.State)
      → Ready s
      → count ≢ 0
      → f_pos + count ≤ max_blocks * block_size
      → (n : ℕ) × (p' : Progress) × (s' : b.State) × (file_read b new_block current_time inode f_pos
            buf count user s
          ≡ ok (if n == 0 then fail error else ret n, p') s')
        × Ready s'
        × (n ≤ count)
        × (p'.f_pos ≡ f_pos + n)
        × ((k : ℕ) → k < n → p'.user (buf + k) ≡ byte_of disk inode (f_pos + k))
        × ((a : ℕ) → (a < buf) ⊎ (buf + n ≤ a) → p'.user a ≡ user a)
        × ((n ≡ count) ⊎ IsBad disk inode (f_pos + n))
  unfolding file_read Ends
  file_read-Copied inode f_pos buf count user s held some_left fits =
      let start : Progress = record { left = count; f_pos = f_pos; buf = buf; user = user } in
      let (p, s1, n, run, held1, c, ends) =
        read_loop-Copied count inode start s held (omega arith) fits in
      let go : (count == 0) ≡ false = ground arith in
      let value : count - p.left ≡ n = omega (arith, c.left) in
      (
        n,
        p,
        s1,
        rw (go, run, value) refl,
        held1,
        omega (arith, c.left),
        c.f_pos,
        c.inside,
        c.outside,
        elim ends [ inl e ↦ inl (omega (arith, c.left)) | inr bad ↦ inr (rw (sym c.f_pos) bad) ],
      )
