-- ===== src/Blocks/Bmap.antt =====
-- `bmap` of fs/inode.c against the layout of the blocks of a file.
use hios.Base.{
  ℕ, ◌-◌, ◌/◌, ◌%◌, ◌<◌, ◌≡◌, refl, inl, inr, arith, true, false, Bool-cases, Option-cases, ltb,
  leb, ◌==◌, if◌then◌else◌, none, some,
}
use hios.Run.{Run, ok, Cmd}
use hios.System.{Inode}
use hios.Blocks.{
  BlockLayer, Disk, IsReader, short_at, max_blocks, new_zone, entry, indirect, bmap_create, bmap,
}

-- The number in entry `k` of a block on the disk, 0 if that cannot be read or the block is 0
unfoldable pub number_at : Disk → ℕ → ℕ → ℕ → ℕ
number_at disk dev block k =
    if block == 0 then 0 else elim (disk dev block) [ none ↦ 0 | some c ↦ short_at c k ]

number_at-hole :
    (disk : Disk) (dev block k : ℕ) → (block == 0) ≡ true → number_at disk dev block k ≡ 0
unfolding number_at
number_at-hole disk dev block k hole = rw hole refl

-- The block of the device that holds a block of the file, by the layout of the file system: seven
-- direct ones, 512 through zone 7, and 512 times 512 through zone 8
unfoldable pub zone_of : Disk → Inode → ℕ → ℕ
zone_of disk inode n =
    if ltb n 7
    then inode.i_zone n
    else if ltb (n - 7) 512
    then number_at disk inode.i_dev (inode.i_zone 7) (n - 7)
    else number_at disk inode.i_dev (number_at disk inode.i_dev (inode.i_zone 8) ((n - 519) / 512))
        ((n - 519) % 512)

module _ (b : BlockLayer) (new_block : ℕ → Cmd b.State ℕ) (current_time : ℕ) {disk : Disk}
    {Ready : b.State → Type 0} {Held : ℕ → b.State → Type 0}
    (reader : IsReader b disk Ready Held) where
  -- The run ends with a value, and holds what was held.
  Gives : {A : Type 0} → Run b.State A → A → Type 0
  Gives r a = (s' : b.State) × (r ≡ ok a s') × Ready s'

  indirect-number_at :
      (dev block k : ℕ) (s : b.State)
      → Ready s
      → (block == 0) ≡ false
      → Gives (indirect b new_block current_time dev block k false s) (number_at disk dev block k)
  unfolding indirect entry number_at Gives
  indirect-number_at dev block k s held used = elim (Option-cases (disk dev block)) [
    | inl bad ↦
        let (s', run, held') = reader.fails dev block s held bad in
        (s', rw (run, used, bad) refl, held')
    | inr (c, good) ↦
        let (bh, s1, run, held1, holds) = reader.reads dev block c s held good in
        let (s2, run', held2) = reader.releases bh s1 held1 in
        (s2, rw (run, run', used, good, holds) refl, held2)
  ]

  new_zone-false :
      (z : ℕ) (inode : Inode) (s : b.State)
      → new_zone b new_block current_time z false inode s ≡ ok inode s
  unfolding new_zone
  new_zone-false z inode s = refl

  -- `bmap` gives the block of the device that holds the block of the file, by the layout of the disk,
  -- or 0 if there is none or it cannot be found for a block that the device fails to read. It holds one
  -- buffer at most at a time, and releases it.
  pub bmap-zone_of :
      (inode : Inode) (n : ℕ) (s : b.State)
      → Ready s
      → n < max_blocks
      → (s' : b.State) × (bmap b new_block current_time inode n s ≡ ok (zone_of disk inode n) s')
        × Ready s'
  unfolding bmap bmap_create zone_of Gives new_zone
  bmap-zone_of inode n s held small =
      let fits : leb max_blocks n ≡ false = ground arith in
      elim (Bool-cases (ltb n 7)) [
        | inl direct ↦ (s, rw (fits, direct) refl, held)
        | inr far ↦ elim (Bool-cases (ltb (n - 7) 512)) [
          | inl once ↦ elim (Bool-cases (inode.i_zone 7 == 0)) [
            | inl hole ↦
                let e = number_at-hole disk inode.i_dev (inode.i_zone 7) (n - 7) hole in
                (s, rw (fits, far, once, hole, e) refl, held)
            | inr used ↦
                let (s', run, held') =
                  indirect-number_at inode.i_dev (inode.i_zone 7) (n - 7) s held used in
                (s', rw (fits, far, once, used, run) refl, held')
          ]
          | inr twice ↦
              let up = number_at disk inode.i_dev (inode.i_zone 8) ((n - 519) / 512) in
              elim (Bool-cases (inode.i_zone 8 == 0)) [
                | inl hole ↦
                    let e =
                      number_at-hole disk inode.i_dev (inode.i_zone 8) ((n - 519) / 512) hole in
                    let e' = number_at-hole disk inode.i_dev 0 ((n - 519) % 512) (ground arith) in
                    (s, rw (fits, far, twice, hole, e, e') refl, held)
                | inr used ↦
                    let (s1, run, held1) =
                      indirect-number_at inode.i_dev (inode.i_zone 8) ((n - 519) / 512) s held
                        used in
                    elim (Bool-cases (up == 0)) [
                      | inl hole ↦
                          let e = number_at-hole disk inode.i_dev up ((n - 519) % 512) hole in
                          (s1, rw (fits, far, twice, used, run, hole, e) refl, held1)
                      | inr deep ↦
                          let (s2, run', held2) =
                            indirect-number_at inode.i_dev up ((n - 519) % 512) s1 held1 deep in
                          (s2, rw (fits, far, twice, used, run, deep, run') refl, held2)
                    ]
              ]
        ]
      ]
