-- ===== src/Cache.antt =====
-- The block cache (fs/buffer.c): the buffer heads, by index from `start_buffer`, a field of
-- `struct buffer_head` being an array; the hash queues and the ring of free buffers run through
-- them. A null pointer is `none`. A number that C gives to `dev` or `block` is taken modulo 2 ^ 32.
use hios.Base.{
  ℕ, zero, suc, ◌+◌, ◌-◌, ◌*◌, ◌%◌, ◌^◌, ◌<◌, ◌≡◌, refl, Bool, true, false, not, ◌&&◌, ltb, leb,
  ◌==◌, if◌then◌else◌, Option, none, some, update,
}
use Prim.Native.Nat.{bit_xor}
use hios.Run.{Run, ok, panic, Cmd, and_then, Panic, free_list_corrupted, free_free_buffer}
pub mod Chain
pub mod Links
pub mod Queues
pub mod Assign
pub mod Ring
pub mod Getblk
pub mod Init

pub record Cache : Type 0 where
  pub b_data : ℕ → ℕ → ℕ
  pub b_blocknr : ℕ → ℕ
  pub b_dev : ℕ → ℕ
  pub b_uptodate : ℕ → Bool
  pub b_dirt : ℕ → Bool
  pub b_count : ℕ → ℕ
  pub b_lock : ℕ → Bool
  pub b_prev : ℕ → Option ℕ
  pub b_next : ℕ → Option ℕ
  pub b_prev_free : ℕ → Option ℕ
  pub b_next_free : ℕ → Option ℕ
  pub hash_table : ℕ → Option ℕ
  pub free_list : ℕ
  pub nr_buffers : ℕ

-- NR_HASH
abbrev pub nr_hash : ℕ
nr_hash = 307

-- `_hashfn`
unfoldable pub hashfn : ℕ → ℕ → ℕ
hashfn dev block = bit_xor dev block % nr_hash

-- `if (p) p->field = v`
abbrev pub update_at : (ℕ → Option ℕ) → Option ℕ → Option ℕ → ℕ → Option ℕ
update_at f none v = f
update_at f (some p) v = update f p v

abbrev pub is_at : Option ℕ → ℕ → Bool
is_at none i = false
is_at (some j) i = j == i

-- `remove_from_queues`, from the hash queue
unfoldable pub leave_hash : ℕ → Cache → Cache
leave_hash bh s =
    let h = hashfn (s.b_dev bh) (s.b_blocknr bh) in
    record s {
      b_prev = update_at s.b_prev (s.b_next bh) (s.b_prev bh);
      b_next = update_at s.b_next (s.b_prev bh) (s.b_next bh);
      hash_table =
          if is_at (s.hash_table h) bh then update s.hash_table h (s.b_next bh) else s.hash_table;
    }

-- `bh` taken out between its neighbours in the ring
abbrev pub off_ring : ℕ → ℕ → ℕ → Cache → Cache
off_ring p q bh s = record s {
  b_next_free = update s.b_next_free p (some q);
  b_prev_free = update s.b_prev_free q (some p);
  free_list = if s.free_list == bh then q else s.free_list;
}

-- `remove_from_queues`, from the ring of free buffers
unfoldable pub leave_free : ℕ → Cmd Cache (Unit {0})
leave_free bh s = elim (s.b_prev_free bh) [
  | none ↦ panic free_list_corrupted
  | some p ↦ elim (s.b_next_free bh) [
    | none ↦ panic free_list_corrupted
    | some q ↦ ok tt (off_ring p q bh s)
  ]
]

unfoldable pub remove_from_queues : ℕ → Cmd Cache (Unit {0})
remove_from_queues bh s = leave_free bh (leave_hash bh s)

-- `insert_into_queues`, at the end of the ring of free buffers
unfoldable pub join_free : ℕ → Cache → Cache
join_free bh s =
    let f = s.free_list in
    let next = update s.b_next_free bh (some f) in
    let prev = update s.b_prev_free bh (s.b_prev_free f) in
    record s {
      b_next_free = update_at next (prev f) (some bh);
      b_prev_free = update prev f (some bh);
    }

-- `insert_into_queues`, in the hash queue of its device and block, if it has a device
unfoldable pub join_hash : ℕ → Cache → Cache
join_hash bh s =
    let h = hashfn (s.b_dev bh) (s.b_blocknr bh) in
    let used = not (s.b_dev bh == 0) in
    let next = if used then s.hash_table h else none in
    record s {
      b_next = update s.b_next bh next;
      b_prev = update_at (update s.b_prev bh none) next (some bh);
      hash_table = if used then update s.hash_table h (some bh) else s.hash_table;
    }

unfoldable pub insert_into_queues : ℕ → Cache → Cache
insert_into_queues bh s = join_hash bh (join_free bh s)

-- The test of `find_buffer` and `get_hash_table`
unfoldable pub is_block : ℕ → ℕ → ℕ → Cache → Bool
is_block dev block i s = (s.b_dev i == dev % 65536) && (s.b_blocknr i == block)

-- The loop of `find_buffer` from `tmp`; the fuel is enough if it is the number of buffers.
unfoldable pub find_loop : ℕ → ℕ → ℕ → Option ℕ → Cache → Option ℕ
find_loop fuel dev block none s = none
find_loop zero dev block (some tmp) s = none
find_loop (suc fuel) dev block (some tmp) s =
    let rest = find_loop fuel dev block (s.b_next tmp) s in
    if is_block dev block tmp s then some tmp else rest

unfoldable pub find_buffer : ℕ → ℕ → Cache → Option ℕ
find_buffer dev block s = find_loop s.nr_buffers dev block (s.hash_table (hashfn dev block)) s

-- `b_count++` and `b_count--` on an unsigned char
unfoldable pub count_up : ℕ → Cache → Cache
count_up bh s = record s { b_count = update s.b_count bh ((s.b_count bh + 1) % 256) }

unfoldable pub count_down : ℕ → Cache → Cache
count_down bh s = record s { b_count = update s.b_count bh ((s.b_count bh + 255) % 256) }

-- `BADNESS`
unfoldable pub badness : ℕ → Cache → ℕ
badness bh s = (if s.b_dirt bh then 2 else 0) + (if s.b_lock bh then 1 else 0)

-- `tmp` in place of the best buffer so far, in the loop of `getblk`
unfoldable pub better : ℕ → Option ℕ → Cache → Option ℕ
better tmp none s = some tmp
better tmp (some b) s = if ltb (badness tmp s) (badness b s) then some tmp else some b

-- The best buffer so far after `tmp`, and whether the loop breaks off at `tmp`: it is taken, and is
-- neither dirty nor locked.
unfoldable pub choose : ℕ → Option ℕ → Cache → Option ℕ
choose tmp bh s = if s.b_count tmp == 0 then better tmp bh s else bh

unfoldable pub stops : ℕ → Option ℕ → Cache → Bool
stops tmp bh s = (s.b_count tmp == 0) && is_at bh tmp && (badness tmp s == 0)

-- `while ((tmp = tmp->b_next_free) != free_list)`: what follows, or the result
unfoldable pub follow : Option ℕ → ℕ → Option ℕ → (ℕ → Option ℕ) → Option ℕ
follow none stop bh rest = bh
follow (some next) stop bh rest = if next == stop then bh else rest next

-- The loop of `getblk` over the ring from `tmp`; the fuel is enough if it is the number of buffers.
unfoldable pub scan_free : ℕ → ℕ → Option ℕ → Cache → Option ℕ
scan_free zero tmp bh s = bh
scan_free (suc fuel) tmp bh s =
    let bh' = choose tmp bh s in
    if stops tmp bh' s
    then bh'
    else follow (s.b_next_free tmp) s.free_list bh' (λ next. scan_free fuel next bh' s)

-- The end of `getblk`: the buffer is taken for the block.
abbrev pub take_buffer : ℕ → Cache → Cache
take_buffer bh s = record s {
  b_count = update s.b_count bh 1;
  b_dirt = update s.b_dirt bh false;
  b_uptodate = update s.b_uptodate bh false;
}

abbrev pub name_block : ℕ → ℕ → ℕ → Cache → Cache
name_block dev block bh s = record s {
  b_dev = update s.b_dev bh (dev % 65536);
  b_blocknr = update s.b_blocknr bh block;
}

unfoldable pub assign : ℕ → ℕ → ℕ → Cmd Cache (Unit {0})
assign dev block bh s =
    and_then (remove_from_queues bh (take_buffer bh s))
      (λ _ s'. ok tt (insert_into_queues bh (name_block dev block bh s')))

-- Code that may still be waiting when the fuel ends: then it returns `none`.
abbrev pub Loop : Type 0 → Type 0
Loop A = Cmd Cache (Option A)

infixl 5 ◌>>?◌
abbrev pub ◌>>?◌ : {A B : Type 0} → Loop A → (A → Loop B) → Loop B
◌>>?◌ m k s = and_then (m s) (λ r s'. elim r [ none ↦ ok none s' | some a ↦ k a s' ])

-- the wait queues on which the cache's functions sleep
pub data WaitQueue : Type 0 where
  buffer_wait : WaitQueue
  b_wait : ℕ → WaitQueue

-- READ and WRITE
pub data Direction : Type 0 where
  read write : Direction

-- What the other tasks and the devices do until the sleep on a queue ends; the block device's
-- `ll_rw_block`; and `sync_inodes`.
module _ (sleep_on : WaitQueue → Cmd Cache (Unit {0}))
    (ll_rw_block : Direction → ℕ → Cmd Cache (Unit {0})) (sync_inodes : Cmd Cache (Unit {0})) where
  unfoldable pub wait_on_buffer : ℕ → ℕ → Loop (Unit {0})
  wait_on_buffer zero bh s = if s.b_lock bh then ok none s else ok (some tt) s
  wait_on_buffer (suc fuel) bh s =
      if s.b_lock bh
      then and_then (sleep_on (b_wait bh) s) (λ _. wait_on_buffer fuel bh)
      else ok (some tt) s

  -- A round of the loops of `sync_dev`
  unfoldable pub sync_buffer : ℕ → ℕ → ℕ → Loop (Unit {0})
  sync_buffer fuel dev bh s =
      if s.b_dev bh == dev
      then (wait_on_buffer fuel bh >>? λ _ s'.
            (if (s'.b_dev bh == dev) && s'.b_dirt bh
              then and_then (ll_rw_block write bh s') (λ _. ok (some tt))
              else ok (some tt) s'))
          s
      else ok (some tt) s

  unfoldable pub sync_buffers : ℕ → ℕ → ℕ → ℕ → Loop (Unit {0})
  sync_buffers fuel dev i zero = ok (some tt)
  sync_buffers fuel dev i (suc n) = sync_buffer fuel dev i >>? λ _. sync_buffers fuel dev (suc i) n

  unfoldable pub sync_dev : ℕ → ℕ → Loop (Unit {0})
  sync_dev fuel dev s =
      (sync_buffers fuel dev 0 s.nr_buffers
          >>? (λ _ s'. and_then (sync_inodes s') (λ _. ok (some tt)))
          >>? (λ _ s'. sync_buffers fuel dev 0 s'.nr_buffers s'))
        s

  unfoldable pub get_hash_table : ℕ → ℕ → ℕ → Loop (Option ℕ)
  get_hash_table zero dev block s = ok none s
  get_hash_table (suc fuel) dev block s = elim (find_buffer dev block s) [
    | none ↦ ok (some none) s
    | some bh ↦
        (wait_on_buffer fuel bh >>? λ _ s'.
        (if is_block dev block bh s'
          then ok (some (some bh)) s'
          else get_hash_table fuel dev block (count_down bh s')))
          (count_up bh s)
  ]

  -- The loop `while (bh->b_dirt)`, with the wait before it: whether somebody has taken the buffer
  unfoldable pub clean : ℕ → ℕ → Loop Bool
  clean zero bh = ok none
  clean (suc fuel) bh = wait_on_buffer fuel bh >>? λ _ s.
      (if not (s.b_count bh == 0)
        then ok (some true) s
        else if s.b_dirt bh
        then (sync_dev fuel (s.b_dev bh) >>? λ _. clean fuel bh) s
        else ok (some false) s)

  unfoldable pub getblk : ℕ → ℕ → ℕ → Loop ℕ
  getblk zero dev block = ok none
  getblk (suc fuel) dev block = get_hash_table fuel dev block >>? λ found s. elim found [
    | some bh ↦ ok (some bh) s
    | none ↦ elim (scan_free s.nr_buffers s.free_list none s) [
      | none ↦ and_then (sleep_on buffer_wait s) (λ _. getblk fuel dev block)
      | some bh ↦
          (clean fuel bh >>? λ taken s'.
          (if taken then getblk fuel dev block s' else elim (find_buffer dev block s') [
            | some other ↦ getblk fuel dev block s'
            | none ↦ and_then (assign dev block bh s') (λ _. ok (some bh))
          ]))
            s
    ]
  ]

  unfoldable pub brelse : ℕ → Option ℕ → Loop (Unit {0})
  brelse fuel none = ok (some tt)
  brelse fuel (some buf) = wait_on_buffer fuel buf >>? λ _ s.
      (if s.b_count buf == 0 then panic free_free_buffer else ok (some tt) (count_down buf s))

  unfoldable pub bread : ℕ → ℕ → ℕ → Loop (Option ℕ)
  bread fuel dev block = getblk fuel dev block >>? λ bh s.
      (if s.b_uptodate bh
        then ok (some (some bh)) s
        else and_then (ll_rw_block read bh s) (λ _. wait_on_buffer fuel bh >>? λ _ s'.
            (if s'.b_uptodate bh
              then ok (some (some bh)) s'
              else (brelse fuel (some bh) >>? λ _. ok (some none)) s')))

-- The size of `struct buffer_head`, and the first address past `buffer_end` that may be used
abbrev pub head_size : ℕ
head_size = 36

abbrev pub usable_end : ℕ → ℕ
usable_end buffer_end = if buffer_end == 2 ^ 20 then 640 * 1024 else buffer_end

-- A round of the loop of `buffer_init`, for the buffer head `h`
unfoldable pub init_head : ℕ → Cache → Cache
init_head h s = record s {
  b_dev = update s.b_dev h 0;
  b_dirt = update s.b_dirt h false;
  b_count = update s.b_count h 0;
  b_lock = update s.b_lock h false;
  b_uptodate = update s.b_uptodate h false;
  b_next = update s.b_next h none;
  b_prev = update s.b_prev h none;
  b_prev_free = update s.b_prev_free h (some (h - 1));
  b_next_free = update s.b_next_free h (some (h + 1));
  nr_buffers = s.nr_buffers + 1;
}

-- The loop of `buffer_init` from the address `b` and the buffer head `h`, where the first head is at
-- the address `start`. The result is the next head; `none` means that the fuel ended before the loop.
-- No block starts below 0.
unfoldable pub init_loop : ℕ → ℕ → ℕ → ℕ → Cache → Option (ℕ × Cache)
init_loop zero start b h s = none
init_loop (suc fuel) start b h s =
    let b' = b - 1024 in
    let next = if b' == 2 ^ 20 then 640 * 1024 else b' in
    let rest = init_loop fuel start next (h + 1) (init_head h s) in
    if leb 1024 b && leb (start + (h + 1) * head_size) b' then rest else some (h, s)

-- The end of `buffer_init`, where `h` is the last head: the ring is closed.
unfoldable pub close_ring : ℕ → Cache → Cache
close_ring h s = record s {
  free_list = 0;
  b_prev_free = update s.b_prev_free 0 (some h);
  b_next_free = update s.b_next_free h (some 0);
  hash_table = λ _. none;
}

unfoldable pub buffer_init : ℕ → ℕ → ℕ → Cache → Option Cache
buffer_init fuel start buffer_end s = elim (init_loop fuel start (usable_end buffer_end) 0 s) [
  | none ↦ none
  | some (h, s') ↦ some (close_ring (h - 1) s')
]
