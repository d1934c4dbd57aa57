-- ===== src/Requests.antt =====
-- The queue of requests to block devices: kernel/blk_drv/ll_rw_blk.c. A request is an index of the
-- array `request`, a field of `struct request` being an array; `r_dev` is `none` for -1.
use hios.Base.{
  ℕ, zero, suc, ◌+◌, ◌*◌, ◌/◌, ◌%◌, ◌^◌, ◌<◌, ◌≡◌, Bool, true, false, not, ◌&&◌, ◌||◌, ltb, leb,
  ◌==◌, if◌then◌else◌, Option, none, some, update, is_null,
}
use hios.Run.{Run, ok, Cmd, and_then}
use hios.Cache.{Cache}
pub mod Elevator

-- NR_REQUEST and NR_BLK_DEV
abbrev pub nr_request : ℕ
nr_request = 32

abbrev pub nr_blk_dev : ℕ
nr_blk_dev = 7

-- READ, WRITE, READA and WRITEA
pub data Command : Type 0 where
  read write reada writea : Command

-- `struct request` and `current_request` of each `struct blk_dev_struct`
pub record Requests : Type 0 where
  pub cache : Cache
  pub r_dev : ℕ → Option ℕ
  pub r_cmd : ℕ → ℕ
  pub r_sector : ℕ → ℕ
  pub r_bh : ℕ → Option ℕ
  pub r_next : ℕ → Option ℕ
  pub current_request : ℕ → Option ℕ

abbrev pub dev_of : Option ℕ → ℕ
dev_of none = 0
dev_of (some d) = d

-- `IN_ORDER`; requests in a queue have a device.
unfoldable pub in_order : Requests → ℕ → ℕ → Bool
in_order s a b =
    let da = dev_of (s.r_dev a) in
    let db = dev_of (s.r_dev b) in
    ltb (s.r_cmd a) (s.r_cmd b)
    || ((s.r_cmd a == s.r_cmd b)
        && (ltb da db || ((da == db) && ltb (s.r_sector a) (s.r_sector b))))

-- The loop of `add_request`: the request of the queue after which `req` goes. The fuel is enough if
-- it is the number of requests.
unfoldable pub find_place : ℕ → ℕ → ℕ → Requests → ℕ
find_place zero req tmp s = tmp
find_place (suc fuel) req tmp s = elim (s.r_next tmp) [
  | none ↦ tmp
  | some n ↦
      if (in_order s tmp req || not (in_order s tmp n)) && in_order s req n
      then tmp
      else find_place fuel req n s
]

-- `req->bh->b_dirt = 0`, where `req->bh` may be null
abbrev pub clean_buffer : Option ℕ → Cache → Cache
clean_buffer none c = c
clean_buffer (some bh) c = record c { b_dirt = update c.b_dirt bh false }

-- `req` goes into the queue after `tmp`.
abbrev pub insert_after : ℕ → ℕ → Requests → Requests
insert_after tmp req s = record s {
  r_next = update (update s.r_next req (s.r_next tmp)) tmp (some req);
}

abbrev pub start_request : ℕ → Requests → Requests
start_request req s = record s {
  cache = clean_buffer (s.r_bh req) s.cache;
  r_next = update s.r_next req none;
}

-- What a device does when it is told to start, and what happens while the task sleeps: on the lock of
-- a buffer or, for `none`, until a request is free
module _ (request_fn : ℕ → Option (Cmd Requests (Unit {0})))
    (sleep_on : Option ℕ → Cmd Requests (Unit {0})) where
  unfoldable pub add_request : ℕ → ℕ → Cmd Requests (Unit {0})
  add_request major req s =
      let s' = start_request req s in
      elim (s'.current_request major) [
        | none ↦
            (let t = record s' { current_request = update s'.current_request major (some req) } in
              elim (request_fn major) [ none ↦ ok tt t | some f ↦ f t ])
        | some tmp ↦ ok tt (insert_after (find_place nr_request req tmp s') req s')
      ]

  unfoldable pub set_lock : Bool → ℕ → Requests → Requests
  set_lock v bh s = record s { cache = record s.cache { b_lock = update s.cache.b_lock bh v } }

  -- `none` means that the task still waits when the fuel ends.
  unfoldable pub lock_buffer : ℕ → ℕ → Cmd Requests (Option (Unit {0}))
  lock_buffer zero bh s = ok none s
  lock_buffer (suc fuel) bh s =
      if s.cache.b_lock bh
      then and_then (sleep_on (some bh) s) (λ _. lock_buffer fuel bh)
      else ok (some tt) (set_lock true bh s)

  -- The last of the first `n` requests that is free
  unfoldable pub free_request : ℕ → Requests → Option ℕ
  free_request zero s = none
  free_request (suc n) s = if is_null (s.r_dev n) then some n else free_request n s

  -- The request is filled in for the buffer; a block is two sectors.
  unfoldable pub fill_request : ℕ → Bool → ℕ → Requests → Requests
  fill_request req writing bh s = record s {
    r_dev = update s.r_dev req (some (s.cache.b_dev bh));
    r_cmd = update s.r_cmd req (if writing then 1 else 0);
    r_sector = update s.r_sector req (2 * s.cache.b_blocknr bh % 2 ^ 32);
    r_bh = update s.r_bh req (some bh);
    r_next = update s.r_next req none;
  }

  -- From `repeat:` on; writes may use the first two thirds of the requests only.
  unfoldable pub place_request : ℕ → ℕ → Bool → Bool → ℕ → Cmd Requests (Option (Unit {0}))
  place_request zero major writing ahead bh s = ok none s
  place_request (suc fuel) major writing ahead bh s =
      elim (free_request (if writing then nr_request * 2 / 3 else nr_request) s) [
        | none ↦
            if ahead
            then ok (some tt) (set_lock false bh s)
            else and_then (sleep_on none s) (λ _. place_request fuel major writing ahead bh)
        | some req ↦
            and_then (add_request major req (fill_request req writing bh s)) (λ _. ok (some tt))
      ]

  abbrev pub is_ahead : Command → Bool
  is_ahead read = false
  is_ahead write = false
  is_ahead reada = true
  is_ahead writea = true

  abbrev pub is_write : Command → Bool
  is_write read = false
  is_write write = true
  is_write reada = false
  is_write writea = true

  unfoldable pub make_request : ℕ → ℕ → Command → ℕ → Cmd Requests (Option (Unit {0}))
  make_request fuel major rw' bh s =
      if is_ahead rw' && s.cache.b_lock bh
      then ok (some tt) s
      else and_then (lock_buffer fuel bh s) (λ locked s'. elim locked [
        | none ↦ ok none s'
        | some _ ↦
            if (is_write rw' && not (s'.cache.b_dirt bh))
              || (not (is_write rw') && s'.cache.b_uptodate bh)
            then ok (some tt) (set_lock false bh s')
            else place_request fuel major (is_write rw') (is_ahead rw') bh s'
      ])

  unfoldable pub ll_rw_block : ℕ → Command → ℕ → Cmd Requests (Option (Unit {0}))
  ll_rw_block fuel rw' bh s =
      let major = s.cache.b_dev bh / 256 in
      if leb nr_blk_dev major || is_null (request_fn major)
      then ok (some tt) s
      else make_request fuel major rw' bh s

unfoldable pub blk_dev_init : Requests → Requests
blk_dev_init s = record s {
  r_dev = λ r. if ltb r nr_request then none else s.r_dev r;
  r_next = λ r. if ltb r nr_request then none else s.r_next r;
}
