-- ===== src/Tests/Requesting.antt =====
-- Tests of kernel/blk_drv/ll_rw_blk.c, on the queue of a hard disk.
use hios.Base.{
  List, ◌≢◌, ℕ, ◌≤◌, ◌≡◌, refl, inr, arith, true, ltb, ◌==◌, if◌then◌else◌, Option, none, some, [],
  ◌∷◌,
}
use hios.Run.{ok, Cmd}
use hios.Cache.Chain.{has, Chain, end, link}
use hios.Requests.{Requests, in_order, add_request}
use hios.Requests.Elevator.{
  Differ, fits_between, placed, turns, turns_of, add_request-placed, add_request-turns,
}
use hios.Tests.Caching.{blank}

-- Request 0 is under way at sector 10, request 1 waits for sector 30, and request 2 is for sector 20.
abbrev busy_disk : Requests
busy_disk = record {
  cache = blank;
  r_dev = λ r. if ltb r 3 then some 0x301 else none;
  r_cmd = λ r. 0;
  r_sector = λ r. if r == 0 then 10 else if r == 1 then 30 else 20;
  r_bh = λ r. none;
  r_next = λ r. if r == 0 then some 1 else none;
  current_request = λ major. if major == 3 then some 0 else none;
}

abbrev no_start : ℕ → Option (Cmd Requests (Unit {0}))
no_start major = none

abbrev no_wait : Option ℕ → Cmd Requests (Unit {0})
no_wait bh = ok tt

between : placed busy_disk 2 0 (1 ∷ []) ≡ 0 ∷ 2 ∷ 1 ∷ []
unfolding placed fits_between in_order
between = refl

once : turns busy_disk 0 (1 ∷ []) ≤ 1
unfolding turns in_order
once = omega arith

differ : (x : ℕ) → has x (1 ∷ []) ≡ true → Differ busy_disk 2 x
unfolding Differ
differ x m = let e : x ≡ 1 = ground arith in inr (inr (rw e (omega arith)))

queue : Chain busy_disk.r_next (some 0) (0 ∷ 1 ∷ [])
queue = link refl (link refl end)

add_request-placed_example :
    (s' : Requests) × (add_request no_start no_wait 3 2 busy_disk ≡ ok tt s')
    × Chain s'.r_next (s'.current_request 3) (placed busy_disk 2 0 (1 ∷ []))
    × ((x y : ℕ) → in_order s' x y ≡ in_order busy_disk x y)
add_request-placed_example =
    add_request-placed no_start no_wait busy_disk 3 2 0 (1 ∷ []) refl queue (omega arith) refl

add_request-turns_example :
    (s' : Requests) × (l : List ℕ) × (add_request no_start no_wait 3 2 busy_disk ≡ ok tt s')
    × Chain s'.r_next (s'.current_request 3) l
    × (has 2 l ≡ true)
    × ((x : ℕ) → x ≢ 2 → has x l ≡ has x (0 ∷ 1 ∷ []))
    × (turns_of s' l ≤ 1)
add_request-turns_example =
    add_request-turns no_start no_wait busy_disk 3 2 0 (1 ∷ []) refl queue (omega arith) refl differ
      once
