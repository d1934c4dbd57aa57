-- ===== src/Signal/Frame.antt =====
-- `do_signal` and the return from a handler.
use hios.Base.{
  ℕ, ◌+◌, ◌-◌, ◌*◌, ◌%◌, ◌^◌, ◌≤◌, ◌<◌, ◌≡◌, ◌≢◌, refl, sym, inl, inr, arith, ◌==◌, ◌||◌, false,
  Bool-cases, if◌then◌else◌, Option, some,
}
use hios.Run.{ok}
use hios.Sched.{Task, Bits, at_slot}
use hios.Sched.Refill.{at_slot_lem}
use hios.Proc.{Proc, on_slot}
use hios.Proc.Exit.{in_mm_keeps}
use hios.Fork.{verify_area}
use hios.Signal.{
  Sigaction, Signals, Context, nomask, oneshot, put_words, set_action, block, blocked_of,
  frame_longs, handler_frame, reset_oneshot, call_handler, do_signal, pop, sig_restore,
  masksig_restore,
}

-- Handlers 0 and 1 are SIG_DFL and SIG_IGN.
abbrev pub action_of : ℕ → Signals → Sigaction
action_of signr s = s.action s.proc.current (signr - 1)

-- `__sig_restore` for a frame without the mask, and `__masksig_restore` for one with it.
abbrev pub restored : Sigaction → (ℕ → ℕ) → ℕ → Context
restored sa user esp = if nomask sa then sig_restore user esp else masksig_restore user esp

-- The stack pointer below the frame
abbrev pub frame_esp : Sigaction → Context → ℕ
frame_esp sa c = (c.esp + 2 ^ 32 - 4 * frame_longs sa) % 2 ^ 32

-- What the frame holds, where the stack does not wrap.
module _ (sa : Sigaction) (signr : ℕ) (b : Bits) (c : Context) (user : ℕ → ℕ) (lo : 32 ≤ c.esp)
    (hi : c.esp < 2 ^ 32) where
  abbrev esp : ℕ
  esp = frame_esp sa c

  abbrev after : ℕ → ℕ
  after = put_words (handler_frame sa signr b c) esp user

  frame-restorer : after esp ≡ sa.sa_restorer
  unfolding handler_frame frame_longs put_words
  frame-restorer = elim (Bool-cases (nomask sa)) [ inl e ↦ ground arith | inr e ↦ ground arith ]

  frame-signal : after (esp + 4) ≡ signr
  unfolding handler_frame frame_longs put_words
  frame-signal = elim (Bool-cases (nomask sa)) [ inl e ↦ ground arith | inr e ↦ ground arith ]

  frame-restored : restored sa after (esp + 4) ≡ c
  unfolding handler_frame frame_longs put_words sig_restore masksig_restore pop
  frame-restored = elim (Bool-cases (nomask sa)) [ inl e ↦ ground arith | inr e ↦ ground arith ]

  frame_above : (a : ℕ) → c.esp ≤ a → after a ≡ user a
  unfolding handler_frame frame_longs put_words
  frame_above a le = elim (Bool-cases (nomask sa)) [ inl e ↦ ground arith | inr e ↦ ground arith ]

pub verify_area-task :
    (fuel addr size : ℕ) (k k' : Proc) {r : Option (Unit {0})}
    → verify_area fuel addr size k ≡ ok r k'
    → (k'.task ≡ k.task) × (k'.current ≡ k.current)
unfolding verify_area
verify_area-task fuel addr size k k' run = in_mm_keeps _ k run

block_lem :
    (mask : Bits) (k : Proc) (t : Task) (slot : ℕ)
    → slot ≡ k.current
    → k.task k.current ≡ some t
    → (i : ℕ) → blocked_of (on_slot (block mask) slot k) i ≡ (t.blocked i || mask i)
unfolding blocked_of on_slot block
block_lem mask k t slot e here i =
    let there : at_slot (block mask) slot k.task k.current ≡ some (block mask t) =
      ground (arith, at_slot_lem (block mask) slot k.task k.current) in
    rw (there, blocked_of) refl

-- A signal with a handler, for the task `t`, whose user stack has room and can be checked. Back in user
-- mode the task is at the handler, whose return address is `sa_restorer` and whose argument is the
-- signal, and its stack above is as before. The restorer that fits the frame gives back the registers,
-- the flags, the stack and the place that the signal interrupted. The mask of the handler stays
-- blocked, and the handler is reset exactly where SA_ONESHOT is set.
pub do_signal-restored :
    (signr : ℕ) (c : Context) (s : Signals) (t : Task) (r : Option (Unit {0})) (proc : Proc)
    → s.proc.task s.proc.current ≡ some t
    → 32 ≤ c.esp
    → c.esp < 2 ^ 32
    → (action_of signr s).sa_handler ≢ 0
    → (action_of signr s).sa_handler ≢ 1
    → verify_area 3 (frame_esp (action_of signr s) c) (4 * frame_longs (action_of signr s)) s.proc
      ≡ ok r proc
    → (c' : Context) × (s' : Signals) × (do_signal signr c s ≡ ok c' s')
      × (c'.eip ≡ (action_of signr s).sa_handler)
      × (s'.user c'.esp ≡ (action_of signr s).sa_restorer)
      × (s'.user (c'.esp + 4) ≡ signr)
      × (restored (action_of signr s) s'.user (c'.esp + 4) ≡ c)
      × ((a : ℕ) → c.esp ≤ a → s'.user a ≡ s.user a)
      × ((i : ℕ) → blocked_of s'.proc i ≡ (t.blocked i || (action_of signr s).sa_mask i))
      × ((action_of signr s').sa_handler
          ≡ (if oneshot (action_of signr s) then 0 else (action_of signr s).sa_handler))
unfolding do_signal call_handler reset_oneshot set_action on_slot blocked_of block
do_signal-restored signr c s t r proc here lo hi no_default no_ignore run =
    let sa = action_of signr s in
    let k = s.proc.current in
    let handled : (sa.sa_handler == 1) ≡ false = ground arith in
    let set : (sa.sa_handler == 0) ≡ false = ground arith in
    let (task, current) =
      verify_area-task 3 (frame_esp sa c) (4 * frame_longs sa) s.proc proc run in
    let b = blocked_of proc in
    let user = put_words (handler_frame sa signr b c) (frame_esp sa c) s.user in
    let c' : Context = record c { eip = sa.sa_handler; esp = frame_esp sa c } in
    let slot : proc.task proc.current ≡ some t = rw (task, current) here in
    let now : (i : ℕ)
        → blocked_of (on_slot (block sa.sa_mask) k proc) i ≡ (t.blocked i || sa.sa_mask i) =
      block_lem sa.sa_mask proc t k (sym current) slot in
    (
      c',
      record (reset_oneshot sa (signr - 1) s) {
        proc = on_slot (block sa.sa_mask) k proc;
        user = user;
      },
      rw (handled, set, do_signal) (rw (run, call_handler) refl),
      refl,
      frame-restorer sa signr b c s.user lo hi,
      frame-signal sa signr b c s.user lo hi,
      frame-restored sa signr b c s.user lo hi,
      frame_above sa signr b c s.user lo hi,
      now,
      elim (Bool-cases (oneshot sa)) [
        | inl once ↦ rw (current, once) (ground arith)
        | inr many ↦ rw (current, many) refl
      ],
    )
