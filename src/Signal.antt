-- ===== src/Signal.antt =====
-- kernel/signal.c, and the functions of kernel/libc_restore.s that end a handler. The messages of the
-- debugging code are left out.
pub mod Frame
use hios.Base.{
  ℕ, zero, suc, ◌+◌, ◌-◌, ◌*◌, ◌/◌, ◌%◌, ◌^◌, ltb, ◌==◌, ◌&&◌, ◌||◌, not, Bool, true, false,
  if◌then◌else◌, update, Option, none, some, List, [], ◌∷◌, ◌++◌,
}
use hios.Run.{Run, ok, Cmd, and_then}
use hios.Sched.{Task, Bits, sigkill}
use hios.Proc.{Proc, on_slot}
use hios.Fork.{verify_area}

-- `struct sigaction`, with `sa_flags` as a word
pub record Sigaction : Type 0 where
  pub sa_handler : ℕ
  pub sa_mask : Bits
  pub sa_flags : ℕ
  pub sa_restorer : ℕ

-- `action k i` is `task[k]->sigaction[i]`, and `user` the words of the current task's data segment.
pub record Signals : Type 0 where
  pub proc : Proc
  pub action : ℕ → ℕ → Sigaction
  pub user : ℕ → ℕ

-- The registers on the kernel's stack that a handler's call changes or saves.
pub record Context : Type 0 where
  pub eax : ℕ
  pub ecx : ℕ
  pub edx : ℕ
  pub eip : ℕ
  pub eflags : ℕ
  pub esp : ℕ

-- SA_NOMASK and SA_ONESHOT
abbrev pub nomask : Sigaction → Bool
nomask a = a.sa_flags / 2 ^ 30 % 2 == 1

abbrev pub oneshot : Sigaction → Bool
oneshot a = a.sa_flags / 2 ^ 31 % 2 == 1

-- The bits below `n` as a word.
unfoldable pub to_word : ℕ → Bits → ℕ
to_word zero b = 0
to_word (suc n) b = to_word n b + (if b n then 2 ^ n else 0)

-- `put_fs_long(value, tmp_esp++)` for each value.
unfoldable pub put_words : List ℕ → ℕ → (ℕ → ℕ) → ℕ → ℕ
put_words [] a user = user
put_words (v ∷ vs) a user = put_words vs ((a + 4) % 2 ^ 32) (update user a v)

unfoldable pub set_action : ℕ → ℕ → (Sigaction → Sigaction) → Signals → Signals
set_action k i f s = record s {
  action = update s.action k (update (s.action k) i (f (s.action k i)));
}

-- `current->blocked |= mask`
unfoldable pub block : Bits → Task → Task
block mask t = record t { blocked = λ i. t.blocked i || mask i }

unfoldable pub blocked_of : Proc → Bits
blocked_of k = elim (k.task k.current) [ none ↦ λ i. false | some t ↦ t.blocked ]

-- `longs`
unfoldable pub frame_longs : Sigaction → ℕ
frame_longs sa = if nomask sa then 7 else 8

-- What goes on the user's stack, from the new `esp` up.
unfoldable pub handler_frame : Sigaction → ℕ → Bits → Context → List ℕ
handler_frame sa signr blocked c =
    (sa.sa_restorer ∷ signr ∷ (if nomask sa then [] else to_word 32 blocked ∷ []))
    ++ (c.eax ∷ c.ecx ∷ c.edx ∷ c.eflags ∷ c.eip ∷ [])

-- `if (sa->sa_flags & SA_ONESHOT) sa->sa_handler = NULL;`
unfoldable pub reset_oneshot : Sigaction → ℕ → Signals → Signals
reset_oneshot sa i s = record s {
  action =
      if oneshot sa
      then (set_action s.proc.current i (λ a. record a { sa_handler = 0 }) s).action
      else s.action;
}

-- The last part of `do_signal`, when there is a handler.
unfoldable pub call_handler : Sigaction → ℕ → Context → Signals → Run Signals Context
call_handler sa signr c s =
    let k = s.proc.current in
    let s1 = reset_oneshot sa (signr - 1) s in
    let esp = (c.esp + 2 ^ 32 - 4 * frame_longs sa) % 2 ^ 32 in
    elim (verify_area 3 esp (4 * frame_longs sa) s1.proc) [
      | Run.panic e ↦ Run.panic e
      | ok r proc ↦
          ok (record c { eip = sa.sa_handler; esp = esp })
            (record s1 {
              proc = on_slot (block sa.sa_mask) k proc;
              user = put_words (handler_frame sa signr (blocked_of proc) c) esp s1.user;
            })
    ]

-- SIG_IGN is 1 and SIG_DFL is 0.
unfoldable pub do_signal : ℕ → Context → Signals → Run Signals Context
do_signal signr c s =
    let sa = s.action s.proc.current (signr - 1) in
    if sa.sa_handler == 1
    then ok c s
    else if sa.sa_handler == 0
    then ok c s
    else call_handler sa signr c s

unfoldable pub sys_sgetmask : Signals → Bits
sys_sgetmask s = blocked_of s.proc

unfoldable pub set_blocked : Bits → Task → Task
set_blocked mask t = record t { blocked = mask }

unfoldable pub sys_ssetmask : Bits → Signals → Bits × Signals
sys_ssetmask newmask s =
    let mask = update newmask sigkill false in
    (blocked_of s.proc, record s { proc = on_slot (set_blocked mask) s.proc.current s.proc })

-- The last `if` of `sys_sigaction`.
unfoldable pub own_mask : ℕ → Sigaction → Sigaction
own_mask i a = record a { sa_mask = if nomask a then (λ j. false) else update a.sa_mask i true }

-- `action` is what `get_new` reads from the user. The result is `none` for -1, or what `save_old` gives
-- to the user where `old_action` is not null; its check of the user's memory is part of `proc`.
unfoldable pub sys_sigaction :
    ℕ → Sigaction → Option ℕ → Signals → Run Signals (Option (Option Sigaction))
sys_sigaction signum action old_action s =
    let k = s.proc.current in
    if ltb signum 1 || (ltb 32 signum || (signum == 9))
    then ok none s
    else let old = s.action k (signum - 1) in
      let s1 = set_action k (signum - 1) (λ _. action) s in
      elim old_action [
        | none ↦ ok (some none) (set_action k (signum - 1) (own_mask (signum - 1)) s1)
        | some to ↦ elim (verify_area 3 to 16 s1.proc) [
          | Run.panic e ↦ Run.panic e
          | ok r proc ↦
              ok (some (some old))
                (set_action k (signum - 1) (own_mask (signum - 1)) (record s1 { proc = proc }))
        ]
      ]

-- The end of a handler: `ret`, with the stack pointer at the handler's frame, and then `__sig_restore`
-- or `__masksig_restore`, which drops one word more. The result also has the address that `ret` goes to.
unfoldable pub pop : (ℕ → ℕ) → ℕ → ℕ
pop user esp = user (esp % 2 ^ 32)

unfoldable pub sig_restore : (ℕ → ℕ) → ℕ → Context
sig_restore user esp = record {
  eax = pop user (esp + 4);
  ecx = pop user (esp + 8);
  edx = pop user (esp + 12);
  eflags = pop user (esp + 16);
  eip = pop user (esp + 20);
  esp = (esp + 24) % 2 ^ 32;
}

unfoldable pub masksig_restore : (ℕ → ℕ) → ℕ → Context
masksig_restore user esp = sig_restore user (esp + 4)
