-- ===== src/Run.antt =====
-- A run of kernel code: a value and the new state, or `panic` of kernel/panic.c, which prints a
-- message and loops for ever.
use hios.Base.{◌≡◌, refl, ◌⊎◌, inl, inr}

-- the messages that the modelled code passes to `panic`, a constructor for each
pub data Panic : Type 0 where
  out_of_memory : Panic
  free_free_page : Panic
  wrong_alignment : Panic
  swapper_space : Panic
  already_exist : Panic
  sleep_task_0 : Panic
  missing_task : Panic
  not_overlapped : Panic
  bad_data_limit : Panic
  close_count : Panic
  free_list_corrupted : Panic
  free_free_buffer : Panic
  block_big : Panic
  bit_already_cleared : Panic
  nonexistent_device : Panic
  not_in_datazone : Panic
  null_map : Panic
  inode_in_use : Panic
  inode_has_links : Panic
  no_such_inode : Panic

pub data Run (S A : Type 0) : Type 0 where
  ok : A → S → Run S A
  panic : Panic → Run S A

abbrev pub Cmd : Type 0 → Type 0 → Type 0
Cmd S A = S → Run S A

module _ {S : Type 0} where
  abbrev pub and_then : {A B : Type 0} → Run S A → (A → Cmd S B) → Run S B
  and_then (ok a s) k = k a s
  and_then (panic e) k = panic e

  infixl 5 ◌>>=◌ ◌>>◌
  abbrev pub ◌>>=◌ : {A B : Type 0} → Cmd S A → (A → Cmd S B) → Cmd S B
  ◌>>=◌ m k s = and_then (m s) k

  abbrev pub ◌>>◌ : {A B : Type 0} → Cmd S A → Cmd S B → Cmd S B
  ◌>>◌ m k s = and_then (m s) (λ _. k)

  abbrev pub pure : {A : Type 0} → A → Cmd S A
  pure = ok

  abbrev pub halt : {A : Type 0} → Panic → Cmd S A
  halt e _ = panic e

pub Run-cases :
    {S A : Type 0} (r : Run S A)
    → ((a : A) × (s : S) × (r ≡ ok a s)) ⊎ ((e : Panic) × (r ≡ panic e))
Run-cases (ok a s) = inl (a, s, refl)
Run-cases (panic e) = inr (e, refl)
