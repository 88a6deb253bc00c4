-- ===== src/Outcome.antt =====
-- What a call of a stream function comes to. C's `return true` is `done` with the values written
-- through the out parameters, `return false` is `fail`; both carry the stream as the call leaves it.
-- `fault` is undefined behaviour: an access outside the memory that a pointer refers to. `stuck` is no
-- outcome of the program: a loop of the model ran out of its fuel.
use bw_watermyplants.Common.{◌≡◌, Option, none, some}

pub data Outcome {ℓ κ} (S : Type ℓ) (A : Type κ) : Type (ℓ ⊔ κ) where
  done : A → S → Outcome S A
  fail : S → Outcome S A
  fault : Outcome S A
  stuck : Outcome S A

-- A call on a stream of type `S` with out parameters of type `A`.
abbrev pub Call {ℓ κ} : Type ℓ → Type κ → Type (ℓ ⊔ κ)
Call S A = S → Outcome S A

-- `if (!m) return false;` and then the rest.
infixl 5 ◌>>=◌ ◌>>◌
abbrev pub ◌>>=◌ {ℓ κ μ} :
    {S : Type ℓ} {A : Type κ} {B : Type μ} → Call S A → (A → Call S B) → Call S B
◌>>=◌ m f s = elim (m s) [ done a s' ↦ f a s' | fail s' ↦ fail s' | fault ↦ fault | stuck ↦ stuck ]

abbrev pub ◌>>◌ {ℓ κ μ} : {S : Type ℓ} {A : Type κ} {B : Type μ} → Call S A → Call S B → Call S B
m >> k = m >>= λ _. k

abbrev pub return {ℓ κ} : {S : Type ℓ} {A : Type κ} → A → Call S A
return a s = done a s

-- The messages that `PB_RETURN_ERROR` is called with.
pub data Errmsg : Type 0 where
  stream_full io_error end_of_stream varint_overflow invalid_wire_type : Errmsg
  parent_stream_too_short invalid_field_type invalid_data_size : Errmsg
  array_max_size_exceeded missing_required_field callback_error : Errmsg
  submsg_size_changed bytes_size_exceeded invalid_field_descriptor : Errmsg
  array_overflow invalid_size size_too_large realloc_failed too_many_array_entries : Errmsg
  callback_failed invalid_union_tag iterator_error wrong_fixed_count bytes_overflow : Errmsg
  string_overflow integer_too_large incorrect_fixed_length : Errmsg

-- `PB_SET_ERROR`: the first message stays.
abbrev pub set_error : Option Errmsg → Errmsg → Option Errmsg
set_error none msg = some msg
set_error (some first) msg = some first

module _ {ℓ κ μ} {S : Type ℓ} {A : Type κ} {B : Type μ} (m : Call S A) (f : A → Call S B) where
  pub bind_done : {s s' : S} {a : A} → m s ≡ done a s' → (m >>= f) s ≡ f a s'
  bind_done h = rw (h, ◌>>=◌)

  pub bind_fail : {s s' : S} → m s ≡ fail s' → (m >>= f) s ≡ fail s'
  bind_fail h = rw (h, ◌>>=◌)
