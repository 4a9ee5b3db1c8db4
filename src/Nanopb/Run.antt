-- ===== src/Nanopb/Run.antt =====
-- How a C function of nanopb runs: it changes its stream in place, and returns `true` with its
-- results or `false`. `stuck` is no value of the C code: a loop of the model ran out of fuel, or
-- the code wrote past the end of a local buffer.
use study_hours.Common.{Option, none, some}

pub data Res {ℓ κ} (S : Type ℓ) (A : Type κ) : Type (ℓ ⊔ κ) where
  done : A → S → Res S A
  failed : S → Res S A
  stuck : Res S A

abbrev pub M {ℓ κ} : Type ℓ → Type κ → Type (ℓ ⊔ κ)
M S A = S → Res S A

-- The rest of a function body, after `if (!call) return false;`.
abbrev pub and_then {ℓ κ ι} :
    {S : Type ℓ} {A : Type κ} {B : Type ι} → Res S A → (A → M S B) → Res S B
and_then (done a s) k = k a s
and_then (failed s) k = failed s
and_then stuck k = stuck

infixl 5 ◌>>=◌ ◌>>◌
abbrev pub ◌>>=◌ {ℓ κ ι} : {S : Type ℓ} {A : Type κ} {B : Type ι} → M S A → (A → M S B) → M S B
◌>>=◌ m k s = and_then (m s) k

abbrev pub ◌>>◌ {ℓ κ} : {S : Type ℓ} {B : Type κ} → M S (Unit {0}) → M S B → M S B
◌>>◌ m k s = and_then (m s) (λ _. k)

abbrev pub return {ℓ κ} : {S : Type ℓ} {A : Type κ} → A → M S A
return a s = done a s

-- The string literals that the code gives to `PB_RETURN_ERROR`.
pub data Message : Type 0 where
  stream_full io_error end_of_stream varint_overflow invalid_wire_type : Message
  parent_stream_too_short array_overflow invalid_field_type invalid_data_size : Message
  integer_too_large bytes_overflow size_too_large string_overflow : Message
  incorrect_fixed_length_bytes_size invalid_field_descriptor missing_required_field : Message
  wrong_size_for_fixed_count_field too_many_array_entries realloc_failed invalid_size : Message
  array_max_size_exceeded bytes_size_exceeded callback_error callback_failed : Message
  submsg_size_changed invalid_union_tag iterator_error : Message

-- `PB_SET_ERROR`: the first message stays.
abbrev pub set_error : Option Message → Message → Option Message
set_error none msg = some msg
set_error (some old) msg = some old
