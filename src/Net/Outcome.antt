-- ===== src/Net/Outcome.antt =====
-- What a function of src/net returns: a value, a CoalyException, or a panic.
use Prim.Native.Nat.{ℕ}
use mathlib.Core.List.{List}
use coaly.Prelude.{leb, if◌then◌else◌, length, drop}

-- The type that the message of E_DESER_ERR names.
pub data Subject : Type 0 where
  u8 u32 u64 ui64 string option map message : Subject

pub data CoalyException : Type 0 where
  deser_err : Subject → CoalyException
  msg_too_short : CoalyException
  msg_size_mismatch : ℕ → ℕ → CoalyException

pub data Outcome {ℓ} (A : Type ℓ) : Type ℓ where
  ok : A → Outcome A
  err : CoalyException → Outcome A
  panic : Outcome A

infixl 5 ◌>>=◌
abbrev pub ◌>>=◌ {ℓ κ} : {A : Type ℓ} {B : Type κ} → Outcome A → (A → Outcome B) → Outcome B
ok a >>= f = f a
err e >>= f = err e
panic >>= f = panic

-- `&buffer[n..]`
unfoldable pub slice_from : ℕ → List ℕ → Outcome (List ℕ)
slice_from n buffer = if leb n (length buffer) then ok (drop n buffer) else panic

-- `unwrap_or`
abbrev pub value_or {ℓ} : {A : Type ℓ} → Outcome A → A → Outcome A
value_or (ok a) d = ok a
value_or (err e) d = ok d
value_or panic d = panic
