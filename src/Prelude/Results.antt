-- ===== src/Prelude/Results.antt =====
-- Python exceptions as values. An operation that may raise returns a `Result`.
use Prim.Native.Nat.{ℕ}
use Prim.Native.String.{String}
use mathlib.Core.Bool.{Bool, true, false}
use mathlib.Core.Path.{◌≡◌, refl}
use mathlib.Core.Logic.{◌⊎◌, inl, inr}

pub data Error : Type 0 where
  -- `ValueError`, `RuntimeError`, `TypeError`, `KeyError` with their message
  value_error runtime_error type_error key_error : String → Error
  -- `AutotermProtocolServiceError`, and its subclass `AutotermProtocolTxDisabledError`
  service_error tx_disabled_error : String → Error
  -- an exception of the injected transport, which propagates
  transport_error : Error
  -- `RestRateLimitExceeded(retry_after_seconds)` and `RestRateLimitUnavailable`
  rate_limit_exceeded : ℕ → Error
  rate_limit_unavailable : String → Error

pub data Result {ℓ} (A : Type ℓ) : Type ℓ where
  -- what a method returns, or the exception that it raises
  ok : (value : A) → Result A
  err : (raised : Error) → Result A

-- What follows is done only where nothing was raised.
module _ {ℓ} {B : Type ℓ} where
  infixl 5 ◌>>=◌ ◌>>◌
  abbrev pub ◌>>=◌ {κ} : {A : Type κ} (r : Result A) (next : A → Result B) → Result B
  err x >>= next = err x
  ok a >>= next = next a

  abbrev pub ◌>>◌ : (r : Result (Unit {0})) (rest : Result B) → Result B
  r >> rest = r >>= λ _. rest

  -- A value at the end comes from a value of the first part.
  pub >>=-ok {κ} :
      {A : Type κ} (r : Result A) (next : A → Result B) (v : B)
      → (r >>= next) ≡ ok v
      → (x : A) × (next x ≡ ok v) × (r ≡ ok x)
  >>=-ok (err x) next v e = cc
  >>=-ok (ok a) next v e = (a, e, refl)

-- `if not c: raise e`
abbrev pub require : Bool → Error → Result (Unit {0})
require c e = elim c [ true ↦ ok tt | false ↦ err e ]

-- What a check lets through has passed it.
pub require-ok {ℓ} :
    {A : Type ℓ} (c : Bool) (x : Error) (rest : Result A) (v : A)
    → (require c x >> rest) ≡ ok v
    → (c ≡ true) × (rest ≡ ok v)
require-ok true x rest v e = (refl, e)
require-ok false x rest v e = cc

pub ok-eq {ℓ} : {A : Type ℓ} {a b : A} → ok a ≡ ok b → a ≡ b
ok-eq e = cc

pub Result-cases {ℓ} :
    {A : Type ℓ} (r : Result A) → ((a : A) × (r ≡ ok a)) ⊎ ((e : Error) × (r ≡ err e))
Result-cases (ok a) = inl (a, refl)
Result-cases (err e) = inr (e, refl)
