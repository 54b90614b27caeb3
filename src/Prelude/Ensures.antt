-- ===== src/Prelude/Ensures.antt =====
-- What a method preserves together with what it says of the value that it returns.
use mathlib.Core.Bool.{Bool, true, false}
use landy_heater.Prelude.Results.{Result, ok, err, Error}
use landy_heater.Prelude.Exec.{Exec, pure, lift, modify, check, ◌>>=◌}
use landy_heater.Prelude.Tests.{if◌then◌else◌}

-- What holds of the value, if nothing was raised.
abbrev pub Post {ℓ μ} : {A : Type ℓ} → (A → Type μ) → Result A → Type μ
Post Q (ok a) = Q a
Post Q (err e) = Unit

pub record Ensures {ℓ κ μ ν} {S : Type ℓ} {A : Type κ} (Inv : S → Type μ) (Q : A → Type ν)
    (method : Exec S A) : Type (ℓ ⊔ μ ⊔ ν) where
  pub from : (s : S) → Inv s → Post Q (method s).0 × Inv (method s).1

module _ {ℓ κ μ ν} {S : Type ℓ} {A : Type κ} (Inv : S → Type μ) (Q : A → Type ν) where
  pub Ensures-lift : (r : Result A) → Post Q r → Ensures Inv Q (lift r)
  Ensures-lift r q = record { from = λ s i. (q, i) }

  pub Ensures-pure : (a : A) → Q a → Ensures Inv Q (pure a)
  Ensures-pure a q = record { from = λ s i. (q, i) }

  pub Ensures-choice :
      (b : Bool) {m n : Exec S A}
      → Ensures Inv Q m
      → Ensures Inv Q n
      → Ensures Inv Q (if b then m else n)
  Ensures-choice true k l = k
  Ensures-choice false k l = l

module _ {ℓ μ} {S : Type ℓ} (Inv : S → Type μ) where
  pub Ensures-modify :
      (f : S → S)
      → ((s : S) → Inv s → Inv (f s))
      → Ensures Inv (λ (u : Unit {0}). Unit {0}) (modify f)
  Ensures-modify f k = record { from = λ s i. (tt, k s i) }

  pub Ensures-check : (b : Bool) (e : Error) → Ensures Inv (λ (u : Unit {0}). Unit {0}) (check b e)
  Ensures-check true e = record { from = λ s i. (tt, i) }
  Ensures-check false e = record { from = λ s i. (tt, i) }

module _ {ℓ κ λ' μ ν ξ} {S : Type ℓ} {A : Type κ} {B : Type λ'} (Inv : S → Type μ) (Q : A → Type ν)
    (R : B → Type ξ) where
  after_lift :
      (rest : A → Exec S B)
      → ((a : A) → Q a → Ensures Inv R (rest a))
      → (r : Result A) → Post Q r
      → Ensures Inv R (lift r >>= rest)
  after_lift rest k (err e) q = record { from = λ s i. (tt, i) }
  after_lift rest k (ok a) q = k a q

  pub Ensures-bind :
      (first : Exec S A) (rest : A → Exec S B)
      → Ensures Inv Q first
      → ((a : A) → Q a → Ensures Inv R (rest a))
      → Ensures Inv R (first >>= rest)
  Ensures-bind first rest k l = record {
    from = λ s i. let (q, j) = k.from s i in (after_lift rest l (first s).0 q).from (first s).1 j;
  }
