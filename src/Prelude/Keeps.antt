-- ===== src/Prelude/Keeps.antt =====
-- What the methods of an object preserve, by the way a method is built.
use mathlib.Core.Bool.{Bool, true, false}
use landy_heater.Prelude.Results.{Result, ok, err, Error}
use landy_heater.Prelude.Exec.{Exec, lift, gets, modify, check, ◌>>=◌}
use landy_heater.Prelude.Tests.{if◌then◌else◌}

-- From a state where `Inv` holds the method ends in such a state, also where it raises.
pub record Keeps {ℓ κ μ} {S : Type ℓ} {A : Type κ} (Inv : S → Type μ) (method : Exec S A)
    : Type (ℓ ⊔ μ) where
  pub from : (s : S) → Inv s → Inv (method s).1

module _ {ℓ κ μ} {S : Type ℓ} {A : Type κ} (Inv : S → Type μ) where
  pub Keeps-lift : (r : Result A) → Keeps Inv (lift r)
  Keeps-lift r = record { from = λ s i. i }

  pub Keeps-gets : (f : S → A) → Keeps Inv (gets f)
  Keeps-gets f = record { from = λ s i. i }

  pub Keeps-choice :
      (b : Bool) {m n : Exec S A} → Keeps Inv m → Keeps Inv n → Keeps Inv (if b then m else n)
  Keeps-choice true k l = k
  Keeps-choice false k l = l

module _ {ℓ μ} {S : Type ℓ} (Inv : S → Type μ) where
  pub Keeps-modify : (f : S → S) → ((s : S) → Inv s → Inv (f s)) → Keeps Inv (modify f)
  Keeps-modify f k = record { from = k }

  pub Keeps-check : (b : Bool) (e : Error) → Keeps Inv (check b e)
  Keeps-check true e = record { from = λ s i. i }
  Keeps-check false e = record { from = λ s i. i }

module _ {ℓ κ ν μ} {S : Type ℓ} {A : Type κ} {B : Type ν} (Inv : S → Type μ) where
  after_lift :
      (rest : A → Exec S B)
      → ((a : A) → Keeps Inv (rest a))
      → (r : Result A) → Keeps Inv (lift r >>= rest)
  after_lift rest k (err e) = record { from = λ s i. i }
  after_lift rest k (ok a) = k a

  pub Keeps-bind :
      (first : Exec S A) (rest : A → Exec S B)
      → Keeps Inv first
      → ((a : A) → Keeps Inv (rest a))
      → Keeps Inv (first >>= rest)
  Keeps-bind first rest k l = record {
    from = λ s i. (after_lift rest l (first s).0).from (first s).1 (k.from s i);
  }
