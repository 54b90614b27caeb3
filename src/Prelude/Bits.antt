-- ===== src/Prelude/Bits.antt =====
-- Laws of `bit_xor`, from the recursion on binary digits that the native operation stands for.
use Prim.Native.Nat.{
  ℕ, zero, suc, ◌+◌, ◌*◌, ◌/◌, ◌%◌, ◌^◌, ◌≤◌, ◌<◌, bit_xor, bit_xor-bitwise, digits, differ,
}
use mathlib.Core.Path.{◌≡◌, refl}
use native.Mathlib.Nat.{pow-suc}
use native.Mathlib.Omega.{arith}

abbrev xor_digits : ℕ → ℕ → ℕ → ℕ
xor_digits n a b = digits (λ y. y) differ n a b

-- The count of digits to go may be any number that the first operand does not pass.
xor_digits_fuel : (n m a b : ℕ) → a ≤ n → a ≤ m → xor_digits n a b ≡ xor_digits m a b
xor_digits_fuel zero zero a b p q = refl
xor_digits_fuel zero (suc m) zero b p q = refl
xor_digits_fuel zero (suc m) (suc a) b p q = absurd (omega arith)
xor_digits_fuel (suc n) zero zero b p q = refl
xor_digits_fuel (suc n) zero (suc a) b p q = absurd (omega arith)
xor_digits_fuel (suc n) (suc m) zero b p q = refl
xor_digits_fuel (suc n) (suc m) (suc a) b p q =
    omega (arith, xor_digits_fuel n m (suc a / 2) (b / 2) (omega arith) (omega arith))

differ_bits : (x y : ℕ) → x < 2 → y < 2 → differ x y ≡ (x + y) % 2
differ_bits zero y p q = omega arith
differ_bits (suc zero) zero p q = refl
differ_bits (suc zero) (suc zero) p q = refl
differ_bits (suc zero) (suc (suc y)) p q = absurd (omega arith)
differ_bits (suc (suc x)) y p q = absurd (omega arith)

differ_digits : (a b : ℕ) → differ (a % 2) (b % 2) ≡ (a + b) % 2
differ_digits a b = omega (arith, differ_bits (a % 2) (b % 2) (omega arith) (omega arith))

zero-bit_xor : (b : ℕ) → bit_xor 0 b ≡ b
zero-bit_xor b = bit_xor-bitwise 0 b

-- One equation for the lowest digit.
pub bit_xor_step : (a b : ℕ) → bit_xor a b ≡ bit_xor (a / 2) (b / 2) * 2 + (a + b) % 2
bit_xor_step zero b = omega (arith, zero-bit_xor b, zero-bit_xor (b / 2))
bit_xor_step (suc a) b = omega (
  arith,
  bit_xor-bitwise (suc a) b,
  bit_xor-bitwise (suc a / 2) (b / 2),
  differ_digits (suc a) b,
  xor_digits_fuel a (suc a / 2) (suc a / 2) (b / 2) (omega arith) (omega arith),
)

-- Exclusive or with a fixed number loses nothing.
bit_xor_cancel_fuel : (n a b c : ℕ) → a ≤ n → b ≤ n → bit_xor a c ≡ bit_xor b c → a ≡ b
bit_xor_cancel_fuel zero a b c p q h = omega arith
bit_xor_cancel_fuel (suc n) a b c p q h =
    let e : bit_xor (a / 2) (c / 2) ≡ bit_xor (b / 2) (c / 2) =
      omega (arith, bit_xor_step a c, bit_xor_step b c, h) in
    let r : a / 2 ≡ b / 2 =
      bit_xor_cancel_fuel n (a / 2) (b / 2) (c / 2) (omega arith) (omega arith) e in
    omega (arith, bit_xor_step a c, bit_xor_step b c, h, r)

pub bit_xor_cancel : (a b c : ℕ) → bit_xor a c ≡ bit_xor b c → a ≡ b
bit_xor_cancel a b c = bit_xor_cancel_fuel (a + b) a b c (omega arith) (omega arith)

bit_xor_cancel_left_fuel : (n a b c : ℕ) → a ≤ n → b ≤ n → bit_xor c a ≡ bit_xor c b → a ≡ b
bit_xor_cancel_left_fuel zero a b c p q h = omega arith
bit_xor_cancel_left_fuel (suc n) a b c p q h =
    let e : bit_xor (c / 2) (a / 2) ≡ bit_xor (c / 2) (b / 2) =
      omega (arith, bit_xor_step c a, bit_xor_step c b, h) in
    let r : a / 2 ≡ b / 2 =
      bit_xor_cancel_left_fuel n (a / 2) (b / 2) (c / 2) (omega arith) (omega arith) e in
    omega (arith, bit_xor_step c a, bit_xor_step c b, h, r)

pub bit_xor_cancel_left : (a b c : ℕ) → bit_xor c a ≡ bit_xor c b → a ≡ b
bit_xor_cancel_left a b c = bit_xor_cancel_left_fuel (a + b) a b c (omega arith) (omega arith)

pub bit_xor-lt : (k a b : ℕ) → a < 2 ^ k → b < 2 ^ k → bit_xor a b < 2 ^ k
bit_xor-lt zero zero b p q = omega (arith, zero-bit_xor b)
bit_xor-lt zero (suc a) b p q = absurd (omega arith)
bit_xor-lt (suc k) a b p q =
    let r : bit_xor (a / 2) (b / 2) < 2 ^ k =
      bit_xor-lt k (a / 2) (b / 2) (omega (arith, pow-suc 2 k)) (omega (arith, pow-suc 2 k)) in
    omega (arith, pow-suc 2 k, bit_xor_step a b, r)

-- The top digit of one operand alone is the result's.
pub le-bit_xor : (k a b : ℕ) → a < 2 ^ k → 2 ^ k ≤ b → 2 ^ k ≤ bit_xor a b
le-bit_xor zero zero b p q = omega (arith, zero-bit_xor b)
le-bit_xor zero (suc a) b p q = absurd (omega arith)
le-bit_xor (suc k) a b p q =
    let r : 2 ^ k ≤ bit_xor (a / 2) (b / 2) =
      le-bit_xor k (a / 2) (b / 2) (omega (arith, pow-suc 2 k)) (omega (arith, pow-suc 2 k)) in
    omega (arith, pow-suc 2 k, bit_xor_step a b, r)
