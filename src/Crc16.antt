-- ===== src/Crc16.antt =====
-- protocol/crc16.py: the reflected CRC-16 of the Autoterm protocol. Bytes are native numbers, so
-- `not isinstance(value, int)` and `value < 0` cannot happen; a value above 255 is rejected.
pub mod Laws
use landy_heater.Prelude.{
  ℕ, zero, suc, ◌+◌, ◌/◌, ◌%◌, bit_xor, List, [], ◌∷◌, ◌++◌, ltb, ◌==◌, if◌then◌else◌, Result, ok,
  err, Error, value_error, ◌>>=◌,
}

abbrev pub crc_initial : ℕ
crc_initial = 0xFFFF

abbrev pub crc_polynomial : ℕ
crc_polynomial = 0xA001

-- One round of the inner loop: `crc & 0x0001` is the remainder by 2.
unfoldable pub shift_bit : ℕ → ℕ
shift_bit crc = if crc % 2 == 1 then bit_xor (crc / 2) crc_polynomial else crc / 2

-- `for _ in range(n)`
unfoldable pub shift_bits : ℕ → ℕ → ℕ
unfolding shift_bit
shift_bits zero crc = crc
shift_bits (suc n) crc = shift_bits n (shift_bit crc)

-- One value of the data: `crc ^= value`, then eight rounds.
unfoldable pub update_crc : ℕ → ℕ → ℕ
unfolding shift_bits
update_crc crc value = shift_bits 8 (bit_xor crc value)

-- `for value in data`
unfoldable pub crc_loop : ℕ → List ℕ → Result ℕ
unfolding update_crc
crc_loop crc [] = ok crc
crc_loop crc (value ∷ rest) =
    if ltb 0xFF value
    then err (value_error "CRC input values must be bytes (0..255)")
    else crc_loop (update_crc crc value) rest

-- `crc & 0xFFFF` is the remainder by 2 ^ 16.
unfoldable pub crc16 : List ℕ → Result ℕ
unfolding crc_loop
crc16 values = do crc ← crc_loop crc_initial values; ok (crc % 0x10000)

-- High byte, then low byte.
unfoldable pub crc_bytes : List ℕ → Result (List ℕ)
unfolding crc16
crc_bytes values = do value ← crc16 values; ok (value / 0x100 % 0x100 ∷ value % 0x100 ∷ [])

unfoldable pub append_crc : List ℕ → Result (List ℕ)
unfolding crc_bytes
append_crc values = do tail ← crc_bytes values; ok (values ++ tail)
