-- ===== src/Crc16/Laws.antt =====
-- What the checksum of protocol/crc16.py detects, and when it is defined.
use landy_heater.Prelude.{
  ℕ, zero, suc, ◌/◌, ◌%◌, ◌≤◌, ◌<◌, bit_xor, ◌≡◌, refl, ap, List, [], ◌∷◌, ◌++◌, arith, All,
  All-append, ok,
}
use landy_heater.Prelude.Bits.{bit_xor_cancel, bit_xor_cancel_left, bit_xor-lt, le-bit_xor}
use landy_heater.Crc16.{
  crc_initial, crc_polynomial, shift_bit, shift_bits, update_crc, crc_loop, crc16, crc_bytes,
  append_crc,
}

abbrev pub IsByte : ℕ → Type 0
IsByte x = x ≤ 255

shift_bit-lt : (c : ℕ) → c < 65536 → shift_bit c < 65536
unfolding shift_bit
shift_bit-lt c h = ground (arith, bit_xor-lt 16 (c / 2) crc_polynomial (omega arith) (omega arith))

-- The polynomial's top bit records the bit that is shifted out.
shift_bit_cancel : (c d : ℕ) → c < 65536 → d < 65536 → shift_bit c ≡ shift_bit d → c ≡ d
unfolding shift_bit
shift_bit_cancel c d p q = ground (
  arith,
  le-bit_xor 15 (c / 2) crc_polynomial (omega arith) (omega arith),
  le-bit_xor 15 (d / 2) crc_polynomial (omega arith) (omega arith),
  bit_xor_cancel (c / 2) (d / 2) crc_polynomial,
)

shift_bits-lt : (n c : ℕ) → c < 65536 → shift_bits n c < 65536
unfolding shift_bits
shift_bits-lt zero c h = h
shift_bits-lt (suc n) c h = shift_bits-lt n (shift_bit c) (shift_bit-lt c h)

shift_bits_cancel : (n c d : ℕ) → c < 65536 → d < 65536 → shift_bits n c ≡ shift_bits n d → c ≡ d
unfolding shift_bits
shift_bits_cancel zero c d p q e = e
shift_bits_cancel (suc n) c d p q e =
    shift_bit_cancel c d p q
      (shift_bits_cancel n (shift_bit c) (shift_bit d) (shift_bit-lt c p) (shift_bit-lt d q) e)

xor_byte-lt : (c x : ℕ) → c < 65536 → IsByte x → bit_xor c x < 65536
xor_byte-lt c x h b = bit_xor-lt 16 c x h (omega arith)

pub update_crc-lt : (c x : ℕ) → c < 65536 → IsByte x → update_crc c x < 65536
unfolding update_crc
update_crc-lt c x h b = shift_bits-lt 8 (bit_xor c x) (xor_byte-lt c x h b)

update_crc_cancel :
    (c d x : ℕ) → c < 65536 → d < 65536 → IsByte x → update_crc c x ≡ update_crc d x → c ≡ d
unfolding update_crc
update_crc_cancel c d x p q b e =
    bit_xor_cancel c d x (
      shift_bits_cancel 8 (bit_xor c x) (bit_xor d x) (xor_byte-lt c x p b) (xor_byte-lt d x q b) e)

update_crc_cancel_byte :
    (c x y : ℕ) → c < 65536 → IsByte x → IsByte y → update_crc c x ≡ update_crc c y → x ≡ y
unfolding update_crc
update_crc_cancel_byte c x y p bx by e = bit_xor_cancel_left x y c (
    shift_bits_cancel 8 (bit_xor c x) (bit_xor c y) (xor_byte-lt c x p bx) (xor_byte-lt c y p by) e)

-- The loop without its range test.
fold_crc : ℕ → List ℕ → ℕ
fold_crc c [] = c
fold_crc c (x ∷ xs) = fold_crc (update_crc c x) xs

fold_crc-lt : (c : ℕ) (xs : List ℕ) → c < 65536 → All IsByte xs → fold_crc c xs < 65536
unfolding fold_crc
fold_crc-lt c [] h bs = h
fold_crc-lt c (x ∷ xs) h bs = fold_crc-lt (update_crc c x) xs (update_crc-lt c x h bs.0) bs.1

fold_crc_cancel :
    (c d : ℕ) (xs : List ℕ)
    → c < 65536
    → d < 65536
    → All IsByte xs
    → fold_crc c xs ≡ fold_crc d xs
    → c ≡ d
unfolding fold_crc
fold_crc_cancel c d [] p q bs e = e
fold_crc_cancel c d (x ∷ xs) p q bs e = update_crc_cancel c d x p q bs.0 (
    fold_crc_cancel (update_crc c x) (update_crc d x) xs (update_crc-lt c x p bs.0)
      (update_crc-lt d x q bs.0) bs.1 e)

fold_crc-append : (c : ℕ) (xs ys : List ℕ) → fold_crc c (xs ++ ys) ≡ fold_crc (fold_crc c xs) ys
unfolding fold_crc
fold_crc-append c [] ys = refl
fold_crc-append c (x ∷ xs) ys = fold_crc-append (update_crc c x) xs ys

crc_loop-eq-fold_crc : (c : ℕ) (xs : List ℕ) → All IsByte xs → crc_loop c xs ≡ ok (fold_crc c xs)
unfolding crc_loop fold_crc
crc_loop-eq-fold_crc c [] bs = refl
crc_loop-eq-fold_crc c (x ∷ xs) bs = ground (arith, crc_loop-eq-fold_crc (update_crc c x) xs bs.1)

-- The checksum of a byte string, as a number.
pub checksum : List ℕ → ℕ
checksum xs = fold_crc crc_initial xs

pub checksum-lt : (xs : List ℕ) → All IsByte xs → checksum xs < 65536
unfolding checksum
checksum-lt xs bs = fold_crc-lt crc_initial xs (omega arith) bs

-- On bytes the checksum is defined and fits sixteen bits.
pub crc16-eq-checksum : (xs : List ℕ) → All IsByte xs → crc16 xs ≡ ok (checksum xs)
unfolding crc16
crc16-eq-checksum xs bs =
    rw (crc_loop-eq-fold_crc crc_initial xs bs)
      (ap ok (unfold checksum in omega (arith, checksum-lt xs bs)))

pub append_crc-eq :
    (xs : List ℕ)
    → All IsByte xs
    → append_crc xs ≡ ok (xs ++ checksum xs / 256 ∷ checksum xs % 256 ∷ [])
append_crc-eq xs bs =
    unfold append_crc crc_bytes in
    rw (crc16-eq-checksum xs bs)
      (ap (λ (h : ℕ). ok (xs ++ h ∷ checksum xs % 256 ∷ [])) (omega (arith, checksum-lt xs bs)))

-- Two byte strings of one checksum that agree everywhere but in one byte agree in that byte too.
pub crc16_detects_byte :
    (xs ys : List ℕ) (a b : ℕ)
    → All IsByte xs
    → All IsByte ys
    → IsByte a
    → IsByte b
    → crc16 (xs ++ a ∷ ys) ≡ crc16 (xs ++ b ∷ ys)
    → a ≡ b
crc16_detects_byte xs ys a b bxs bys ba bb e =
    let c = fold_crc crc_initial xs in
    let lt = fold_crc-lt crc_initial xs (omega arith) bxs in
    update_crc_cancel_byte c a b lt ba bb (
      fold_crc_cancel (update_crc c a) (update_crc c b) ys (update_crc-lt c a lt ba)
        (update_crc-lt c b lt bb) bys
        (unfold checksum fold_crc in
          cc (
            e,
            crc16-eq-checksum (xs ++ a ∷ ys) (All-append IsByte xs (a ∷ ys) bxs (ba, bys)),
            crc16-eq-checksum (xs ++ b ∷ ys) (All-append IsByte xs (b ∷ ys) bxs (bb, bys)),
            fold_crc-append crc_initial xs (a ∷ ys),
            fold_crc-append crc_initial xs (b ∷ ys),
          )))
