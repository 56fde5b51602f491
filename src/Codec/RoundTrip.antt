-- ===== src/Codec/RoundTrip.antt =====
-- Each codec of tflib/tf_util.c undoes the other of its pair.
use tflib.Common.{ℕ, ◌+◌, ◌-◌, ◌*◌, ◌/◌, ◌%◌, ◌≤◌, ◌<◌, ◌≡◌, refl, ap, arith, bit_and, bit_or}
use mathlib.Core.Path.{ap₂}
use tflib.Common.{List, [], ◌∷◌, All, ==_iff, ◌==◌, true}
use tflib.Common.Bytes.{IsByte}
use tflib.Common.Bits.{bit_and-mask, bit_or-shifted, all_below, all_below-lt}
use tflib.Codec.{is_upper, is_alpha, hex_digit, bin_to_asc, next_offset, nibble, asc_to_bin}
use tflib.Codec.{bcd_to_asc, asc_digit, asc_to_bcd}

high_bits_table : all_below 256 (λ b. bit_and b 0xf0 == b / 16 * 16) ≡ true
unfolding all_below
high_bits_table = refl

high_bits : (b : ℕ) → b < 256 → bit_and b 0xf0 ≡ b / 16 * 16
high_bits b h =
    (==_iff _ _).0 (all_below-lt 256 (λ b. bit_and b 0xf0 == b / 16 * 16) b high_bits_table h)

high : (b : ℕ) → b < 256 → bit_and b 0xf0 / 16 ≡ b / 16
high b h = omega (arith, high_bits b h)

low : (b : ℕ) → bit_and b 0xf ≡ b % 16
low b = bit_and-mask 4 15 b refl

-- A digit is read back whatever letter came before it.
nibble-hex_digit :
    (n offset : ℕ) → n < 16 → nibble (hex_digit n) (next_offset (hex_digit n) offset) ≡ n
unfolding hex_digit nibble next_offset is_alpha is_upper
nibble-hex_digit n offset h = ground arith

-- Bytes that are written as hexadecimal digits are read back, whatever offset is left from before.
pub asc_to_bin-bin_to_asc :
    (bytes : List ℕ) (offset : ℕ) → All IsByte bytes → asc_to_bin (bin_to_asc bytes) offset ≡ bytes
unfolding asc_to_bin bin_to_asc
asc_to_bin-bin_to_asc [] offset h = refl
asc_to_bin-bin_to_asc (b ∷ bytes) offset h =
    rw
      (
        high b h.0,
        low b,
        nibble-hex_digit (b / 16) offset (omega (arith, h.0)),
        nibble-hex_digit (b % 16) (next_offset (hex_digit (b / 16)) offset) (omega arith),
        asc_to_bin-bin_to_asc bytes
            (next_offset (hex_digit (b % 16)) (next_offset (hex_digit (b / 16)) offset)) h.1,
      )
      (ap (λ t. t ∷ bytes) (omega (arith, h.0)))

asc_digit_lem : (n : ℕ) → n < 16 → asc_digit (n + 0x30) ≡ n
unfolding asc_digit
asc_digit_lem n h = omega arith

packed : (d e : ℕ) → d < 16 → e < 16 → bit_or (d * 16) e % 256 ≡ d * 16 + e
packed d e hd he = rw (bit_or-shifted 4 d e he) (omega arith)

-- Packed bytes that are written as two characters each are packed again to the same bytes.
pub asc_to_bcd-bcd_to_asc :
    (bytes : List ℕ) → All IsByte bytes → asc_to_bcd (bcd_to_asc bytes) ≡ bytes
unfolding asc_to_bcd bcd_to_asc
asc_to_bcd-bcd_to_asc [] h = refl
asc_to_bcd-bcd_to_asc (b ∷ bytes) h =
    rw
      (
        high b h.0,
        low b,
        asc_digit_lem (b / 16) (omega (arith, h.0)),
        asc_digit_lem (b % 16) (omega arith),
        packed (b / 16) (b % 16) (omega (arith, h.0)) (omega arith),
        asc_to_bcd-bcd_to_asc bytes h.1,
      )
      (ap (λ t. t ∷ bytes) (omega arith))

abbrev pub IsDigit : ℕ → Type 0
IsDigit c = (0x30 ≤ c) × (c < 0x3a)

module _ (a b : ℕ) (ha : IsDigit a) (hb : IsDigit b) where
  digit_value : (c : ℕ) → IsDigit c → asc_digit c ≡ c - 0x30
  unfolding asc_digit
  digit_value c h = omega arith

  digits_packed : bit_or (asc_digit a * 16) (asc_digit b) % 256 ≡ (a - 0x30) * 16 + (b - 0x30)
  digits_packed =
      rw (digit_value a ha, digit_value b hb)
        (packed (a - 0x30) (b - 0x30) (omega arith) (omega arith))

  unpack_first : bit_and (bit_or (asc_digit a * 16) (asc_digit b) % 256) 0xf0 / 16 + 0x30 ≡ a
  unpack_first = rw (digits_packed, high ((a - 0x30) * 16 + (b - 0x30)) (omega arith)) (omega arith)

  unpack_second : bit_and (bit_or (asc_digit a * 16) (asc_digit b) % 256) 0x0f + 0x30 ≡ b
  unpack_second = rw (digits_packed, low ((a - 0x30) * 16 + (b - 0x30))) (omega arith)

-- The digits, with a `0` behind an odd number of them.
abbrev pub padded : List ℕ → List ℕ
padded [] = []
padded (a ∷ []) = a ∷ 0x30 ∷ []
padded (a ∷ b ∷ rest) = a ∷ b ∷ padded rest

-- Decimal digits that are packed and written out are the same digits, with a `0` behind an odd
-- number of them.
pub bcd_to_asc-asc_to_bcd :
    (digits : List ℕ) → All IsDigit digits → bcd_to_asc (asc_to_bcd digits) ≡ padded digits
unfolding asc_to_bcd bcd_to_asc asc_digit
bcd_to_asc-asc_to_bcd [] h = refl
bcd_to_asc-asc_to_bcd (a ∷ []) h =
    ap₂ (λ x y. x ∷ y ∷ []) (unpack_first a 0x30 h.0 (omega arith))
      (unpack_second a 0x30 h.0 (omega arith))
bcd_to_asc-asc_to_bcd (a ∷ b ∷ rest) h =
    ap₂ (λ x t. x ∷ t) (unpack_first a b h.0 h.1.0)
      (ap₂ (λ y t. y ∷ t) (unpack_second a b h.0 h.1.0) (bcd_to_asc-asc_to_bcd rest h.1.1))
