-- ===== src/Base64/Table.antt =====
-- The two tables of tflib/expert/base64.c, and the bit fields that pass between them.
use tflib.Common.{ℕ, ◌+◌, ◌*◌, ◌/◌, ◌%◌, ◌<◌, ◌≡◌, refl, arith, ◌==◌, bit_and, bit_or}
use tflib.Common.{Bool, true, false, Option, none, some, Returns}
use tflib.Common.Bits.{all_below, all_below-lt, bit_and-mask, bit_or-shifted}
use tflib.Base64.{char_of, value_of}

agrees : ℕ → Option ℕ → Bool
agrees i none = false
agrees i (some c) = elim (value_of c) [ none ↦ false | some v ↦ v == i ]

tables_agree : all_below 64 (λ i. agrees i (char_of i)) ≡ true
unfolding all_below agrees char_of value_of
tables_agree = refl

value_of-agrees : (i : ℕ) (o : Option ℕ) → agrees i o ≡ true → Returns o (λ c. value_of c ≡ some i)
unfolding agrees
value_of-agrees i none h = cc
value_of-agrees i (some c) h = ground arith

-- The character of a value below 64 stands for that value.
pub value_of-char_of : (i : ℕ) → i < 64 → Returns (char_of i) (λ c. value_of c ≡ some i)
value_of-char_of i h =
    value_of-agrees i (char_of i) (all_below-lt 64 (λ i. agrees i (char_of i)) i tables_agree h)

module _ (a b : ℕ) where
  pub second_value : b < 256 → bit_or (bit_and a 3 * 16) (b / 16) ≡ a % 4 * 16 + b / 16
  second_value h = rw (bit_and-mask 2 3 a refl) (bit_or-shifted 4 (a % 4) (b / 16) (omega arith))

  pub third_value : b < 256 → bit_or (bit_and a 15 * 4) (b / 64) ≡ a % 16 * 4 + b / 64
  third_value h = rw (bit_and-mask 4 15 a refl) (bit_or-shifted 2 (a % 16) (b / 64) (omega arith))

pub fourth_value : (c : ℕ) → bit_and c 63 ≡ c % 64
fourth_value c = bit_and-mask 6 63 c refl
