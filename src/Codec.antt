-- ===== src/Codec.antt =====
-- The codecs at the end of tflib/tf_util.c: bytes as hexadecimal text and as packed decimal digits.
-- The buffers are lists of bytes; the `count` and `len` arguments are their lengths.
pub mod RoundTrip
use tflib.Common.{ℕ, ◌+◌, ◌-◌, ◌*◌, ◌/◌, ◌%◌, bit_and, bit_or, ltb, leb, if◌then◌else◌}
use tflib.Common.{Bool, ◌&&◌, ◌||◌, List, [], ◌∷◌}

-- `isupper` and `isalpha` of the C locale.
unfoldable pub is_upper : ℕ → Bool
is_upper c = leb b'A' c && leb c b'Z'

unfoldable pub is_alpha : ℕ → Bool
unfolding is_upper
is_alpha c = is_upper c || leb b'a' c && leb c b'z'

unfoldable pub hex_digit : ℕ → ℕ
hex_digit ch = if ltb 9 ch then ch + 0x41 - 10 else ch + 0x30

unfoldable pub bin_to_asc : List ℕ → List ℕ
bin_to_asc [] = []
bin_to_asc (b ∷ hex) = hex_digit (bit_and b 0xf0 / 16) ∷ hex_digit (bit_and b 0xf) ∷ bin_to_asc hex

-- The letters' offset, which is kept where the character is no letter.
unfoldable pub next_offset : ℕ → ℕ → ℕ
next_offset c offset = if is_alpha c then (if is_upper c then 0x41 else 0x61) else offset

-- A `char` from 128 on is negative, and so below `0x39`.
unfoldable pub nibble : ℕ → ℕ → ℕ
nibble c offset =
    if leb c 0x39 || leb 128 c then (c + 256 - 0x30) % 256 else (c + 256 + 10 - offset) % 256

-- `offset` goes from one character to the next. An odd character at the end has no pair.
unfoldable pub asc_to_bin : List ℕ → ℕ → List ℕ
asc_to_bin (c ∷ d ∷ dsp) offset =
    let offset₁ = next_offset c offset in
    let offset₂ = next_offset d offset₁ in
    (nibble c offset₁ * 16 % 256 + nibble d offset₂) % 256 ∷ asc_to_bin dsp offset₂
asc_to_bin _ offset = []

unfoldable pub bcd_to_asc : List ℕ → List ℕ
bcd_to_asc [] = []
bcd_to_asc (b ∷ src) = (bit_and b 0xf0 / 16 + 0x30) ∷ (bit_and b 0x0f + 0x30) ∷ bcd_to_asc src

unfoldable pub asc_digit : ℕ → ℕ
asc_digit c = (c + 256 - 0x30) % 256

unfoldable pub asc_to_bcd : List ℕ → List ℕ
asc_to_bcd [] = []
asc_to_bcd (a ∷ []) = bit_or (asc_digit a * 16) 0 % 256 ∷ []
asc_to_bcd (a ∷ b ∷ src) = bit_or (asc_digit a * 16) (asc_digit b) % 256 ∷ asc_to_bcd src
