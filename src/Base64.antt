-- ===== src/Base64.antt =====
-- tflib/expert/base64.c: the encoder and the decoder.
pub mod Table
pub mod Encode
pub mod RoundTrip
use Prim.Native.Char.{code}
use Prim.Native.String
use Prim.Native.String.{String}
use tflib.Vnum.{to_int}
use tflib.Common.{
  ℕ, zero, suc, ◌+◌, ◌*◌, ◌/◌, ◌%◌, bit_and, bit_or, ltb, leb, ◌==◌, if◌then◌else◌, ◌>>=◌,
}
use tflib.Common.{
  Bool, true, false, ◌&&◌, ◌||◌, Option, none, some, List, [], ◌∷◌, ◌++◌, length, get_elem?,
}

abbrev pub codes : String → List ℕ
codes String.[] = []
codes (String.◌∷◌ c s) = code c ∷ codes s

-- `BIN2BASE64`.
abbrev pub bin_to_base64 : List ℕ
bin_to_base64 = codes "ABCDEFGHIJKLMNOPQRSTUVWXYZabcdefghijklmnopqrstuvwxyz0123456789+/"

-- `BASE642BIN`: 96 for the end of the string, 97 for `=`, 98 for line ends, 99 for what is illegal.
abbrev pub base64_to_bin : List ℕ
base64_to_bin =
    96 ∷ 99 ∷ 99 ∷ 99 ∷ 99 ∷ 99 ∷ 99 ∷ 99 ∷ 99 ∷ 99 ∷ 98 ∷ 99 ∷ 99 ∷ 98 ∷ 99 ∷ 99 ∷ 99 ∷ 99 ∷ 99
    ∷ 99 ∷ 99 ∷ 99 ∷ 99 ∷ 99 ∷ 99 ∷ 99 ∷ 99 ∷ 99 ∷ 99 ∷ 99 ∷ 99 ∷ 99 ∷ 99 ∷ 99 ∷ 99 ∷ 99 ∷ 99 ∷ 99
    ∷ 99 ∷ 99 ∷ 99 ∷ 99 ∷ 99 ∷ 62 ∷ 99 ∷ 99 ∷ 99 ∷ 63 ∷ 52 ∷ 53 ∷ 54 ∷ 55 ∷ 56 ∷ 57 ∷ 58 ∷ 59 ∷ 60
    ∷ 61 ∷ 99 ∷ 99 ∷ 99 ∷ 97 ∷ 99 ∷ 99 ∷ 99 ∷ 0 ∷ 1 ∷ 2 ∷ 3 ∷ 4 ∷ 5 ∷ 6 ∷ 7 ∷ 8 ∷ 9 ∷ 10 ∷ 11 ∷ 12
    ∷ 13 ∷ 14 ∷ 15 ∷ 16 ∷ 17 ∷ 18 ∷ 19 ∷ 20 ∷ 21 ∷ 22 ∷ 23 ∷ 24 ∷ 25 ∷ 99 ∷ 99 ∷ 99 ∷ 99 ∷ 99 ∷ 99
    ∷ 26 ∷ 27 ∷ 28 ∷ 29 ∷ 30 ∷ 31 ∷ 32 ∷ 33 ∷ 34 ∷ 35 ∷ 36 ∷ 37 ∷ 38 ∷ 39 ∷ 40 ∷ 41 ∷ 42 ∷ 43 ∷ 44
    ∷ 45 ∷ 46 ∷ 47 ∷ 48 ∷ 49 ∷ 50 ∷ 51 ∷ 99 ∷ 99 ∷ 99 ∷ 99 ∷ 99 ∷ 99 ∷ 99 ∷ 99 ∷ 99 ∷ 99 ∷ 99 ∷ 99
    ∷ 99 ∷ 99 ∷ 99 ∷ 99 ∷ 99 ∷ 99 ∷ 99 ∷ 99 ∷ 99 ∷ 99 ∷ 99 ∷ 99 ∷ 99 ∷ 99 ∷ 99 ∷ 99 ∷ 99 ∷ 99 ∷ 99
    ∷ 99 ∷ 99 ∷ 99 ∷ 99 ∷ 99 ∷ 99 ∷ 99 ∷ 99 ∷ 99 ∷ 99 ∷ 99 ∷ 99 ∷ 99 ∷ 99 ∷ 99 ∷ 99 ∷ 99 ∷ 99 ∷ 99
    ∷ 99 ∷ 99 ∷ 99 ∷ 99 ∷ 99 ∷ 99 ∷ 99 ∷ 99 ∷ 99 ∷ 99 ∷ 99 ∷ 99 ∷ 99 ∷ 99 ∷ 99 ∷ 99 ∷ 99 ∷ 99 ∷ 99
    ∷ 99 ∷ 99 ∷ 99 ∷ 99 ∷ 99 ∷ 99 ∷ 99 ∷ 99 ∷ 99 ∷ 99 ∷ 99 ∷ 99 ∷ 99 ∷ 99 ∷ 99 ∷ 99 ∷ 99 ∷ 99 ∷ 99
    ∷ 99 ∷ 99 ∷ 99 ∷ 99 ∷ 99 ∷ 99 ∷ 99 ∷ 99 ∷ 99 ∷ 99 ∷ 99 ∷ 99 ∷ 99 ∷ 99 ∷ 99 ∷ 99 ∷ 99 ∷ 99 ∷ 99
    ∷ 99 ∷ 99 ∷ 99 ∷ 99 ∷ 99 ∷ 99 ∷ 99 ∷ 99 ∷ 99 ∷ 99 ∷ 99 ∷ 99 ∷ 99 ∷ 99 ∷ 99 ∷ 99 ∷ 99 ∷ 99 ∷ 99
    ∷ 99 ∷ 99 ∷ 99 ∷ 99 ∷ 99 ∷ 99 ∷ 99 ∷ []

unfoldable pub char_of : ℕ → Option ℕ
char_of i = get_elem? bin_to_base64 i

unfoldable pub value_of : ℕ → Option ℕ
value_of c = get_elem? base64_to_bin c

-- The four characters of a triple, and the counter of columns, which wraps and is not used.
unfoldable pub output_base64 : ℕ → ℕ → ℕ → ℕ → Option (List ℕ × ℕ)
output_base64 a b c next_line = do
  w ← char_of (a / 4)
  x ← char_of (bit_or (bit_and a 3 * 16) (b / 16))
  y ← char_of (bit_or (bit_and b 15 * 4) (c / 64))
  z ← char_of (bit_and c 0x3f)
  let column = next_line + 1
  some (w ∷ x ∷ y ∷ z ∷ [], if ltb 18 column then 0 else column)

-- What was written at `dst`, and the length returned.
abbrev pub Encoded : Type 0
Encoded = List ℕ × ℕ

-- The loop over what follows the first triple, and the remainder behind it: `=` is 61.
unfoldable pub encode_loop : List ℕ → ℕ → List ℕ → Option Encoded
encode_loop (a ∷ b ∷ c ∷ rest) next_line out = do
  (quad, next_line') ← output_base64 a b c next_line
  encode_loop rest next_line' (out ++ quad)
encode_loop (a ∷ b ∷ []) next_line out = do
  w ← char_of (a / 4)
  x ← char_of (bit_or (bit_and a 3 * 16) (b / 16))
  y ← char_of (bit_and b 15 * 4)
  some (out ++ w ∷ x ∷ y ∷ 61 ∷ [], length out + 4)
encode_loop (a ∷ []) next_line out = do
  w ← char_of (a / 4)
  x ← char_of (bit_and a 3 * 16)
  some (out ++ w ∷ x ∷ 61 ∷ 61 ∷ [], length out + 4)
encode_loop [] next_line out = some (out, length out + 4)

-- `src` is the `length` bytes that are encoded. The length is counted down before the first triple
-- is written, and 0 is returned where it runs out. `encode_len` is of type `int`; it only grows, so it
-- overflows where its last value does.
unfoldable pub encode_base64 : List ℕ → Option Encoded
encode_base64 (a ∷ b ∷ c ∷ d ∷ rest) = do
  (quad, next_line) ← output_base64 a b c 0
  (text, len) ← encode_loop (d ∷ rest) next_line quad
  encode_len ← to_int len
  some (text, encode_len)
encode_base64 _ = some ([], 0)

-- `pending` is `out[decode_size]`, which is begun and not finished where `quad` is not 0.
unfoldable pub decode_value : ℕ → ℕ → ℕ → List ℕ → List ℕ × ℕ × ℕ
decode_value zero value pending out = (out, value * 4 % 256, 1)
decode_value (suc zero) value pending out =
    (out ++ (bit_or pending (value / 16) ∷ []), bit_and value 15 * 16, 2)
decode_value (suc (suc zero)) value pending out =
    (out ++ (bit_or pending (value / 4) ∷ []), bit_and value 3 * 64, 3)
decode_value _ value pending out = (out ++ (bit_or pending value ∷ []), 0, 0)

-- Whether `=` ends the data; the byte behind it is read where the quad is half full.
unfoldable pub ends_data : ℕ → List ℕ → Option Bool
ends_data quad rest =
    if quad == 3
    then some true
    else if quad == 2
    then (do c ← get_elem? rest 0; some (c == 61))
    else some false

unfoldable pub decode_loop : List ℕ → ℕ → ℕ → List ℕ → Option (List ℕ)
decode_loop [] quad pending out = none
decode_loop (c ∷ rest) quad pending out = do
  value ← value_of c
  let skip = decode_loop rest quad pending out
  let (out', pending', quad') = decode_value quad value pending out
  let next = decode_loop rest quad' pending' out'
  if value == 96
      then some out
      else if value == 97
      then (do stop ← ends_data quad rest; if stop then some out else skip)
      else if leb 98 value
      then skip
      else next

-- `src` is the memory from `src` on; the length argument is not read.
unfoldable pub decode_base64 : List ℕ → Option (List ℕ)
decode_base64 src = decode_loop src 0 0 []
