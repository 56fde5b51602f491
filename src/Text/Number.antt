-- ===== src/Text/Number.antt =====
-- The integers of tflib/tf_util.c: `tf_atoi` and `tf_atoih`. A sum above an `int64_t` is an overflow.
pub mod Digits
use tflib.Common.{ℕ, zero, suc, ◌+◌, ◌-◌, ◌*◌, ◌^◌, ltb, leb, ◌==◌, if◌then◌else◌, ◌>>=◌}
use tflib.Common.{Bool, true, false, ◌&&◌, ◌||◌, Option, none, some, List, [], ◌∷◌}
use tflib.Common.Int.{ℤ, pos, negsuc}
use tflib.Text.{is_digit, skip_spaces}

unfoldable pub to_int64 : ℕ → Option ℕ
to_int64 n = if ltb n (2 ^ 63) then some n else none

-- `num * sign`.
unfoldable pub signed : Bool → ℕ → ℤ
signed false n = pos n
signed true zero = pos 0
signed true (suc n) = negsuc n

unfoldable pub read_sign : List ℕ → Bool × List ℕ
read_sign [] = (false, [])
read_sign (c ∷ str) =
    if c == b'-' then (true, str) else if c == b'+' then (false, str) else (false, c ∷ str)

unfoldable pub atoi_loop : List ℕ → ℕ → Option ℕ
atoi_loop [] num = some num
atoi_loop (c ∷ str) num =
    if is_digit c then (do n ← to_int64 (num * 10 + c); atoi_loop str (n - b'0')) else some num

unfoldable pub atoi : List ℕ → Option ℤ
atoi str = do
  let (negative, digits) = read_sign (skip_spaces str)
  num ← atoi_loop digits 0
  some (signed negative num)

unfoldable pub skip_prefix : List ℕ → List ℕ
skip_prefix (c ∷ d ∷ str) = if c == b'0' && (d == b'x' || d == b'X') then str else c ∷ d ∷ str
skip_prefix str = str

unfoldable pub atoih_loop : List ℕ → ℕ → Option ℕ
atoih_loop [] num = some num
atoih_loop (c ∷ str) num =
    if is_digit c
    then (do n ← to_int64 (num * 0x10 + c); atoih_loop str (n - b'0'))
    else if leb b'a' c && leb c b'f'
    then (do n ← to_int64 (num * 0x10 + c); atoih_loop str (n - b'a' + 10))
    else if leb b'A' c && leb c b'F'
    then (do n ← to_int64 (num * 0x10 + c); atoih_loop str (n - b'A' + 10))
    else some num

unfoldable pub atoih : List ℕ → Option ℕ
atoih str = atoih_loop (skip_prefix (skip_spaces str)) 0
