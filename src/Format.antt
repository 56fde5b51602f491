-- ===== src/Format.antt =====
-- The formatted print of tflib/tf_string.c, `tf_vstrprintf`, with the binary digits of
-- `tf_num2strbin` of tflib/tf_util.c. What libc's `sprintf` makes of a conversion is a parameter.
pub mod Binary
pub mod Escapes
pub mod Appends
pub mod Texts
pub mod Conversions
pub mod Print
use tflib.Common.{ℕ, zero, suc, ◌+◌, ◌-◌, ◌*◌, ◌/◌, ◌%◌, ◌^◌, ◌==◌, leb, ltb, if◌then◌else◌, ◌>>=◌}
use tflib.Common.{
  Bool, true, false, not, ◌&&◌, ◌||◌, Option, none, some, List, [], ◌∷◌, ◌++◌, length, take, drop,
  replicate,
}
use tflib.Common.Int.{ℤ, pos, negsuc}
use tflib.Codec.{hex_digit}
use tflib.Str.{Str, strcat, strcat2}
use tflib.Text.Number.{atoi}
use tflib.Text.Split.{contains}

-- The loop of `tf_num2strbin` with `n` rounds left: the digits written, and `zero`.
unfoldable pub bin_loop : ℕ → ℕ → Bool → List ℕ → List ℕ × Bool
bin_loop zero num none_yet out = (out, none_yet)
bin_loop (suc n) num none_yet out =
    let num' = num * 2 % 2 ^ 64 in
    let after_one = bin_loop n num' false (out ++ (b'1' ∷ [])) in
    let after_zero = bin_loop n num' none_yet (if none_yet then out else out ++ (b'0' ∷ [])) in
    if leb (2 ^ 63) num then after_one else after_zero

-- A `col` that is not positive is 0.
unfoldable pub num2strbin : ℕ → ℕ → ℕ → List ℕ
num2strbin num col fc =
    let (out, none_yet) = bin_loop 64 num true [] in
    if ltb 0 col
    then replicate ((if ltb 64 col then 64 else col) - length out) fc ++ out
    else if none_yet
    then b'0' ∷ []
    else out

abbrev pub num_buf_size : ℕ
num_buf_size = 32

-- The arguments behind the format: a string or `NULL`, a number as its bits, or one in floating point,
-- which is known by its bits too, after whether it is a `long double`.
pub data Arg : Type 0 where
  string : Option (List ℕ) → Arg
  number : ℕ → Arg
  real : Bool → ℕ → Arg

-- `(null)`
abbrev pub null_text : List ℕ
null_text = b'(' ∷ b'n' ∷ b'u' ∷ b'l' ∷ b'l' ∷ b')' ∷ []

abbrev pub text_of : Option (List ℕ) → List ℕ
text_of none = null_text
text_of (some text) = text

-- `strchr("0123456789 .+-hlLz", c)`
abbrev pub flag_chars : List ℕ
flag_chars =
    b'0' ∷ b'1' ∷ b'2' ∷ b'3' ∷ b'4' ∷ b'5' ∷ b'6' ∷ b'7' ∷ b'8' ∷ b'9' ∷ b' ' ∷ b'.' ∷ b'+' ∷ b'-'
    ∷ b'h' ∷ b'l' ∷ b'L' ∷ b'z' ∷ []

unfoldable pub append : Str → List ℕ → Option Str
append s text = strcat s text (length text)

-- One character for `%@`. A `char` from 128 on is negative, and kept.
unfoldable pub xml_char : ℕ → List ℕ
xml_char c =
    if c == b'&'
    then b'&' ∷ b'a' ∷ b'm' ∷ b'p' ∷ b';' ∷ []
    else if c == b'<'
    then b'&' ∷ b'l' ∷ b't' ∷ b';' ∷ []
    else if c == b'>'
    then b'&' ∷ b'g' ∷ b't' ∷ b';' ∷ []
    else if c == b'"'
    then b'&' ∷ b'q' ∷ b'u' ∷ b'o' ∷ b't' ∷ b';' ∷ []
    else if leb c 8 || leb 14 c && leb c 31
    then []
    else c ∷ []

unfoldable pub is_unreserved : ℕ → Bool
is_unreserved c =
    leb b'A' c && leb c b'Z'
    || leb b'a' c && leb c b'z'
    || leb b'0' c && leb c b'9'
    || (c == b'_' || c == b'-' || c == b'.')

-- One character for `%?`; the digits are those of `%02X`.
unfoldable pub url_char : ℕ → List ℕ
url_char c = if is_unreserved c then c ∷ [] else b'%' ∷ hex_digit (c / 16) ∷ hex_digit (c % 16) ∷ []

-- The loop of `%@` and of `%?` over the argument.
unfoldable pub each_char : (ℕ → List ℕ) → List ℕ → Str → Option Str
each_char f [] s = some s
each_char f (c ∷ tmp) s = append s (f c) >>= each_char f tmp

-- The column that a 32-bit word is as an `int`; one that is not positive counts as 0.
unfoldable pub int_col : ℕ → ℕ
int_col w = if ltb w (2 ^ 31) then w else 0

-- `tf_atoi(cbuf + 1)`, cut down to an `int`.
unfoldable pub width_of : List ℕ → Option ℕ
width_of flags = do
  n ← atoi flags
  some (int_col (elim n [ pos k ↦ k % 2 ^ 32 | negsuc k ↦ 2 ^ 32 - 1 - k % 2 ^ 32 ]))

-- Whether the width begins with a `0`.
unfoldable pub fill_of : List ℕ → ℕ
fill_of [] = b' '
fill_of (c ∷ flags) = if c == b'0' then b'0' else b' '

-- The bits that the argument of an integer conversion has: 64 with an `l`, else 32.
unfoldable pub narrow : ℕ → ℕ → ℕ
narrow lnum n = if leb 1 lnum then n % 2 ^ 64 else n % 2 ^ 32

-- The conversions that take an argument.
abbrev pub takes_arg : ℕ → Bool
takes_arg c =
    contains
      (b's' ∷ b'@' ∷ b'?' ∷ b'd' ∷ b'o' ∷ b'u' ∷ b'x' ∷ b'X' ∷ b'c' ∷ b'b' ∷ b'e' ∷ b'E' ∷ b'f'
        ∷ b'g' ∷ b'G' ∷ [])
      c

-- libc: what `sprintf` writes for the conversion with these flags and this character, for a number with
-- its bits or one in floating point. `none` is an error.
module _ (sprintf : List ℕ → ℕ → Arg → Option (List ℕ)) where
  -- `tbuf` has room for the text and its NUL.
  unfoldable pub print_number : List ℕ → ℕ → ℕ → ℕ → Str → Option Str
  print_number flags lnum c n s = do
    text ← sprintf flags c (number (narrow lnum n))
    if leb (num_buf_size * 4) (length text) then none else append s text

  -- Where `snprintf` fails, what the buffer holds is not known: `none`. It cuts the text off at the end of `tbuf`, and the last byte is then a `*`, where more were
  -- wanted.
  unfoldable pub print_real : List ℕ → ℕ → Bool → ℕ → Str → Option Str
  print_real flags c wide n s = do
    text ← sprintf flags c (real wide n)
    let size = num_buf_size * 4
    if ltb size (length text)
        then append s (take (size - 1) text ++ (b'*' ∷ []))
        else if length text == size
        then append s (take (size - 1) text ++ (0 ∷ []))
        else append s text

  unfoldable pub print_binary : List ℕ → ℕ → ℕ → Str → Option Str
  print_binary flags lnum n s = do
    col ← width_of flags
    append s (num2strbin (narrow lnum n) col (fill_of flags))

  -- An argument of another type than the conversion's is a fault.
  unfoldable pub convert_arg : List ℕ → ℕ → ℕ → Arg → Str → Option Str
  convert_arg flags lnum c (string tmp) s =
      if c == b's'
      then strcat2 s (text_of tmp)
      else if c == b'@'
      then each_char xml_char (text_of tmp) s
      else if c == b'?'
      then each_char url_char (text_of tmp) s
      else none
  convert_arg flags lnum c (number n) s =
      if contains (b'd' ∷ b'o' ∷ b'u' ∷ b'x' ∷ b'X' ∷ b'c' ∷ []) c
      then print_number flags lnum c n s
      else if c == b'b'
      then print_binary flags lnum n s
      else none
  convert_arg flags lnum c (real wide n) s =
      if contains (b'e' ∷ b'E' ∷ b'f' ∷ b'g' ∷ b'G' ∷ []) c
        && (if leb 1 lnum then wide else not wide)
      then print_real flags c wide n s
      else none

  -- The string and the arguments that are left; a character that is no conversion prints nothing.
  unfoldable pub convert : List ℕ → ℕ → ℕ → List Arg → Str → Option (Str × List Arg)
  convert flags lnum c [] s =
      if takes_arg c
      then none
      else if c == b'%'
      then (do s' ← append s (b'%' ∷ []); some (s', []))
      else some (s, [])
  convert flags lnum c (arg ∷ args) s =
      if takes_arg c
      then (do s' ← convert_arg flags lnum c arg s; some (s', args))
      else if c == b'%'
      then (do s' ← append s (b'%' ∷ []); some (s', arg ∷ args))
      else some (s, arg ∷ args)

-- Where the loop is: at a character of its own, or behind a `%`, with the flags that were read and how
-- many of them are `l` or `L`.
pub data Mode : Type 0 where
  plain : Mode
  behind : List ℕ → ℕ → Mode

unfoldable pub is_flag : List ℕ → ℕ → Bool
is_flag flags c = contains flag_chars c && ltb (length flags + 1) (num_buf_size - 1)

module _ (sprintf : List ℕ → ℕ → Arg → Option (List ℕ)) where
  -- With 30 flags the NUL behind the conversion goes to `cbuf[32]`, past the array: a fault. Where the
  -- format ends behind a `%`, the loop goes on behind its NUL.
  unfoldable pub print_loop : List ℕ → Mode → List Arg → Str → Option Str
  print_loop [] plain args s = some s
  print_loop [] (behind flags lnum) args s = none
  print_loop (c ∷ format) plain args s =
      let conversion = print_loop format (behind [] 0) args s in
      let literal = append s (c ∷ []) >>= print_loop format plain args in
      if c == b'%' then conversion else literal
  print_loop (c ∷ format) (behind flags lnum) args s =
      let longer = if c == b'l' || c == b'L' then lnum + 1 else lnum in
      let more = print_loop format (behind (flags ++ (c ∷ [])) longer) args s in
      let converted =
        convert sprintf flags lnum c args s >>= (λ r. print_loop format plain r.1 r.0) in
      if is_flag flags c then more else if leb 30 (length flags) then none else converted

  unfoldable pub vstrprintf : Str → List ℕ → List Arg → Option Str
  vstrprintf s format args = print_loop format plain args s
