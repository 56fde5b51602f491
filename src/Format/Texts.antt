-- ===== src/Format/Texts.antt =====
-- The texts that the conversions and formats of `tf_vstrprintf` of tflib/tf_string.c stand for.
use tflib.Common.{Bool, not, ◌&&◌}
use tflib.Common.{ℕ, ◌+◌, ◌==◌, leb, ltb, if◌then◌else◌, ◌>>=◌}
use tflib.Common.{◌||◌, Option, none, some, List, [], ◌∷◌, ◌++◌, length, take}
use tflib.Text.Split.{contains}
use tflib.Format.{
  Arg, string, number, real, text_of, xml_char, url_char, width_of, fill_of, narrow, num2strbin,
}
use tflib.Format.{takes_arg, Mode, plain, behind, is_flag}
use tflib.Format.Escapes.{flat}

-- What a character behind a `%` prints that takes no argument.
abbrev pub percent_text : ℕ → List ℕ
percent_text c = if c == b'%' then b'%' ∷ [] else []

module _ (sprintf : List ℕ → ℕ → Arg → Option (List ℕ)) where
  -- The text of a number, which has to fit the buffer.
  abbrev pub number_text : List ℕ → ℕ → ℕ → ℕ → Option (List ℕ)
  number_text flags lnum c n = do
    text ← sprintf flags c (number (narrow lnum n))
    if leb 128 (length text) then none else some text

  abbrev pub real_text : List ℕ → ℕ → Bool → ℕ → Option (List ℕ)
  real_text flags c wide n = do
    text ← sprintf flags c (real wide n)
    some (
        if ltb 128 (length text)
        then take 127 text ++ (b'*' ∷ [])
        else if length text == 128
        then take 127 text ++ (0 ∷ [])
        else text)

  abbrev pub binary_text : List ℕ → ℕ → ℕ → Option (List ℕ)
  binary_text flags lnum n = do
    col ← width_of flags
    some (num2strbin (narrow lnum n) col (fill_of flags))

  -- The text of an argument.
  abbrev pub arg_text : List ℕ → ℕ → ℕ → Arg → Option (List ℕ)
  arg_text flags lnum c (string tmp) =
      if c == b's'
      then some (text_of tmp)
      else if c == b'@'
      then some (flat xml_char (text_of tmp))
      else if c == b'?'
      then some (flat url_char (text_of tmp))
      else none
  arg_text flags lnum c (number n) =
      if contains (b'd' ∷ b'o' ∷ b'u' ∷ b'x' ∷ b'X' ∷ b'c' ∷ []) c
      then number_text flags lnum c n
      else if c == b'b'
      then binary_text flags lnum n
      else none
  arg_text flags lnum c (real wide n) =
      if contains (b'e' ∷ b'E' ∷ b'f' ∷ b'g' ∷ b'G' ∷ []) c
        && (if leb 1 lnum then wide else not wide)
      then real_text flags c wide n
      else none

  -- The text of a conversion, and the arguments behind it.
  abbrev pub conversion_text : List ℕ → ℕ → ℕ → List Arg → Option (List ℕ × List Arg)
  conversion_text flags lnum c [] = if takes_arg c then none else some (percent_text c, [])
  conversion_text flags lnum c (arg ∷ args) =
      if takes_arg c
      then (do text ← arg_text flags lnum c arg; some (text, args))
      else some (percent_text c, arg ∷ args)

  -- The text of a format with its arguments.
  unfoldable pub format_text : List ℕ → Mode → List Arg → Option (List ℕ)
  format_text [] plain args = some []
  format_text [] (behind flags lnum) args = none
  format_text (c ∷ format) plain args =
      let conversion = format_text format (behind [] 0) args in
      let literal = format_text format plain args >>= (λ text. some (c ∷ text)) in
      if c == b'%' then conversion else literal
  format_text (c ∷ format) (behind flags lnum) args =
      let longer = if c == b'l' || c == b'L' then lnum + 1 else lnum in
      let more = format_text format (behind (flags ++ (c ∷ [])) longer) args in
      let converted =
        conversion_text flags lnum c args
        >>= (λ r. format_text format plain r.1 >>= (λ text. some (r.0 ++ text))) in
      if is_flag flags c then more else if leb 30 (length flags) then none else converted
