-- ===== src/Checks/Formats.antt =====
-- Inputs of the theorems on the formatted print of tflib/tf_string.c.
use tflib.Common.{
  ℕ, ◌≤◌, ◌<◌, ◌≡◌, refl, arith, Option, some, none, List, [], ◌∷◌, ◌++◌, length, All, Returns,
}
use tflib.Str.{Str}
use tflib.Str.Holds.{Holds}
use tflib.Format.{Arg, string, number, plain, num2strbin, bin_loop, vstrprintf, is_flag}
use tflib.Format.Binary.{of_digits, IsBinary, num2strbin_lem}
use tflib.Format.Escapes.{IsKept, read_xml, outside, read_url, IsXmlText, IsUrlText}
use tflib.Format.Texts.{format_text}
use tflib.Format.Print.{vstrprintf-read_xml-read_url}
use tflib.Text.Split.{contains}

num2strbin_example :
    (of_digits 0 (num2strbin 10 0 b' ') ≡ 10)
    × IsBinary (num2strbin 10 0 b' ')
    × (0 < length (num2strbin 10 0 b' '))
    × (of_digits 0 (num2strbin 10 8 b'0') ≡ 10)
    × IsBinary (num2strbin 10 8 b'0')
    × (length (num2strbin 10 8 b' ') ≤ 64)
    × (8 ≤ 64 → 8 ≤ length (num2strbin 10 8 b' '))
num2strbin_example = num2strbin_lem 10 8 b' ' (omega arith)

ten_digits : num2strbin 10 8 b' ' ≡ b' ' ∷ b' ' ∷ b' ' ∷ b' ' ∷ b'1' ∷ b'0' ∷ b'1' ∷ b'0' ∷ []
unfolding num2strbin bin_loop
ten_digits = refl

-- A number prints as one `7`, whatever it is.
abbrev seven : List ℕ → ℕ → Arg → Option (List ℕ)
seven flags c arg = some (b'7' ∷ [])

abbrev empty : Str
empty = record { ptr = 0 ∷ []; room = 16; size = 0; asize = 16 }

empty-Holds : Holds empty []
empty-Holds = record {
  slack = [];
  region = refl;
  sized = refl;
  fits = omega arith;
  asize_fits = omega arith;
  asize_near = omega arith;
}

-- `a%5d%s`, with a number and `bc`.
abbrev format : List ℕ
format = b'a' ∷ b'%' ∷ b'5' ∷ b'd' ∷ b'%' ∷ b's' ∷ []

abbrev args : List Arg
args = number 12 ∷ string (some (b'b' ∷ b'c' ∷ [])) ∷ []

format-text : format_text seven format plain args ≡ some (b'a' ∷ b'7' ∷ b'b' ∷ b'c' ∷ [])
unfolding format_text is_flag contains
format-text = refl

-- `<&`
abbrev text : List ℕ
text = b'<' ∷ b'&' ∷ []

vstrprintf-read_xml-read_url_example :
    (All IsKept text
      → Returns
          (vstrprintf seven empty (b'%' ∷ b'@' ∷ []) (string (some text) ∷ []))
          (λ s. (out : List ℕ) × Holds s ([] ++ out) × (read_xml out none ≡ text) × IsXmlText out))
    × (All (λ c. c < 256) text
        → Returns (vstrprintf seven empty (b'%' ∷ b'?' ∷ []) (string (some text) ∷ [])) (λ s.
          (out : List ℕ) × Holds s ([] ++ out) × (read_url out outside ≡ text) × IsUrlText out))
vstrprintf-read_xml-read_url_example =
    vstrprintf-read_xml-read_url seven empty [] text empty-Holds (omega arith)
