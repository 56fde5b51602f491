-- ===== src/Text/Number/Digits.antt =====
-- What `tf_atoi` of tflib/tf_util.c reads: the decimal value of the digits.
use tflib.Common.{ℕ, ◌+◌, ◌-◌, ◌*◌, ◌^◌, ◌≡◌}
use tflib.Common.{true, false, List, [], ◌∷◌, All, length}
use tflib.Text.{is_digit}

-- The value of decimal digits: each by the power of 10 of its place.
abbrev pub decimal : List ℕ → ℕ
decimal [] = 0
decimal (c ∷ cs) = (c - 0x30) * 10 ^ length cs + decimal cs

abbrev pub Digits : List ℕ → Type 0
Digits cs = All (λ c. is_digit c ≡ true) cs

abbrev pub NoDigitFirst : List ℕ → Type 0
NoDigitFirst [] = Unit {0}
NoDigitFirst (c ∷ cs) = is_digit c ≡ false
