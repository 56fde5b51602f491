-- ===== src/Text.antt =====
-- The string functions of tflib/tf_util.c. A `const char *` is the list of its bytes before the NUL,
-- so `*str` is NUL where the list ends.
pub mod Compare
pub mod Match
pub mod Trim
pub mod Split
pub mod Number
use tflib.Common.{ℕ, zero, suc, ◌+◌, ◌-◌, ◌*◌, ltb, leb, ◌==◌, if◌then◌else◌, ◌>>=◌}
use tflib.Common.{Bool, true, false, not, ◌&&◌, ◌||◌, Option, none, some, List, [], ◌∷◌, ◌++◌, map}
use tflib.Common.{length, get_elem?, reverse}
use tflib.Common.Int.{ℤ, pos, negsuc, sub_ℕ}

-- `*str > '\0' && *str <= ' '`, of a byte that is read as a `signed char`.
unfoldable pub is_space : ℕ → Bool
is_space c = ltb 0 c && leb c 32

unfoldable pub is_digit : ℕ → Bool
is_digit c = leb b'0' c && leb c b'9'

-- `'A' <= c && c <= 'Z'` is lowered by `'a' - 'A'`.
unfoldable pub fold_case : ℕ → ℕ
fold_case c = if leb b'A' c && leb c b'Z' then c + 32 else c

unfoldable pub skip_spaces : List ℕ → List ℕ
skip_spaces [] = []
skip_spaces (c ∷ str) = let rest = skip_spaces str in if is_space c then rest else c ∷ str

-- `if(*str == c) str++`.
unfoldable pub skip_char : ℕ → List ℕ → List ℕ
skip_char c [] = []
skip_char c (a ∷ str) = if a == c then str else a ∷ str

-- The digits are passed over; whether there was one, and what follows.
unfoldable pub skip_digits : List ℕ → Bool → Bool × List ℕ
skip_digits [] isnum = (isnum, [])
skip_digits (c ∷ str) isnum =
    let rest = skip_digits str true in if is_digit c then rest else (isnum, c ∷ str)

abbrev pub is_empty : List ℕ → Bool
is_empty [] = true
is_empty (c ∷ str) = false

unfoldable pub strisnum : List ℕ → Bool
strisnum str =
    let (isnum, str₁) = skip_digits (skip_char b'-' (skip_spaces str)) false in
    let (isnum', str₂) = skip_digits (skip_char b'.' str₁) isnum in
    isnum' && is_empty (skip_spaces str₂)

unfoldable pub stricmp : List ℕ → List ℕ → ℤ
stricmp [] [] = pos 0
stricmp [] (b ∷ bstr) = negsuc 0
stricmp (a ∷ astr) [] = pos 1
stricmp (a ∷ astr) (b ∷ bstr) =
    let rest = stricmp astr bstr in
    if fold_case a == fold_case b then rest else sub_ℕ (fold_case a) (fold_case b)

unfoldable pub strfwm : List ℕ → List ℕ → Bool
strfwm str [] = true
strfwm [] (k ∷ key) = false
strfwm (c ∷ str) (k ∷ key) = if not (c == k) then false else strfwm str key

unfoldable pub strifwm : List ℕ → List ℕ → Bool
strifwm str [] = true
strifwm [] (k ∷ key) = false
strifwm (c ∷ str) (k ∷ key) = if not (fold_case c == fold_case k) then false else strifwm str key

-- `str[slen - i]`; the index is checked before.
abbrev pub from_end : List ℕ → ℕ → Option ℕ
from_end str i = get_elem? str (length str - i)

-- The loop from `i` with `n` rounds left.
unfoldable pub bwm_loop : (ℕ → ℕ) → List ℕ → List ℕ → ℕ → ℕ → Option Bool
bwm_loop fold str key i zero = some true
bwm_loop fold str key i (suc n) = if ltb (length str) i then some false else (do
  c ← from_end str i
  k ← from_end key i
  let rest = bwm_loop fold str key (i + 1) n
  if not (fold c == fold k) then some false else rest)

unfoldable pub strbwm : List ℕ → List ℕ → Option Bool
strbwm str key = bwm_loop (λ c. c) str key 1 (length key)

unfoldable pub stribwm : List ℕ → List ℕ → Option Bool
stribwm str key = bwm_loop fold_case str key 1 (length key)

-- The first loop of `tf_strtrim`: spaces are copied once something else was.
unfoldable pub trim_head : List ℕ → Bool → List ℕ
trim_head [] head = []
trim_head (c ∷ str) head =
    let rest = trim_head str (head && is_space c) in if is_space c && head then rest else c ∷ rest

-- The second loop, on what was written, last byte first.
unfoldable pub trim_tail : List ℕ → List ℕ
trim_tail [] = []
trim_tail (c ∷ written) = let rest = trim_tail written in if is_space c then rest else c ∷ written

unfoldable pub strtrim : List ℕ → List ℕ
strtrim str = reverse (trim_tail (reverse (trim_head str true)))
