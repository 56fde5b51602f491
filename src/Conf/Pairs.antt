-- ===== src/Conf/Pairs.antt =====
-- The lines with a key and a value, and those with a group's name, of tflib/tf_conf_file.c.
use tflib.Common.{
  ℕ, suc, ◌+◌, ◌==◌, ◌≡◌, ◌≢◌, refl, sym, ap, ◌∙◌, arith, Bool, true, false, Bool-cases, inl, inr,
  Option, some, none, ==_iff, ne→==_false,
}
use tflib.Common.{
  List, [], ◌∷◌, ◌++◌, All, length, append_assoc, append-nil, set, drop, length-append,
  set-append_length, drop-append_length,
}
use tflib.Text.{strtrim}
use tflib.Conf.{
  until, is_separator, PairScan, pair_step, pair_loop, pair_of, parse_pair, after_word, heading,
  is_blank, count, group_word, parse_unless_group, parse_trimmed, parse_line,
}

abbrev scan : List ℕ → Bool → Bool → ℕ → Option ℕ → PairScan
scan ptr found_key found_value kk value = record {
  ptr = ptr;
  found_key = found_key;
  found_value = found_value;
  kk = kk;
  value = value;
}

abbrev pub IsKey : List ℕ → Type 0
IsKey key = All (λ c. (is_separator c ≡ false) × (c ≢ b'#') × (c ≢ 0)) key

abbrev pub IsText : List ℕ → Type 0
IsText value = All (λ c. (c ≢ b'#') × (c ≢ 0)) value

abbrev pub AreSeparators : List ℕ → Type 0
AreSeparators seps = All (λ c. is_separator c ≡ true) seps

-- Nothing, or a comment.
abbrev pub IsComment : List ℕ → Type 0
IsComment [] = Unit {0}
IsComment (c ∷ text) = c ≡ b'#'

separator-no_comment : (c : ℕ) → is_separator c ≡ true → (c == b'#') ≡ false
unfolding is_separator
separator-no_comment c h = ground arith

pair_loop-key :
    (key rest ptr : List ℕ) (ii kk : ℕ)
    → IsKey key
    → pair_loop (key ++ rest) ii (scan ptr false false kk none)
      ≡ pair_loop rest (ii + length key) (scan ptr false false kk none)
unfolding pair_loop pair_step
pair_loop-key [] rest ptr ii kk h =
    ap (λ i. pair_loop rest i (scan ptr false false kk none)) (omega arith)
pair_loop-key (c ∷ key) rest ptr ii kk ((plain, no_comment, _), h) =
    rw (ne→==_false c b'#' no_comment) (
      rw plain (
        pair_loop-key key rest ptr (ii + 1) kk h
        ∙ ap (λ i. pair_loop rest i (scan ptr false false kk none)) (omega arith)))

pair_loop-separator :
    (c : ℕ) (rest ptr : List ℕ) (ii kk : ℕ)
    → is_separator c ≡ true
    → pair_loop (c ∷ rest) ii (scan ptr false false kk none)
      ≡ pair_loop rest (ii + 1) (scan (set ptr ii 0) true false (ii + 1) none)
unfolding pair_loop pair_step
pair_loop-separator c rest ptr ii kk h = rw (separator-no_comment c h) (rw h refl)

pair_loop-separators :
    (seps rest ptr : List ℕ) (ii : ℕ)
    → AreSeparators seps
    → pair_loop (seps ++ rest) ii (scan ptr true false ii none)
      ≡ pair_loop rest (ii + length seps) (scan ptr true false (ii + length seps) none)
unfolding pair_loop pair_step
pair_loop-separators [] rest ptr ii h =
    ap (λ i. pair_loop rest i (scan ptr true false i none)) (omega arith)
pair_loop-separators (c ∷ seps) rest ptr ii (s, h) = rw (separator-no_comment c s) (
    rw s (
      pair_loop-separators seps rest ptr (ii + 1) h
      ∙ ap (λ i. pair_loop rest i (scan ptr true false i none)) (omega arith)))

pair_loop-first :
    (c : ℕ) (rest ptr : List ℕ) (ii kk : ℕ)
    → is_separator c ≡ false
    → c ≢ b'#'
    → pair_loop (c ∷ rest) ii (scan ptr true false kk none)
      ≡ pair_loop rest (ii + 1) (scan ptr true true kk (some kk))
unfolding pair_loop pair_step
pair_loop-first c rest ptr ii kk plain no_comment =
    rw (ne→==_false c b'#' no_comment) (rw plain refl)

pair_loop-text :
    (value rest ptr : List ℕ) (ii kk : ℕ) (at : Option ℕ)
    → IsText value
    → pair_loop (value ++ rest) ii (scan ptr true true kk at)
      ≡ pair_loop rest (ii + length value) (scan ptr true true kk at)
unfolding pair_loop pair_step
pair_loop-text [] rest ptr ii kk at h =
    ap (λ i. pair_loop rest i (scan ptr true true kk at)) (omega arith)
pair_loop-text (c ∷ value) rest ptr ii kk at ((no_comment, _), h) =
    let next =
      pair_loop-text value rest ptr (ii + 1) kk at h
      ∙ ap (λ i. pair_loop rest i (scan ptr true true kk at)) (omega arith) in
    elim (Bool-cases (is_separator c)) [
      | inl s ↦ rw (ne→==_false c b'#' no_comment) (rw s next)
      | inr s ↦ rw (ne→==_false c b'#' no_comment) (rw s next)
    ]

until-text : (value rest : List ℕ) → All (λ c. c ≢ 0) value → until 0 (value ++ (0 ∷ rest)) ≡ value
unfolding until
until-text [] rest h = refl
until-text (c ∷ value) rest (ne, h) = rw (ne→==_false c 0 ne) (ap (◌∷◌ c) (until-text value rest h))

until-all : (value : List ℕ) → All (λ c. c ≢ 0) value → until 0 value ≡ value
unfolding until
until-all [] h = refl
until-all (c ∷ value) (ne, h) = rw (ne→==_false c 0 ne) (ap (◌∷◌ c) (until-all value h))

abbrev NoNul : List ℕ → Type 0
NoNul str = All (λ c. c ≢ 0) str

pair_of-ends :
    (key seps value rest : List ℕ) (kk : ℕ) (ptr : List ℕ)
    → NoNul key
    → kk ≡ length (key ++ 0 ∷ seps)
    → ptr ≡ (key ++ 0 ∷ seps) ++ rest
    → until 0 rest ≡ value
    → pair_of (scan ptr true true kk (some kk)) ≡ some (record { key = key; value = some value })
unfolding pair_of
pair_of-ends key seps value rest kk ptr k e p v =
    let the_key : until 0 ptr ≡ key =
      ap (until 0) (p ∙ append_assoc key (0 ∷ seps) rest) ∙ until-text key (seps ++ rest) k in
    let the_value : until 0 (drop kk ptr) ≡ value =
      ap (λ r. until 0 (drop kk r)) p
      ∙ ap (until 0) (drop-append_length kk (key ++ 0 ∷ seps) rest e)
      ∙ v in
    rw (the_key, the_value) refl

-- The end of the line, or a comment.
pair_loop-end :
    (key seps value comment : List ℕ) (ii kk : ℕ)
    → NoNul key
    → NoNul value
    → IsComment comment
    → kk ≡ length (key ++ 0 ∷ seps)
    → ii ≡ kk + length value
    → pair_of (
        pair_loop comment ii
          (scan ((key ++ 0 ∷ seps) ++ (value ++ comment)) true true kk (some kk)))
      ≡ some (record { key = key; value = some value })
unfolding pair_loop
pair_loop-end key seps value [] ii kk k v c e i =
    pair_of-ends key seps value (value ++ []) kk _ k e refl
      (ap (until 0) (append-nil value) ∙ until-all value v)
pair_loop-end key seps value (x ∷ text) ii kk k v c e i =
    let before = key ++ 0 ∷ seps in
    let hash : (x == b'#') ≡ true = (==_iff x b'#').1 c in
    let cut : set (before ++ (value ++ (x ∷ text))) ii 0 ≡ before ++ (value ++ (0 ∷ text)) =
      ap (λ r. set r ii 0) (sym (append_assoc before value (x ∷ text)))
      ∙ set-append_length ii (before ++ value) (x ∷ text) 0
          (omega (arith, i, e, length-append before value))
      ∙ append_assoc before value (0 ∷ text) in
    rw hash
      (pair_of-ends key seps value (value ++ (0 ∷ text)) kk _ k e cut (until-text value text v))

IsKey-NoNul : (key : List ℕ) → IsKey key → NoNul key
IsKey-NoNul [] h = tt
IsKey-NoNul (c ∷ key) ((_, _, ne), h) = (ne, IsKey-NoNul key h)

IsText-NoNul : (value : List ℕ) → IsText value → NoNul value
IsText-NoNul [] h = tt
IsText-NoNul (c ∷ value) ((_, ne), h) = (ne, IsText-NoNul value h)

-- The parts of a line: a key, separators, and a value that does not begin with one.
module _ (key : List ℕ) (s : ℕ) (seps : List ℕ) (c : ℕ) (value comment : List ℕ) where
  pub record ArePair : Type 0 where
    pub is_key : IsKey key
    pub is_separated : AreSeparators (s ∷ seps)
    pub first : is_separator c ≡ false
    pub is_text : IsText (c ∷ value)
    pub is_comment : IsComment comment

  abbrev pub pair_line : List ℕ
  pair_line = key ++ (s ∷ (seps ++ ((c ∷ value) ++ comment)))

  parse_pair-pair_line :
      ArePair → parse_pair pair_line ≡ some (record { key = key; value = some (c ∷ value) })
  unfolding parse_pair
  parse_pair-pair_line h =
      let rest = (c ∷ value) ++ comment in
      let k = 0 + length key in
      let at = k + 1 + length seps in
      let cut : set pair_line k 0 ≡ (key ++ 0 ∷ seps) ++ rest =
        set-append_length k key (s ∷ (seps ++ rest)) 0 (omega arith)
        ∙ sym (append_assoc key (0 ∷ seps) rest) in
      ap pair_of (
        pair_loop-key key (s ∷ (seps ++ rest)) pair_line 0 0 h.is_key
        ∙ pair_loop-separator s (seps ++ rest) pair_line k 0 h.is_separated.0
        ∙ pair_loop-separators seps rest (set pair_line k 0) (k + 1) h.is_separated.1
        ∙ pair_loop-first c (value ++ comment) (set pair_line k 0) at at h.first h.is_text.0.0
        ∙ pair_loop-text value comment (set pair_line k 0) (at + 1) at (some at) h.is_text.1
        ∙ ap (λ p. pair_loop comment (at + 1 + length value) (scan p true true at (some at))) cut)
      ∙ pair_loop-end key seps (c ∷ value) comment (at + 1 + length value) at
          (IsKey-NoNul key h.is_key) (IsText-NoNul (c ∷ value) h.is_text) h.is_comment
          (omega (arith, length-append key (0 ∷ seps))) (omega arith)

-- A line whose trimmed bytes are a key, separators, a value and perhaps a comment gives the key and the
-- value, which keeps what separators it has. The line begins neither a comment nor a group.
pub parse_line-pair_line :
    (str : List ℕ) (x : ℕ) (text key : List ℕ) (s : ℕ) (seps : List ℕ) (c : ℕ)
    (value comment : List ℕ)
    → strtrim str ≡ x ∷ text
    → x ∷ text ≡ pair_line key s seps c value comment
    → ArePair key s seps c value comment
    → x ≢ b'#'
    → x ≢ b'['
    → after_word group_word (x ∷ text) ≡ none
    → parse_line str ≡ some (record { key = key; value = some (c ∷ value) })
unfolding parse_line parse_trimmed parse_unless_group
parse_line-pair_line str x text key s seps c value comment trimmed e h no_comment no_group no_word =
    rw trimmed (
      rw (ne→==_false x b'#' no_comment) (
        rw no_word (
          rw (ne→==_false x b'[' no_group)
            (ap parse_pair e ∙ parse_pair-pair_line key s seps c value comment h))))

abbrev pub IsName : List ℕ → Type 0
IsName name = All (λ c. (is_blank c ≡ false) × (c ≢ b']')) name

until-name : (name rest : List ℕ) → IsName name → until b']' (name ++ (b']' ∷ rest)) ≡ name
unfolding until
until-name [] rest h = refl
until-name (c ∷ name) rest ((_, ne), h) =
    rw (ne→==_false c b']' ne) (ap (◌∷◌ c) (until-name name rest h))

count-name : (name : List ℕ) → IsName name → count is_blank name ≡ 0
unfolding count
count-name [] h = refl
count-name (c ∷ name) ((plain, _), h) = rw plain (count-name name h)

-- A line whose trimmed bytes are a name in brackets, with anything behind it, gives the name.
pub parse_line-heading :
    (str : List ℕ) (c : ℕ) (name rest : List ℕ)
    → strtrim str ≡ b'[' ∷ ((c ∷ name) ++ (b']' ∷ rest))
    → IsName (c ∷ name)
    → parse_line str ≡ some (record { key = c ∷ name; value = none })
unfolding parse_line parse_trimmed parse_unless_group after_word heading
parse_line-heading str c name rest trimmed h = rw trimmed (
    rw (until-name (c ∷ name) rest h) (
      rw (count-name (c ∷ name) h)
        (rw (ne→==_false (suc (length name)) 0 (λ e. omega (arith, e))) refl)))
