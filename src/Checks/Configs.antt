-- ===== src/Checks/Configs.antt =====
-- Inputs of the theorems on tflib/tf_conf_file.c and on `tf_readlines` of tflib/tf_file.c.
use tflib.Common.{
  ℕ, ap, List, ◌∷◌, [], ◌++◌, some, none, map, length, refl, ◌≡◌, ◌≢◌, ◌<◌, arith, Returns, All,
  true, ◌>>=◌, reverse,
}
use tflib.Common.Int.{pos}
use tflib.Socket.{got}
use tflib.Text.{strtrim, trim_head, trim_tail, is_space}
use tflib.Text.Number.{atoi}
use tflib.Common.{◌∙◌}
use tflib.Conf.{
  until, str_region, Group, parse_line, is_separator, is_blank, after_word, group_word, readlines,
  cfg_create, get_string, get_bool, get_int, int_of, is_true,
}
use tflib.Conf.Lines.{IsLine, readlines_lem}
use tflib.Conf.Pairs.{ArePair, IsName, parse_line-pair_line, parse_line-heading}
use tflib.Conf.Groups.{PairLines, Sections, cfg_create-Sections}
use tflib.Conf.Lookup.{NoNul, Comparable, get_string-get_bool-get_int}

-- `[ac]`, and `k = v#`.
abbrev head_line : List ℕ
head_line = b'[' ∷ b'a' ∷ b'c' ∷ b']' ∷ []

abbrev key_line : List ℕ
key_line = b'k' ∷ b' ' ∷ b'=' ∷ b' ' ∷ b'v' ∷ b'#' ∷ []

-- The two lines in two pieces, with `\r\n` between them.
abbrev chunks : List (List ℕ)
chunks = (b'[' ∷ b'a' ∷ []) ∷ (b'c' ∷ b']' ∷ b'\r' ∷ b'\n' ∷ key_line) ∷ []

chunks-some : All (λ chunk. length chunk ≢ 0) chunks
chunks-some = (λ e. omega (arith, e), (λ e. omega (arith, e), tt))

above_eol : (c : ℕ) → 13 < c → (c ≢ b'\r') × (c ≢ b'\n')
above_eol c h = (λ e. omega (arith, h, e), λ e. omega (arith, h, e))

above_hash : (c : ℕ) → b'#' < c → (c ≢ b'#') × (c ≢ 0)
above_hash c h = (λ e. omega (arith, h, e), λ e. omega (arith, h, e))

lines-IsLine : All IsLine (head_line ∷ key_line ∷ [])
lines-IsLine = (
  (
    above_eol b'[' (omega arith),
    (
      above_eol b'a' (omega arith),
      (above_eol b'c' (omega arith), (above_eol b']' (omega arith), tt)),
    ),
  ),
  (
    (
      above_eol b'k' (omega arith),
      (
        above_eol b' ' (omega arith),
        (
          above_eol b'=' (omega arith),
          (
            above_eol b' ' (omega arith),
            (above_eol b'v' (omega arith), (above_eol b'#' (omega arith), tt)),
          ),
        ),
      ),
    ),
    tt,
  ),
)

readlines_example : readlines (map got chunks ++ got [] ∷ []) ≡ some (head_line ∷ key_line ∷ [])
readlines_example = readlines_lem chunks [] head_line (key_line ∷ []) chunks-some lines-IsLine refl

head_line-trimmed : strtrim head_line ≡ head_line
unfolding strtrim trim_head trim_tail is_space reverse
head_line-trimmed = refl

key_line-trimmed : strtrim key_line ≡ key_line
unfolding strtrim trim_head trim_tail is_space reverse
key_line-trimmed = refl

key_line-ArePair : ArePair (b'k' ∷ []) b' ' (b'=' ∷ b' ' ∷ []) b'v' [] (b'#' ∷ [])
unfolding is_separator
key_line-ArePair = record {
  is_key = ((refl, λ e. omega (arith, e), λ e. omega (arith, e)), tt);
  is_separated = (refl, (refl, (refl, tt)));
  first = refl;
  is_text = (above_hash b'v' (omega arith), tt);
  is_comment = refl;
}

no_word : after_word group_word key_line ≡ none
unfolding after_word
no_word = refl

parse_line-pair_line_example :
    parse_line key_line ≡ some (record { key = b'k' ∷ []; value = some (b'v' ∷ []) })
parse_line-pair_line_example =
    parse_line-pair_line key_line b'k' (b' ' ∷ b'=' ∷ b' ' ∷ b'v' ∷ b'#' ∷ []) (b'k' ∷ []) b' '
      (b'=' ∷ b' ' ∷ []) b'v' [] (b'#' ∷ []) key_line-trimmed refl key_line-ArePair
      (λ e. omega (arith, e)) (λ e. omega (arith, e)) no_word

key_line-parsed : parse_line key_line ≡ some (record { key = b'k' ∷ []; value = some (b'v' ∷ []) })
key_line-parsed =
    parse_line-pair_line key_line b'k' (b' ' ∷ b'=' ∷ b' ' ∷ b'v' ∷ b'#' ∷ []) (b'k' ∷ []) b' '
      (b'=' ∷ b' ' ∷ []) b'v' [] (b'#' ∷ []) key_line-trimmed refl key_line-ArePair
      (λ e. omega (arith, e)) (λ e. omega (arith, e)) no_word

head_line-IsName : IsName (b'a' ∷ b'c' ∷ [])
unfolding is_blank
head_line-IsName = ((refl, λ e. omega (arith, e)), ((refl, λ e. omega (arith, e)), tt))

head_line-parsed : parse_line head_line ≡ some (record { key = b'a' ∷ b'c' ∷ []; value = none })
head_line-parsed =
    parse_line-heading head_line b'a' (b'c' ∷ []) [] head_line-trimmed head_line-IsName

abbrev group : Group
group = record { name = b'a' ∷ b'c' ∷ []; pairs = (b'k' ∷ [], b'v' ∷ []) ∷ [] }

head_line-cstring : until 0 head_line ≡ head_line
unfolding until
head_line-cstring = refl

key_line-cstring : until 0 key_line ≡ key_line
unfolding until
key_line-cstring = refl

sections : Sections [] (head_line ∷ key_line ∷ []) (group ∷ [])
sections =
    Sections.section head_line (b'a' ∷ b'c' ∷ [])
      (ap parse_line head_line-cstring ∙ head_line-parsed) (omega arith) tt
      (PairLines.pair key_line (b'k' ∷ []) (b'v' ∷ [])
        (ap parse_line key_line-cstring ∙ key_line-parsed) PairLines.done)
      Sections.none_left

cfg_create-Sections_example :
    Returns (cfg_create (map got chunks ++ got [] ∷ [])) (λ cfg. cfg.groups ≡ group ∷ [])
cfg_create-Sections_example =
    cfg_create-Sections chunks [] head_line (key_line ∷ []) (group ∷ []) chunks-some lines-IsLine
      refl sections

-- The key `b` behind the key `ab`.
abbrev before : List (List ℕ × List ℕ)
before = (b'a' ∷ b'b' ∷ [], b'1' ∷ []) ∷ []

before-other : All (λ kv. NoNul kv.0 × Comparable kv.0 (b'b' ∷ []) × (kv.0 ≢ b'b' ∷ [])) before
unfolding str_region
before-other = (
  (
    (λ e. omega (arith, e), (λ e. omega (arith, e), tt)),
    (omega arith, omega arith),
    λ e. omega (arith, ap length e),
  ),
  tt,
)

get_string-get_bool-get_int_example :
    (get_string (before ++ ((b'b' ∷ [], b'2' ∷ []) ∷ [])) (b'b' ∷ []) [] ≡ some (b'2' ∷ []))
    × (get_bool (before ++ ((b'b' ∷ [], b'2' ∷ []) ∷ [])) (b'b' ∷ []) true
        ≡ some (is_true (b'2' ∷ [])))
    × (get_int (before ++ ((b'b' ∷ [], b'2' ∷ []) ∷ [])) (b'b' ∷ []) (pos 7)
        ≡ (atoi (b'2' ∷ []) >>= int_of))
    × (get_string before (b'b' ∷ []) [] ≡ some [])
    × (get_bool before (b'b' ∷ []) true ≡ some true)
    × (get_int before (b'b' ∷ []) (pos 7) ≡ some (pos 7))
get_string-get_bool-get_int_example =
    get_string-get_bool-get_int before [] (b'b' ∷ []) (b'2' ∷ []) [] true (pos 7)
      (λ e. omega (arith, e), tt) before-other
