-- ===== src/Conf.antt =====
-- tflib/tf_conf_file.c: the lines of a configuration file, its groups and their pairs, and the lines
-- that `tf_readlines` of tflib/tf_file.c gives. A string is its bytes before the NUL, and a list of
-- tflib/tf_list.c is the list of what it holds.
pub mod Lines
pub mod Pairs
pub mod Lookup
pub mod Groups
use tflib.Common.Bytes.{bytes_eq}
use tflib.Common.{take, replicate, ◌&&◌, ◌-◌}
use tflib.Common.{ℕ, zero, suc, ◌+◌, ◌^◌, ◌==◌, leb, ltb, if◌then◌else◌, ◌>>=◌}
use tflib.Common.{
  Bool, true, false, not, ◌&&◌, ◌||◌, Option, none, some, List, [], ◌∷◌, ◌++◌, length, set, drop,
}
use tflib.Common.Int.{ℤ, pos, negsuc}
use tflib.Socket.{ReadAnswer, got}
use tflib.Text.{stricmp, strtrim}
use tflib.Text.Number.{atoi}

-- What `tf_readlines` has pushed, and the line that it is at.
pub record LineReader : Type 0 where
  pub list : List (List ℕ)
  pub xstr : List ℕ

unfoldable pub read_byte : LineReader → ℕ → LineReader
read_byte r c =
    if c == b'\r'
    then r
    else if c == b'\n'
    then record { list = r.list ++ (r.xstr ∷ []); xstr = [] }
    else record r { xstr = r.xstr ++ (c ∷ []) }

unfoldable pub read_chunk : LineReader → List ℕ → LineReader
read_chunk r [] = r
read_chunk r (c ∷ buf) = read_chunk (read_byte r c) buf

-- The loop over the answers of `read`; an error ends it as the end of the file does.
unfoldable pub readlines_loop : List ReadAnswer → LineReader → Option (List (List ℕ))
readlines_loop [] r = none
readlines_loop (got [] ∷ answers) r = some (r.list ++ (r.xstr ∷ []))
readlines_loop (got (c ∷ buf) ∷ answers) r = readlines_loop answers (read_chunk r (c ∷ buf))
readlines_loop (ReadAnswer.retry ∷ answers) r = some (r.list ++ (r.xstr ∷ []))
readlines_loop (ReadAnswer.broken ∷ answers) r = some (r.list ++ (r.xstr ∷ []))

unfoldable pub readlines : List ReadAnswer → Option (List (List ℕ))
readlines answers = readlines_loop answers (record { list = []; xstr = [] })

-- A key with its value; a group's heading has no value.
pub record KeyVal : Type 0 where
  pub key : List ℕ
  pub value : Option (List ℕ)

-- The bytes before the first `c`.
unfoldable pub until : ℕ → List ℕ → List ℕ
until c [] = []
until c (a ∷ str) = let rest = until c str in if a == c then [] else a ∷ rest

unfoldable pub count : (ℕ → Bool) → List ℕ → ℕ
count p [] = 0
count p (c ∷ str) = if p c then 1 + count p str else count p str

unfoldable pub is_blank : ℕ → Bool
is_blank c = c == b' ' || c == b'\t'

unfoldable pub is_separator : ℕ → Bool
is_separator c = c == b' ' || c == b'\t' || c == b'=' || c == b':'

-- `strncmp(ptr, word, strlen(word)) == 0`, and what follows the word.
unfoldable pub after_word : List ℕ → List ℕ → Option (List ℕ)
after_word [] ptr = some ptr
after_word (k ∷ word) [] = none
after_word (k ∷ word) (c ∷ ptr) = let rest = after_word word ptr in if c == k then rest else none

-- The key moves one byte on for every byte of `str` that is passed over, wherever that stands.
unfoldable pub heading : (ℕ → Bool) → List ℕ → Option KeyVal
heading skipped str =
    let key = drop (count skipped str) str in
    if length key == 0 then none else some (record { key = key; value = none })

-- The local variables of the loop over a pair. `value` is the index that the pointer has.
pub record PairScan : Type 0 where
  pub ptr : List ℕ
  pub found_key : Bool
  pub found_value : Bool
  pub kk : ℕ
  pub value : Option ℕ

unfoldable pub pair_step : ℕ → ℕ → PairScan → PairScan
pair_step c ii s =
    if is_separator c
    then if not s.found_key
      then record s { found_key = true; ptr = set s.ptr ii 0; kk = ii + 1 }
      else if not s.found_value
      then record s { kk = ii + 1 }
      else s
    else if s.found_key && not s.found_value
    then record s { found_value = true; value = some s.kk }
    else s

-- The bytes from `ii` on, which the loop has not written to yet.
unfoldable pub pair_loop : List ℕ → ℕ → PairScan → PairScan
pair_loop [] ii s = s
pair_loop (c ∷ rest) ii s =
    let next = pair_loop rest (ii + 1) (pair_step c ii s) in
    if c == b'#' then record s { ptr = set s.ptr ii 0 } else next

-- What is made of the pointers behind the loop.
unfoldable pub pair_of : PairScan → Option KeyVal
pair_of s = do
  at ← s.value
  some (record { key = until 0 s.ptr; value = some (until 0 (drop at s.ptr)) })

unfoldable pub parse_pair : List ℕ → Option KeyVal
parse_pair ptr = pair_of (
    pair_loop ptr 0
      (record { ptr = ptr; found_key = false; found_value = false; kk = 0; value = none }))

-- A line that does not begin with `group`, or what follows the word in one that does.
unfoldable pub parse_unless_group : Option (List ℕ) → ℕ → List ℕ → Option KeyVal
parse_unless_group (some rest) c ptr = heading (λ a. a == b' ' || a == b'=' || a == b'\t') rest
parse_unless_group none c ptr =
    if c == b'[' then heading is_blank (until b']' ptr) else parse_pair (c ∷ ptr)

abbrev pub group_word : List ℕ
group_word = b'g' ∷ b'r' ∷ b'o' ∷ b'u' ∷ b'p' ∷ []

-- A line that is trimmed.
unfoldable pub parse_trimmed : List ℕ → Option KeyVal
parse_trimmed [] = none
parse_trimmed (c ∷ ptr) =
    if c == b'#' then none else parse_unless_group (after_word group_word (c ∷ ptr)) c ptr

unfoldable pub parse_line : List ℕ → Option KeyVal
parse_line str = parse_trimmed (strtrim str)

abbrev pub max_filename_len : ℕ
max_filename_len = 128

pub record Group : Type 0 where
  pub name : List ℕ
  pub pairs : List (List ℕ × List ℕ)

abbrev pub is_zero : ℤ → Bool
is_zero (pos n) = n == 0
is_zero (negsuc n) = false

-- The index, from `i` on, of the first group with the name.
unfoldable pub find_group : List Group → List ℕ → ℕ → Option ℕ
find_group [] name i = none
find_group (group ∷ groups) name i =
    let rest = find_group groups name (i + 1) in
    if is_zero (stricmp group.name name) then some i else rest

-- The groups, and the one that the pairs go to.
pub record Config : Type 0 where
  pub groups : List Group
  pub group : Option ℕ

-- A name that fills its array has no NUL, which the searches read past.
unfoldable pub open_group : Config → List ℕ → Option ℕ → Option Config
open_group cfg key (some i) = some (record cfg { group = some i })
open_group cfg key none =
    if leb max_filename_len (length key)
    then none
    else some (record {
      groups = cfg.groups ++ (record { name = key; pairs = [] } ∷ []);
      group = some (length cfg.groups);
    })

unfoldable pub push_pair : List Group → ℕ → List ℕ × List ℕ → List Group
push_pair [] i kv = []
push_pair (group ∷ groups) zero kv = record group { pairs = group.pairs ++ (kv ∷ []) } ∷ groups
push_pair (group ∷ groups) (suc i) kv = group ∷ push_pair groups i kv

unfoldable pub add_pair : Config → List ℕ × List ℕ → Option ℕ → Config
add_pair cfg kv none = cfg
add_pair cfg kv (some i) = record cfg { groups = push_pair cfg.groups i kv }

unfoldable pub create_keyval : Config → List ℕ → Option (List ℕ) → Option Config
create_keyval cfg key none = open_group cfg key (find_group cfg.groups key 0)
create_keyval cfg key (some value) = some (add_pair cfg (key, value) cfg.group)

unfoldable pub create_line : Config → Option KeyVal → Option Config
create_line cfg none = some cfg
create_line cfg (some kv) = create_keyval cfg kv.key kv.value

-- A line is parsed as a C string, up to its first NUL.
unfoldable pub create_loop : List (List ℕ) → Config → Option Config
create_loop [] cfg = some cfg
create_loop (line ∷ lines) cfg = do
  cfg' ← create_line cfg (parse_line (until 0 line))
  create_loop lines cfg'

-- A file that is opened, over the answers to its reads.
unfoldable pub cfg_create : List ReadAnswer → Option Config
cfg_create answers = do
  lines ← readlines answers
  create_loop lines (record { groups = []; group = none })

-- `memcmp(a, b, n) == 0`; a region that has fewer bytes is a fault.
unfoldable pub same_region : ℕ → List ℕ → List ℕ → Option Bool
same_region n a b =
    if leb n (length a) && leb n (length b) then some (bytes_eq (take n a) (take n b)) else none

-- The region of a string object that `tf_strnew2` made, of 16 bytes at least. Nothing was written behind the
-- NUL; the zeros stand for what is there. No comparison's outcome rests on them: the NUL differs from the key's byte.
unfoldable pub str_region : List ℕ → List ℕ
str_region k = k ++ 0 ∷ replicate (15 - length k) 0

-- The value of the pair that `cfg_get_kv` finds; the inner `none` is `NULL`.
unfoldable pub get_kv : List (List ℕ × List ℕ) → List ℕ → Option (Option (List ℕ))
get_kv [] key = some none
get_kv ((k, value) ∷ pairs) key = do
  let n = if leb (length key) (length k) then length k else length key
  same ← same_region n (str_region k) (key ++ (0 ∷ []))
  let rest = get_kv pairs key
  if same then some (some value) else rest

abbrev pub or_default {ℓ} : {A : Type ℓ} → A → (List ℕ → A) → Option (List ℕ) → A
or_default dft f none = dft
or_default dft f (some value) = f value

unfoldable pub get_string : List (List ℕ × List ℕ) → List ℕ → List ℕ → Option (List ℕ)
get_string pairs key dft = do found ← get_kv pairs key; some (or_default dft (λ value. value) found)

abbrev pub is_true : List ℕ → Bool
is_true value =
    is_zero (stricmp value (b't' ∷ b'r' ∷ b'u' ∷ b'e' ∷ []))
    || is_zero (stricmp value (b'y' ∷ b'e' ∷ b's' ∷ []))

unfoldable pub get_bool : List (List ℕ × List ℕ) → List ℕ → Bool → Option Bool
get_bool pairs key dft = do found ← get_kv pairs key; some (or_default dft is_true found)

-- A number that does not fit an `int` is `none`.
unfoldable pub int_of : ℤ → Option ℤ
int_of (pos n) = if ltb n (2 ^ 31) then some (pos n) else none
int_of (negsuc n) = if ltb n (2 ^ 31) then some (negsuc n) else none

unfoldable pub get_int : List (List ℕ × List ℕ) → List ℕ → ℤ → Option ℤ
get_int pairs key dft = do
  found ← get_kv pairs key
  or_default (some dft) (λ value. atoi value >>= int_of) found
