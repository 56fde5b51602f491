-- ===== src/Text/Split.antt =====
-- `tf_strsplit` and `tf_strjoin` of tflib/tf_util.c, over the lists of tflib/tf_list.c.
pub mod Pieces
pub mod Joined
use tflib.Common.{ℕ, zero, suc, ◌+◌, ltb, ◌==◌, if◌then◌else◌, ◌>>=◌}
use tflib.Common.{
  Bool, true, false, ◌||◌, Option, none, some, List, [], ◌∷◌, ◌++◌, length, Returns, Returns-bind,
}
use tflib.Common.Bytes.{read_bytes}
use tflib.Vnum.{to_int}
use tflib.ArrayList.{Node, ArrayList, new, push, val}
use tflib.ArrayList.Holds.{Holds}
use tflib.ArrayList.Ends.{push-Holds}
use tflib.ArrayList.Serial.{put_bytes}

-- `strchr(delims, c)`, of a byte that is not NUL.
unfoldable pub contains : List ℕ → ℕ → Bool
contains [] c = false
contains (d ∷ delims) c = c == d || contains delims c

-- The inner loop: the piece before the next delimiter, and what `*str` is there.
pub scan : List ℕ → List ℕ → List ℕ × List ℕ
scan [] delims = ([], [])
scan (c ∷ str) delims =
    let (piece, rest) = scan str delims in
    if contains delims c then ([], c ∷ str) else (c ∷ piece, rest)

-- The outer loop, with fuel for one round more than there are bytes. `sp` points into the string, so
-- `push` reads the piece from what lies there.
pub split_loop : ℕ → List ℕ → List ℕ → ArrayList → Option ArrayList
split_loop zero str delims list = none
split_loop (suc fuel) str delims list = do
  let (piece, rest) = scan str delims
  list' ← push list str (length piece)
  elim rest [ [] ↦ some list' | c ∷ rest' ↦ split_loop fuel rest' delims list' ]

pub strsplit : List ℕ → List ℕ → Option ArrayList
strsplit str delims = split_loop (length str + 1) str delims new

-- The sizes that `tf_strjoin` adds up, from `i` on.
pub join_size : ArrayList → ℕ → ℕ → ℕ → Option ℕ
join_size list i zero size = some size
join_size list i (suc n) size = do
  v ← val list i
  node ← v
  size' ← to_int (size + node.size)
  join_size list (i + 1) n size'

pub join_loop : ArrayList → ℕ → ℕ → ℕ → ℕ → List ℕ → Option (List ℕ)
join_loop list delim limit i zero buf = put_bytes limit buf (0 ∷ [])
join_loop list delim limit i (suc n) buf = do
  buf₁ ← (if ltb 0 i then put_bytes limit buf (delim ∷ []) else some buf)
  v ← val list i
  node ← v
  bytes ← read_bytes node.ptr node.size
  buf₂ ← put_bytes limit buf₁ bytes
  join_loop list delim limit (i + 1) n buf₂

-- The buffer's bytes, with the NUL that ends it.
pub strjoin : ArrayList → ℕ → Option (List ℕ)
strjoin list delim = do
  size ← join_size list 0 list.num (list.num + 1)
  join_loop list delim size 0 list.num []
