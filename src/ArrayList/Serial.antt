-- ===== src/ArrayList/Serial.antt =====
-- `tf_list_dump` and `tf_list_load` of tflib/tf_list.c: a list as one run of bytes, each element
-- behind its size.
pub mod Dump
pub mod Load
use tflib.Common.{ℕ, zero, suc, ◌+◌, ◌*◌, ◌/◌, leb, if◌then◌else◌, ◌>>=◌}
use tflib.Common.{Option, none, some, List, [], ◌∷◌, ◌++◌, length, drop, replicate}
use tflib.Common.Bytes.{read_bytes}
use tflib.Vnum.{to_int, set_vnum, read_vnum}
use tflib.ArrayList.{Node, ArrayList, read_cell, write_cell, new_node, new_list}

-- The cells from `i` on that a loop over the elements reads, `n` of them.
unfoldable pub read_cells : List (Option Node) → ℕ → ℕ → Option (List Node)
read_cells array i zero = some []
read_cells array i (suc n) = do
  node ← read_cell array i
  rest ← read_cells array (i + 1) n
  some (node ∷ rest)

unfoldable pub live : ArrayList → Option (List Node)
live l = read_cells l.array l.start l.num

-- `tsiz`, with `sizeof(int)` of 4.
unfoldable pub dump_size : List Node → ℕ → Option ℕ
dump_size [] tsiz = some tsiz
dump_size (n ∷ ns) tsiz = do tsiz' ← to_int (tsiz + (n.size + 4)); dump_size ns tsiz'

-- A write at `wp` into a buffer of `limit` bytes, of which those before `wp` are written.
unfoldable pub put_bytes : ℕ → List ℕ → List ℕ → Option (List ℕ)
put_bytes limit buf bytes =
    if leb (length buf + length bytes) limit then some (buf ++ bytes) else none

unfoldable pub dump_loop : List Node → ℕ → List ℕ → Option (List ℕ)
dump_loop [] limit buf = some buf
dump_loop (n ∷ ns) limit buf = do
  step ← set_vnum n.size
  buf₁ ← put_bytes limit buf step
  bytes ← read_bytes n.ptr n.size
  buf₂ ← put_bytes limit buf₁ bytes
  dump_loop ns limit buf₂

-- The bytes before `wp`; `*sp` is their number.
unfoldable pub dump : ArrayList → Option (List ℕ)
dump l = do
  nodes ← live l
  tsiz ← dump_size nodes 0
  room ← to_int (tsiz + 1)
  dump_loop nodes room []

unfoldable pub load_reserve : ArrayList → ArrayList
load_reserve l =
    if leb l.anum l.num
    then record l { anum = l.anum * 2; array = l.array ++ replicate l.anum none }
    else l

-- `region` is what lies from `rp` on, and `pos` is `rp - ptr`. A round takes a byte at least.
unfoldable pub load_loop : ℕ → List ℕ → ℕ → ℕ → ArrayList → Option ArrayList
load_loop zero region pos size l = if leb size pos then some l else none
load_loop (suc fuel) region pos size l = if leb size pos then some l else do
  (vsiz, step) ← read_vnum region
  let r = load_reserve l
  bytes ← read_bytes (drop step region) vsiz
  array ← write_cell r.array l.num (new_node bytes vsiz)
  load_loop fuel (drop vsiz (drop step region)) (pos + step + vsiz) size
      (record r { array = array; num = l.num + 1 })

unfoldable pub load : List ℕ → ℕ → Option ArrayList
load ptr size = load_loop size ptr 0 size (new_list (size / 4 + 1))
