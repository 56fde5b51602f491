-- ===== src/ArrayList.antt =====
-- tflib/tf_list.c and tflib/tf_list.h: the array list. Its cells are allocated in one array of
-- `anum` cells, of which `num` from `start` on are in use; each points to a region of its own.
pub mod Cells
pub mod Holds
pub mod Moves
pub mod Focus
pub mod Ends
pub mod Middle
pub mod Insert
pub mod Serial
pub mod Whole
pub mod Order
use tflib.Common.{ℕ, ◌+◌, ◌-◌, leb, ltb, if◌then◌else◌, ◌>>=◌}
use tflib.Common.{Option, none, some, List, [], ◌∷◌, ◌++◌}
use tflib.Common.{length, get_elem?, set, take, drop, replicate}
use tflib.Common.Bytes.{read_bytes}
use tflib.Vnum.{to_int}

-- `ptr` is the whole region that the element's pointer leads to.
pub record Node : Type 0 where
  pub ptr : List ℕ
  pub size : ℕ

-- A cell that `tf_alloc` gave and nothing was written to is `none`.
pub record ArrayList : Type 0 where
  pub array : List (Option Node)
  pub anum : ℕ
  pub start : ℕ
  pub num : ℕ

abbrev pub list_unit : ℕ
list_unit = 64

abbrev pub new_list : ℕ → ArrayList
new_list anum = record { array = replicate anum none; anum = anum; start = 0; num = 0 }

unfoldable pub new : ArrayList
new = new_list list_unit

unfoldable pub new2 : ℕ → ArrayList
new2 anum = new_list (if ltb anum 1 then 1 else anum)

-- `array[i]`, a fault out of bounds or where nothing was written.
unfoldable pub read_cell : List (Option Node) → ℕ → Option Node
read_cell array i = do cell ← get_elem? array i; cell

unfoldable pub write_cell : List (Option Node) → ℕ → Node → Option (List (Option Node))
write_cell array i n = if ltb i (length array) then some (set array i (some n)) else none

-- `memmove(array + dst, array + src, count)`, in cells.
unfoldable pub move_cells : List (Option Node) → ℕ → ℕ → ℕ → Option (List (Option Node))
move_cells array dst src count =
    if leb (dst + count) (length array)
    then if leb (src + count) (length array)
      then some (take dst array ++ (take count (drop src array) ++ drop (dst + count) array))
      else none
    else none

-- The growth that every insertion makes first. The index and `anum` are of type `int`; `num + 1` is no more
-- than `anum` then.
unfoldable pub reserve : ArrayList → Option ArrayList
reserve l = do
  index ← to_int (l.start + l.num)
  if leb l.anum index
      then (do
        anum ← to_int (l.anum + (l.num + 1))
        some (record l { anum = anum; array = l.array ++ replicate (l.num + 1) none }))
      else some l

-- The region of `size + 1` bytes that is filled and terminated.
abbrev pub new_node : List ℕ → ℕ → Node
new_node bytes size = record { ptr = bytes ++ (0 ∷ []); size = size }

-- Its allocation, for the `size` bytes of `ptr`.
unfoldable pub fill_node : List ℕ → ℕ → Option Node
fill_node ptr size = do
  room ← to_int (size + 1)
  bytes ← read_bytes ptr size
  some (new_node bytes size)

unfoldable pub push : ArrayList → List ℕ → ℕ → Option ArrayList
push l ptr size = do
  r ← reserve l
  node ← fill_node ptr size
  array ← write_cell r.array (l.start + l.num) node
  some (record r { array = array; num = l.num + 1 })

-- `str` is the string before its NUL, and `strlen` its length.
unfoldable pub push2 : ArrayList → List ℕ → Option ArrayList
push2 l str = do
  r ← reserve l
  node ← fill_node str (length str)
  array ← write_cell r.array (l.start + l.num) node
  some (record r { array = array; num = l.num + 1 })

push_all : ArrayList → List (List ℕ) → Option ArrayList
push_all l [] = some l
push_all l (elem ∷ rest) = do l' ← push2 l elem; push_all l' rest

-- The arguments before the terminating `NULL`.
pub new3 : List (List ℕ) → Option ArrayList
unfolding push_all
new3 strs = push_all new strs

pub num : ArrayList → ℕ
num l = l.num

-- The region and the size of an element; the inner `none` is `NULL`.
unfoldable pub val : ArrayList → ℕ → Option (Option Node)
val l index =
    if leb l.num index then some none else do n ← read_cell l.array (index + l.start); some (some n)

-- The list after the call, and the removed element.
unfoldable pub pop : ArrayList → Option (ArrayList × Option Node)
pop l =
    if ltb l.num 1
    then some (l, none)
    else do n ← read_cell l.array (l.start + l.num - 1); some (record l { num = l.num - 1 }, some n)

unfoldable pub insert : ArrayList → ℕ → List ℕ → ℕ → Option ArrayList
insert l index ptr size = if ltb l.num index then some l else do
  r ← reserve l
  let at = index + l.start
  moved ← move_cells r.array (at + 1) at (l.start + l.num - at)
  node ← fill_node ptr size
  array ← write_cell moved at node
  some (record r { array = array; num = l.num + 1 })

unfoldable pub remove : ArrayList → ℕ → Option (ArrayList × Option Node)
remove l index = if leb l.num index then some (l, none) else do
  let at = index + l.start
  n ← read_cell l.array at
  array ← move_cells l.array at (at + 1) (l.start + (l.num - 1) - at)
  some (record l { array = array; num = l.num - 1 }, some n)

-- A region that is large enough is kept, and its bytes behind the terminator stay.
unfoldable pub overwrite_region : Node → List ℕ → ℕ → Option (List ℕ)
overwrite_region n bytes size =
    if ltb n.size size
    then (do room ← to_int (size + 1); some (bytes ++ (0 ∷ [])))
    else if ltb size (length n.ptr)
    then some (bytes ++ 0 ∷ drop (size + 1) n.ptr)
    else none

unfoldable pub over : ArrayList → ℕ → List ℕ → ℕ → Option ArrayList
over l index ptr size = if leb l.num index then some l else do
  let at = index + l.start
  n ← read_cell l.array at
  bytes ← read_bytes ptr size
  region ← overwrite_region n bytes size
  array ← write_cell l.array at (record { ptr = region; size = size })
  some (record l { array = array })
