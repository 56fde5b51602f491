-- ===== src/ArrayList/Holds.antt =====
-- When a list of tflib/tf_list.c holds a sequence of strings, and the room that `reserved` makes.
use tflib.Common.{ℕ, ◌+◌, ◌≡◌, refl, Option, none, some, List, [], ◌∷◌, ◌++◌, arith}
use tflib.Common.{length, replicate, leb, append_assoc}
use tflib.Common.{length-append, length-replicate, set-append_length, lt→ltb}
use tflib.Common.{false, true, Bool, if◌then◌else◌, ◌-◌, ◌<◌, replicate-pos}
use tflib.Vnum.{to_int}
use tflib.Common.{◌≤◌, ◌^◌, ap, Bool-cases, inl, inr, take, le→leb}
use tflib.ArrayList.{Node, ArrayList, reserve, fill_node, new_node, write_cell, new_list, new}
use tflib.ArrayList.Cells.{Cells, NodeHolds, length-Cells}

pub record Holds (l : ArrayList) (xs : List (List ℕ)) : Type 0 where
  pub front : List (Option Node)
  pub used : List (Option Node)
  pub back : List (Option Node)
  pub layout : l.array ≡ front ++ (used ++ back)
  pub starts : l.start ≡ length front
  pub counts : l.num ≡ length xs
  pub sized : l.anum ≡ length l.array
  pub holds : Cells used xs

-- What a call returns for an element: its region and size, not `NULL`.
abbrev pub IsElement : Option Node → List ℕ → Type 0
IsElement none x = ⊥
IsElement (some n) x = NodeHolds n x

pub new_list-Holds : (anum : ℕ) → Holds (new_list anum) []
new_list-Holds anum = record {
  front = [];
  used = [];
  back = replicate anum none;
  layout = refl;
  starts = refl;
  counts = refl;
  sized = omega (arith, length-replicate {A = Option Node} anum none);
  holds = tt;
}

pub new-Holds : Holds new []
unfolding new
new-Holds = new_list-Holds 64

-- At least one cell behind those in use.
pub record HasRoom (l : ArrayList) (xs : List (List ℕ)) : Type 0 where
  pub front : List (Option Node)
  pub used : List (Option Node)
  pub next : Option Node
  pub back : List (Option Node)
  pub layout : l.array ≡ front ++ (used ++ next ∷ back)
  pub starts : l.start ≡ length front
  pub counts : l.num ≡ length xs
  pub sized : l.anum ≡ length l.array
  pub holds : Cells used xs

pub length_layout :
    (f u b : List (Option Node)) → length (f ++ (u ++ b)) ≡ length f + length u + length b
length_layout f u b = omega (arith, length-append f (u ++ b), length-append u b)

-- A list with the cells that an insertion adds, where there is no room.
unfoldable pub reserved : ArrayList → ArrayList
reserved l =
    if leb l.anum (l.start + l.num)
    then record l { anum = l.anum + (l.num + 1); array = l.array ++ replicate (l.num + 1) none }
    else l

pub to_int_fits : (n : ℕ) → n < 2 ^ 31 → to_int n ≡ some n
unfolding to_int
to_int_fits n h = rw (lt→ltb n (2 ^ 31) h)

pub Holds-fits : {l : ArrayList} (xs : List (List ℕ)) → Holds l xs → l.start + l.num ≤ l.anum
Holds-fits {l} xs h = omega (
  arith,
  h.sized,
  h.starts,
  h.counts,
  length-Cells h.used xs h.holds,
  ap (length {A = Option Node}) h.layout,
  length_layout h.front h.used h.back,
)

pub reserve_fits :
    (l : ArrayList)
    → l.start + l.num ≤ l.anum
    → l.anum + l.num + 1 < 2 ^ 31
    → reserve l ≡ some (reserved l)
unfolding reserve reserved
reserve_fits l inside small =
    let grows : l.anum + (l.num + 1) < 2 ^ 31 = omega (arith, small) in
    rw (to_int_fits (l.start + l.num) (omega (arith, inside, small)))
      (elim (Bool-cases (leb l.anum (l.start + l.num))) [
        | inl full ↦ rw (full, to_int_fits (l.anum + (l.num + 1)) grows) refl
        | inr free ↦ rw free refl
      ])

pub fill_node_fits :
    (ptr : List ℕ) (size : ℕ)
    → size ≤ length ptr
    → size + 1 < 2 ^ 31
    → fill_node ptr size ≡ some (new_node (take size ptr) size)
unfolding fill_node
fill_node_fits ptr size fits small =
    rw (to_int_fits (size + 1) small, le→leb size (length ptr) fits) refl

pub start-reserved : (l : ArrayList) → (reserved l).start ≡ l.start
unfolding reserved
start-reserved l = ground arith

pub num-reserved : (l : ArrayList) → (reserved l).num ≡ l.num
unfolding reserved
num-reserved l = ground arith

-- The first cell behind those in use is written.
pub write_next :
    (f u b : List (Option Node)) (c : Option Node) (i : ℕ) (n : Node)
    → i ≡ length f + length u
    → write_cell (f ++ (u ++ c ∷ b)) i n ≡ some (f ++ (u ++ some n ∷ b))
unfolding write_cell
write_next f u b c i n e = rw (
  lt→ltb i (length (f ++ (u ++ c ∷ b))) (omega (arith, length_layout f u (c ∷ b))),
  ← append_assoc f u (c ∷ b),
  set-append_length i (f ++ u) (c ∷ b) (some n) (omega (arith, length-append f u)),
  append_assoc f u (some n ∷ b),
)

-- The cell behind those in use is there, whatever the array was.
module _ {l : ArrayList} (xs : List (List ℕ)) (h : Holds l xs) where
  room_left :
      (back : List (Option Node))
      → h.back ≡ back
      → leb l.anum (l.start + l.num) ≡ false
      → HasRoom l xs
  room_left [] e full = absurd (
      ground (
        arith,
        length_layout h.front h.used h.back,
        length-Cells h.used xs h.holds,
        h.layout,
        h.starts,
        h.sized,
        h.counts,
      ))
  room_left (c ∷ back) e full = record {
    front = h.front;
    used = h.used;
    next = c;
    back = back;
    layout = rw (← e) h.layout;
    starts = h.starts;
    counts = h.counts;
    sized = h.sized;
    holds = h.holds;
  }

-- The cells that a reallocation adds are room too.
module _ {l : ArrayList} (xs : List (List ℕ)) (h : Holds l xs) (anum n : ℕ)
    (more : anum ≡ l.anum + n) (pos : 0 < n) where
  grown : ArrayList
  grown = record l { anum = anum; array = l.array ++ replicate n none }

  length-grown : anum ≡ length (l.array ++ replicate n none)
  length-grown = omega (
    arith,
    length-append l.array (replicate n none),
    length-replicate {A = Option Node} n none,
    h.sized,
  )

  layout-grown :
      l.array ++ replicate n none ≡ h.front ++ (h.used ++ (h.back ++ none ∷ replicate (n - 1) none))
  layout-grown = rw (h.layout, replicate-pos {A = Option Node} n none pos) (simp append_assoc)

  room_made : (back : List (Option Node)) → h.back ≡ back → HasRoom grown xs
  unfolding grown
  room_made [] e = record {
    front = h.front;
    used = h.used;
    next = none;
    back = replicate (n - 1) none;
    layout = rw e at layout-grown;
    starts = h.starts;
    counts = h.counts;
    sized = length-grown;
    holds = h.holds;
  }
  room_made (c ∷ back) e = record {
    front = h.front;
    used = h.used;
    next = c;
    back = back ++ none ∷ replicate (n - 1) none;
    layout = rw e at layout-grown;
    starts = h.starts;
    counts = h.counts;
    sized = length-grown;
    holds = h.holds;
  }

  -- A list that reallocates when it is full has room.
  pub grown-HasRoom :
      (full : Bool)
      → leb l.anum (l.start + l.num) ≡ full
      → HasRoom
          (if full then record l { anum = anum; array = l.array ++ replicate n none } else l)
          xs
  unfolding grown
  grown-HasRoom true e = room_made h.back refl
  grown-HasRoom false e = room_left xs h h.back refl e

pub reserved-HasRoom : {l : ArrayList} (xs : List (List ℕ)) → Holds l xs → HasRoom (reserved l) xs
unfolding reserved
reserved-HasRoom {l} xs h =
    grown-HasRoom xs h (l.anum + (l.num + 1)) (l.num + 1) refl (omega arith)
      (leb l.anum (l.start + l.num)) refl
