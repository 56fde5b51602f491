-- ===== src/ArrayList/Insert.antt =====
-- `tf_list_insert` of tflib/tf_list.c, on a list that holds a sequence of strings.
use tflib.Common.{ℕ, ◌+◌, ◌-◌, ◌≤◌, ◌<◌, ◌^◌, ◌≡◌, Option, some, List, ◌∷◌, ◌++◌, arith}
use tflib.Common.{length, Returns, ap, sym, append_assoc}
use tflib.Common.{length-append, length-take, le→ltb_false, take}
use tflib.ArrayList.{Node, ArrayList, move_cells, new_node, write_cell, insert}
use tflib.ArrayList.Cells.{Cells-append, length-Cells, Split, Cells-Split, new_node-NodeHolds}
use tflib.ArrayList.Holds.{
  reserved, Holds-fits, reserve_fits, fill_node_fits, Holds, HasRoom, reserved-HasRoom,
  start-reserved, num-reserved,
}
use tflib.ArrayList.Moves.{move_up, gap, fill_gap}

module _ (l : ArrayList) (xs ys : List (List ℕ)) (bs : List ℕ) (size : ℕ) (e : size ≡ length bs)
    (room : HasRoom (reserved l) (xs ++ ys)) (s : Split room.used xs ys) where
  inserted_array : List (Option Node)
  inserted_array = (room.front ++ s.left) ++ some (new_node bs size) ∷ (s.right ++ room.back)

  room_flat : (reserved l).array ≡ (room.front ++ s.left) ++ (s.right ++ room.next ∷ room.back)
  room_flat = rw (room.layout, s.whole) (simp append_assoc)

  length-room : length xs + l.start ≡ length (room.front ++ s.left)
  length-room = omega (
    arith,
    room.starts,
    start-reserved l,
    length-append room.front s.left,
    length-Cells s.left xs s.holds_left,
  )

  inserted_gap : List (Option Node)
  inserted_gap =
      gap (room.front ++ s.left) s.right room.back room.next (length xs + l.start) (length ys)
        length-room (sym (length-Cells s.right ys s.holds_right))

  move_inserted :
      move_cells (reserved l).array (length xs + l.start + 1) (length xs + l.start) (length ys)
      ≡ some inserted_gap
  unfolding inserted_gap
  move_inserted = rw room_flat (
      move_up (room.front ++ s.left) s.right room.back room.next (length xs + l.start) (length ys)
        length-room (sym (length-Cells s.right ys s.holds_right)))

  fill_inserted :
      write_cell inserted_gap (length xs + l.start) (new_node bs size) ≡ some inserted_array
  unfolding inserted_gap inserted_array
  fill_inserted =
      fill_gap (room.front ++ s.left) s.right room.back room.next (length xs + l.start) (length ys)
        length-room (sym (length-Cells s.right ys s.holds_right)) (new_node bs size)

  inserted-Holds :
      Holds (record (reserved l) { array = inserted_array; num = l.num + 1 }) (xs ++ bs ∷ ys)
  unfolding inserted_array
  inserted-Holds = record {
    front = room.front;
    used = s.left ++ some (new_node bs size) ∷ s.right;
    back = room.back;
    layout = simp append_assoc;
    starts = room.starts;
    counts =
        omega (arith, room.counts, num-reserved l, length-append xs ys, length-append xs (bs ∷ ys));
    sized = omega (
      arith,
      room.sized,
      ap (length {A = Option Node}) room_flat,
      length-append (room.front ++ s.left) (s.right ++ room.next ∷ room.back),
      length-append s.right (room.next ∷ room.back),
      length-append (room.front ++ s.left) (some (new_node bs size) ∷ (s.right ++ room.back)),
      length-append s.right room.back,
    );
    holds = Cells-append s.left xs _ _ s.holds_left (new_node-NodeHolds bs size e, s.holds_right);
  }

-- Where `anum + num + 1` and `size + 1` are of type `int`, an insertion into a list that holds `xs ++ ys`,
-- behind `xs`, which may be its end, of `size` bytes of a region that has them, comes back, and the list then holds those bytes between `xs` and `ys`, whether or not the
-- array had to grow.
pub insert-Holds :
    (l : ArrayList) (xs ys : List (List ℕ)) (ptr : List ℕ) (size : ℕ)
    → Holds l (xs ++ ys)
    → size ≤ length ptr
    → l.anum + l.num + 1 < 2 ^ 31
    → size + 1 < 2 ^ 31
    → Returns (insert l (length xs) ptr size) (λ l'. Holds l' (xs ++ take size ptr ∷ ys))
unfolding insert
insert-Holds l xs ys ptr size h fits grows small =
    let room : HasRoom (reserved l) (xs ++ ys) = reserved-HasRoom (xs ++ ys) h in
    let s : Split room.used xs ys = Cells-Split room.used xs ys room.holds in
    let e : size ≡ length (take size ptr) = omega (arith, length-take size ptr) in
    let n : l.start + l.num - (length xs + l.start) ≡ length ys =
      omega (arith, h.counts, length-append xs ys) in
    rw
      (
        le→ltb_false l.num (length xs) (omega (arith, h.counts, length-append xs ys)),
        reserve_fits l (Holds-fits (xs ++ ys) h) grows,
        n,
        move_inserted l xs ys (take size ptr) size e room s,
        fill_node_fits ptr size fits small,
        fill_inserted l xs ys (take size ptr) size e room s,
      )
      (inserted-Holds l xs ys (take size ptr) size e room s)
