-- ===== src/ArrayList/Middle.antt =====
-- Any place of a list: `tf_list_val`, `tf_list_insert`, `tf_list_remove` and `tf_list_over` of
-- tflib/tf_list.c, on a list that holds a sequence of strings.
use tflib.Common.{ℕ, ◌+◌, ◌-◌, ◌≤◌, ◌<◌, ◌^◌, ◌≡◌, refl, Option, none, some, List, ◌∷◌, ◌++◌, arith}
use tflib.Common.{length, Returns, lt→leb_false, lt→ltb, ap, sym, append_assoc, drop}
use tflib.Common.{
  length-append, length-drop, length-take, le→leb, take, set-append_length, ltb, Bool-cases, inl,
  inr, ◌>>=◌,
}
use tflib.ArrayList.{Node, ArrayList, val, remove, move_cells, write_cell, over, overwrite_region}
use tflib.ArrayList.Cells.{NodeHolds, Cells-append, length-Cells, new_node-NodeHolds}
use tflib.ArrayList.Holds.{Holds, IsElement, to_int_fits}
use tflib.ArrayList.Focus.{Focus, focus, read-Focus, layout_flat, length-before}
use tflib.ArrayList.Moves.{move_down}

-- The element at an index is the string there.
pub val-Holds :
    (l : ArrayList) (xs : List (List ℕ)) (x : List ℕ) (ys : List (List ℕ))
    → Holds l (xs ++ x ∷ ys)
    → Returns (val l (length xs)) (λ r. IsElement r x)
unfolding val
val-Holds l xs x ys h =
    let f : Focus l xs x ys = focus xs x ys h in
    rw
      (
        lt→leb_false l.num (length xs) (omega (arith, f.counts)),
        read-Focus xs x ys f (length xs + l.start) refl,
      )
      f.holds_node

module _ (l : ArrayList) (xs : List (List ℕ)) (x : List ℕ) (ys : List (List ℕ))
    (f : Focus l xs x ys) where
  -- What the cells behind become is of no concern, but their number is.
  removed_back : List (Option Node)
  removed_back = drop (length xs + l.start + length ys) l.array

  removed_array : List (Option Node)
  removed_array = (f.front ++ f.left) ++ (f.right ++ removed_back)

  move_removed :
      move_cells l.array (length xs + l.start) (length xs + l.start + 1) (length ys)
      ≡ some removed_array
  unfolding removed_array removed_back
  move_removed = rw (layout_flat xs x ys f) (
      move_down (f.front ++ f.left) f.right f.back (some f.node) (length xs + l.start) (length ys)
        (length-before xs x ys f) (sym (length-Cells f.right ys f.holds_right)))

  removed-Holds : Holds (record l { array = removed_array; num = l.num - 1 }) (xs ++ ys)
  unfolding removed_array removed_back
  removed-Holds = record {
    front = f.front;
    used = f.left ++ f.right;
    back = removed_back;
    layout = simp append_assoc;
    starts = f.starts;
    counts = omega (arith, f.counts, length-append xs ys);
    sized = omega (
      arith,
      f.sized,
      length-append (f.front ++ f.left) (f.right ++ removed_back),
      length-append f.right removed_back,
      length-drop (length xs + l.start + length ys) l.array,
      length-before xs x ys f,
      length-Cells f.right ys f.holds_right,
      ap (length {A = Option Node}) (layout_flat xs x ys f),
      length-append (f.front ++ f.left) (some f.node ∷ (f.right ++ f.back)),
      length-append f.right f.back,
    );
    holds = Cells-append f.left xs f.right ys f.holds_left f.holds_right;
  }

-- A removal from a list that holds `xs ++ x ∷ ys`, at the index of `x`, comes back with `x`, and
-- the list then holds `xs ++ ys`.
pub remove-Holds :
    (l : ArrayList) (xs : List (List ℕ)) (x : List ℕ) (ys : List (List ℕ))
    → Holds l (xs ++ x ∷ ys)
    → Returns (remove l (length xs)) (λ r. Holds r.0 (xs ++ ys) × IsElement r.1 x)
unfolding remove
remove-Holds l xs x ys h =
    let f : Focus l xs x ys = focus xs x ys h in
    let e : l.start + (l.num - 1) - (length xs + l.start) ≡ length ys = omega (arith, f.counts) in
    rw
      (
        lt→leb_false l.num (length xs) (omega (arith, f.counts)),
        read-Focus xs x ys f (length xs + l.start) refl,
        e,
        move_removed l xs x ys f,
      )
      (removed-Holds l xs x ys f, f.holds_node)

-- A region that is reallocated, or is large enough, holds the new string.
overwrite_region-NodeHolds :
    (n : Node) (x ptr : List ℕ) (size : ℕ)
    → NodeHolds n x
    → size ≤ length ptr
    → size + 1 < 2 ^ 31
    → Returns
        (overwrite_region n (take size ptr) size)
        (λ region. NodeHolds (record { ptr = region; size = size }) (take size ptr))
unfolding overwrite_region
overwrite_region-NodeHolds n x ptr size h fits small = elim (Bool-cases (ltb n.size size)) [
  | inl more ↦
      rw (more, to_int_fits (size + 1) small)
        (new_node-NodeHolds (take size ptr) size (omega (arith, length-take size ptr)))
  | inr less ↦
      rw
        (
          less,
          lt→ltb size (length n.ptr)
              (ground (arith, h.sized, h.region, length-append x (0 ∷ h.slack))),
        )
        (record {
          slack = drop (size + 1) n.ptr;
          region = refl;
          sized = omega (arith, length-take size ptr);
        })
]

module _ (l : ArrayList) (xs : List (List ℕ)) (x : List ℕ) (ys : List (List ℕ))
    (f : Focus l xs x ys) (n : Node) where
  overwritten_array : List (Option Node)
  overwritten_array = (f.front ++ f.left) ++ some n ∷ (f.right ++ f.back)

  write_overwritten : write_cell l.array (length xs + l.start) n ≡ some overwritten_array
  unfolding write_cell overwritten_array
  write_overwritten = rw (
    layout_flat xs x ys f,
    lt→ltb (length xs + l.start) (length ((f.front ++ f.left) ++ some f.node ∷ (f.right ++ f.back)))
        (omega (
          arith,
          length-append (f.front ++ f.left) (some f.node ∷ (f.right ++ f.back)),
          length-before xs x ys f,
        )),
    set-append_length (length xs + l.start) (f.front ++ f.left) (some f.node ∷ (f.right ++ f.back))
        (some n) (length-before xs x ys f),
  )

  overwritten-Holds :
      (bs : List ℕ)
      → NodeHolds n bs
      → Holds (record l { array = overwritten_array }) (xs ++ bs ∷ ys)
  unfolding overwritten_array
  overwritten-Holds bs h = record {
    front = f.front;
    used = f.left ++ some n ∷ f.right;
    back = f.back;
    layout = simp append_assoc;
    starts = f.starts;
    counts = omega (arith, f.counts, length-append xs (bs ∷ ys));
    sized = omega (
      arith,
      f.sized,
      ap (length {A = Option Node}) (layout_flat xs x ys f),
      length-append (f.front ++ f.left) (some f.node ∷ (f.right ++ f.back)),
      length-append (f.front ++ f.left) (some n ∷ (f.right ++ f.back)),
    );
    holds = Cells-append f.left xs _ _ f.holds_left (h, f.holds_right);
  }

-- Where `size + 1` is of type `int`, an overwrite of the string at an index, by `size` bytes of a region that has them, comes back,
-- and the list then holds those bytes there and the same strings elsewhere, whether or not the
-- element's region had to grow.
pub over-Holds :
    (l : ArrayList) (xs : List (List ℕ)) (x : List ℕ) (ys : List (List ℕ)) (ptr : List ℕ) (size : ℕ)
    → Holds l (xs ++ x ∷ ys)
    → size ≤ length ptr
    → size + 1 < 2 ^ 31
    → Returns (over l (length xs) ptr size) (λ l'. Holds l' (xs ++ take size ptr ∷ ys))
unfolding over
over-Holds l xs x ys ptr size h fits small =
    let f : Focus l xs x ys = focus xs x ys h in
    rw
      (
        lt→leb_false l.num (length xs) (omega (arith, f.counts)),
        read-Focus xs x ys f (length xs + l.start) refl,
        le→leb size (length ptr) fits,
      )
      (finish f (overwrite_region f.node (take size ptr) size)
        (overwrite_region-NodeHolds f.node x ptr size f.holds_node fits small))
  where
    finish :
        (f : Focus l xs x ys) (o : Option (List ℕ))
        → Returns o (λ region. NodeHolds (record { ptr = region; size = size }) (take size ptr))
        → Returns
            (do
              region ← o
              array ←
                  write_cell l.array (length xs + l.start) (record { ptr = region; size = size })
              some (record l { array = array }))
            (λ l'. Holds l' (xs ++ take size ptr ∷ ys))
    finish f none k = k
    finish f (some region) k =
        rw (write_overwritten l xs x ys f (record { ptr = region; size = size }))
          (overwritten-Holds l xs x ys f (record { ptr = region; size = size }) (take size ptr) k)
