-- ===== src/ArrayList/Focus.antt =====
-- One element of a list of tflib/tf_list.c, with the cells before and behind it.
use tflib.Common.{ℕ, ◌+◌, ◌≡◌, Option, some, List, ◌∷◌, ◌++◌, arith}
use tflib.Common.{length, append_assoc, length-append, get_elem?-append_length}
use tflib.ArrayList.{Node, ArrayList, read_cell}
use tflib.ArrayList.Cells.{Cells, NodeHolds, Split, Head, Cells-Split, Cells-Head, length-Cells}
use tflib.ArrayList.Holds.{Holds}

pub record Focus (l : ArrayList) (xs : List (List ℕ)) (x : List ℕ) (ys : List (List ℕ))
    : Type 0 where
  pub front : List (Option Node)
  pub left : List (Option Node)
  pub node : Node
  pub right : List (Option Node)
  pub back : List (Option Node)
  pub layout : l.array ≡ front ++ (left ++ some node ∷ (right ++ back))
  pub starts : l.start ≡ length front
  pub counts : l.num ≡ length xs + (length ys + 1)
  pub sized : l.anum ≡ length l.array
  pub holds_left : Cells left xs
  pub holds_node : NodeHolds node x
  pub holds_right : Cells right ys

Focus-Head :
    (l : ArrayList) (xs : List (List ℕ)) (x : List ℕ) (ys : List (List ℕ))
    → (h : Holds l (xs ++ x ∷ ys)) → (s : Split h.used xs (x ∷ ys)) → Head s.right x ys
    → Focus l xs x ys
Focus-Head l xs x ys h s d = record {
  front = h.front;
  left = s.left;
  node = d.node;
  right = d.rest;
  back = h.back;
  layout = rw (h.layout, s.whole, d.whole, append_assoc s.left (some d.node ∷ d.rest) h.back);
  starts = h.starts;
  counts = omega (arith, h.counts, length-append xs (x ∷ ys));
  sized = h.sized;
  holds_left = s.holds_left;
  holds_node = d.holds_head;
  holds_right = d.holds_rest;
}

module _ {l : ArrayList} (xs : List (List ℕ)) (x : List ℕ) (ys : List (List ℕ)) where
  pub focus : Holds l (xs ++ x ∷ ys) → Focus l xs x ys
  focus h =
      let s : Split h.used xs (x ∷ ys) = Cells-Split h.used xs (x ∷ ys) h.holds in
      Focus-Head l xs x ys h s (Cells-Head s.right x ys s.holds_right)

  pub read-Focus :
      (f : Focus l xs x ys) (i : ℕ) → i ≡ length xs + l.start → read_cell l.array i ≡ some f.node
  unfolding read_cell
  read-Focus f i e = rw (
    f.layout,
    ← append_assoc f.front f.left (some f.node ∷ (f.right ++ f.back)),
    get_elem?-append_length i (f.front ++ f.left) (some f.node ∷ (f.right ++ f.back)) (
        omega (arith, f.starts, length-append f.front f.left, length-Cells f.left xs f.holds_left)),
  )

  module _ (f : Focus l xs x ys) where
    pub layout_flat : l.array ≡ (f.front ++ f.left) ++ some f.node ∷ (f.right ++ f.back)
    layout_flat = rw (append_assoc f.front f.left (some f.node ∷ (f.right ++ f.back))) f.layout

    pub length-before : length xs + l.start ≡ length (f.front ++ f.left)
    length-before =
        omega (arith, f.starts, length-append f.front f.left, length-Cells f.left xs f.holds_left)
