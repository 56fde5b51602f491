-- ===== src/ArrayList/Cells.antt =====
-- What cells in use hold: the strings that the elements of tflib/tf_list.c stand for.
use tflib.Common.{ℕ, suc, ◌≡◌, refl, Option, none, some, List, [], ◌∷◌, ◌++◌, ap}
use tflib.Common.{length}
use tflib.ArrayList.{Node, new_node}

-- The size is that of the string, and a NUL stands behind it; the region may be longer.
pub record NodeHolds (n : Node) (bs : List ℕ) : Type 0 where
  pub slack : List ℕ
  pub region : n.ptr ≡ bs ++ 0 ∷ slack
  pub sized : n.size ≡ length bs

abbrev pub Cells : List (Option Node) → List (List ℕ) → Type 0
Cells [] [] = Unit {0}
Cells (some n ∷ cs) (bs ∷ xs) = NodeHolds n bs × Cells cs xs
Cells _ _ = ⊥

pub Cells-append :
    (cs : List (Option Node)) (xs : List (List ℕ)) (ds : List (Option Node)) (ys : List (List ℕ))
    → Cells cs xs
    → Cells ds ys
    → Cells (cs ++ ds) (xs ++ ys)
Cells-append [] [] ds ys h k = k
Cells-append [] (x ∷ xs) ds ys h k = absurd h
Cells-append (none ∷ cs) xs ds ys h k = absurd h
Cells-append (some n ∷ cs) [] ds ys h k = absurd h
Cells-append (some n ∷ cs) (x ∷ xs) ds ys h k = (h.0, Cells-append cs xs ds ys h.1 k)

pub length-Cells :
    (cs : List (Option Node)) (xs : List (List ℕ)) → Cells cs xs → length cs ≡ length xs
length-Cells [] [] h = refl
length-Cells [] (x ∷ xs) h = absurd h
length-Cells (none ∷ cs) xs h = absurd h
length-Cells (some n ∷ cs) [] h = absurd h
length-Cells (some n ∷ cs) (x ∷ xs) h = ap suc (length-Cells cs xs h.1)

-- Cells that hold `xs ++ ys` fall into those that hold `xs` and those that hold `ys`.
pub record Split (cs : List (Option Node)) (xs ys : List (List ℕ)) : Type 0 where
  pub left : List (Option Node)
  pub right : List (Option Node)
  pub whole : cs ≡ left ++ right
  pub holds_left : Cells left xs
  pub holds_right : Cells right ys

Split-cons :
    (n : Node) (x : List ℕ) {cs : List (Option Node)} {xs ys : List (List ℕ)}
    → NodeHolds n x
    → Split cs xs ys
    → Split (some n ∷ cs) (x ∷ xs) ys
Split-cons n x h s = record {
  left = some n ∷ s.left;
  right = s.right;
  whole = ap (◌∷◌ (some n)) s.whole;
  holds_left = (h, s.holds_left);
  holds_right = s.holds_right;
}

pub Cells-Split :
    (cs : List (Option Node)) (xs ys : List (List ℕ)) → Cells cs (xs ++ ys) → Split cs xs ys
Cells-Split cs [] ys h = record {
  left = [];
  right = cs;
  whole = refl;
  holds_left = tt;
  holds_right = h;
}
Cells-Split [] (x ∷ xs) ys h = absurd h
Cells-Split (none ∷ cs) (x ∷ xs) ys h = absurd h
Cells-Split (some n ∷ cs) (x ∷ xs) ys h = Split-cons n x h.0 (Cells-Split cs xs ys h.1)

-- The cell of the first string.
pub record Head (cs : List (Option Node)) (x : List ℕ) (ys : List (List ℕ)) : Type 0 where
  pub node : Node
  pub rest : List (Option Node)
  pub whole : cs ≡ some node ∷ rest
  pub holds_head : NodeHolds node x
  pub holds_rest : Cells rest ys

pub Cells-Head :
    (cs : List (Option Node)) (x : List ℕ) (ys : List (List ℕ)) → Cells cs (x ∷ ys) → Head cs x ys
Cells-Head [] x ys h = absurd h
Cells-Head (none ∷ cs) x ys h = absurd h
Cells-Head (some n ∷ cs) x ys h = record {
  node = n;
  rest = cs;
  whole = refl;
  holds_head = h.0;
  holds_rest = h.1;
}

pub new_node-NodeHolds :
    (bs : List ℕ) (size : ℕ) → size ≡ length bs → NodeHolds (new_node bs size) bs
new_node-NodeHolds bs size e = record { slack = []; region = refl; sized = e }
