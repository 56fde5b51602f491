-- ===== src/ArrayList/Whole.antt =====
-- The calls of tflib/tf_list.c that walk a whole list: `tf_list_dup`, `tf_list_clear` and
-- `tf_listl_search`.
use tflib.Common.{ℕ, ◌+◌, ◌≡◌, refl, arith, ap, ◌>>=◌, Option, none, some, List, [], ◌∷◌, ◌++◌}
use tflib.Common.{Bool, true, false, ◌==◌, if◌then◌else◌, ltb, length, map, Returns}
use tflib.Common.{
  Returns-bind, Returns-map, Bool-cases, inl, inr, le→leb, take-append_length, length-append,
}
use tflib.Common.{append-nil, append_assoc, ==_iff, le→ltb_false, lt→ltb, sym, ◌∙◌, All, ◌≢◌}
use tflib.Common.Bytes.{read_bytes, bytes_eq, bytes_eq→eq, bytes_eq_refl}
use tflib.ArrayList.{Node, ArrayList, new}
use tflib.ArrayList.Cells.{NodeHolds, Cells, length-Cells}
use tflib.ArrayList.Holds.{Holds, new_list-Holds}
use tflib.ArrayList.Serial.{live}
use tflib.Common.Bytes.{read_front}
use tflib.ArrayList.Serial.Dump.{Nodes, live-Nodes, read_node}

dup_nodes : List Node → Option (List Node)
dup_nodes [] = some []
dup_nodes (n ∷ ns) = do
  bytes ← read_bytes n.ptr (n.size + 1)
  rest ← dup_nodes ns
  some (record { ptr = bytes; size = n.size } ∷ rest)

pub dup : ArrayList → Option ArrayList
dup l = if ltb l.num 1 then some new else do
  nodes ← live l
  narray ← dup_nodes nodes
  some (record { array = map some narray; anum = l.num; start = 0; num = l.num })

-- Each element's region is freed; the array is kept.
pub clear : ArrayList → Option ArrayList
clear l = do nodes ← live l; some (record l { start = 0; num = 0 })

search_loop : List Node → ℕ → List ℕ → ℕ → Option (Option ℕ)
search_loop [] i ptr size = some none
search_loop (n ∷ ns) i ptr size =
    if n.size == size
    then (do
      a ← read_bytes n.ptr size
      b ← read_bytes ptr size
      let rest = search_loop ns (i + 1) ptr size
      if bytes_eq a b then some (some i) else rest)
    else search_loop ns (i + 1) ptr size

-- The index, or `none` for -1.
pub search : ArrayList → List ℕ → ℕ → Option (Option ℕ)
search l ptr size = do nodes ← live l; search_loop nodes 0 ptr size

-- The region with its terminator, as it is copied.
read_terminated :
    (n : Node) (x : List ℕ) → NodeHolds n x → read_bytes n.ptr (n.size + 1) ≡ some (x ++ (0 ∷ []))
read_terminated n x h =
    let e : n.ptr ≡ (x ++ (0 ∷ [])) ++ h.slack = h.region ∙ sym (append_assoc x (0 ∷ []) h.slack) in
    rw (
      h.sized,
      e,
      le→leb (length x + 1) (length ((x ++ (0 ∷ [])) ++ h.slack))
          (omega (arith, length-append (x ++ (0 ∷ [])) h.slack, length-append x (0 ∷ []))),
      take-append_length (length x + 1) (x ++ (0 ∷ [])) h.slack
          (omega (arith, length-append x (0 ∷ []))),
    )

dup_nodes-Nodes :
    (ns : List Node) (xs : List (List ℕ)) → Nodes ns xs → Returns (dup_nodes ns) (λ ms. Nodes ms xs)
unfolding dup_nodes
dup_nodes-Nodes [] [] h = tt
dup_nodes-Nodes [] (x ∷ xs) h = absurd h
dup_nodes-Nodes (n ∷ ns) [] h = absurd h
dup_nodes-Nodes (n ∷ ns) (x ∷ xs) h = rw (read_terminated n x h.0) (
    Returns-bind (dup_nodes ns)
      (λ rest. some (record { ptr = x ++ (0 ∷ []); size = n.size } ∷ rest)) (λ ms. Nodes ms xs)
      (λ ms. Nodes ms (x ∷ xs)) (dup_nodes-Nodes ns xs h.1)
      (λ ms k. (record { slack = []; region = refl; sized = (h.0).sized }, k)))

Nodes-Cells : (ns : List Node) (xs : List (List ℕ)) → Nodes ns xs → Cells (map some ns) xs
Nodes-Cells [] [] h = tt
Nodes-Cells [] (x ∷ xs) h = absurd h
Nodes-Cells (n ∷ ns) [] h = absurd h
Nodes-Cells (n ∷ ns) (x ∷ xs) h = (h.0, Nodes-Cells ns xs h.1)

dup-Holds_cons :
    (l : ArrayList) (x : List ℕ) (xs : List (List ℕ))
    → Holds l (x ∷ xs)
    → Returns (dup l) (λ l'. Holds l' (x ∷ xs))
unfolding dup
dup-Holds_cons l x xs h = rw (le→ltb_false l.num 1 (omega (arith, h.counts))) (
    Returns-bind (live l) _ (λ ns. Nodes ns (x ∷ xs)) _ (live-Nodes l (x ∷ xs) h)
      (λ ns k.
        Returns-bind (dup_nodes ns) _ (λ ms. Nodes ms (x ∷ xs)) _ (dup_nodes-Nodes ns (x ∷ xs) k)
          (λ ms c. record {
            front = [];
            used = map some ms;
            back = [];
            layout = sym (append-nil (map some ms));
            starts = refl;
            counts = h.counts;
            sized =
                h.counts ∙ sym (length-Cells (map some ms) (x ∷ xs) (Nodes-Cells ms (x ∷ xs) c));
            holds = Nodes-Cells ms (x ∷ xs) c;
          })))

-- A copy of a list holds the strings that the list holds.
pub dup-Holds :
    (l : ArrayList) (xs : List (List ℕ)) → Holds l xs → Returns (dup l) (λ l'. Holds l' xs)
unfolding dup new
dup-Holds l [] h = rw (lt→ltb l.num 1 (omega (arith, h.counts))) (new_list-Holds 64)
dup-Holds l (x ∷ xs) h = dup-Holds_cons l x xs h

-- Clearing a list comes back, and the list then holds nothing.
pub clear-Holds :
    (l : ArrayList) (xs : List (List ℕ)) → Holds l xs → Returns (clear l) (λ l'. Holds l' [])
unfolding clear
clear-Holds l xs h =
    Returns-bind (live l) _ (λ ns. Nodes ns xs) _ (live-Nodes l xs h)
      (λ ns k. record {
        front = [];
        used = [];
        back = l.array;
        layout = refl;
        starts = refl;
        counts = refl;
        sized = h.sized;
        holds = tt;
      })

-- The first place of `key`, counted from `i`; `none` where it is nowhere.
abbrev pub FirstAt : List (List ℕ) → List ℕ → ℕ → Option ℕ → Type 0
FirstAt xs key i none = All (λ x. x ≢ key) xs
FirstAt xs key i (some j) =
    (before after : List (List ℕ)) × (xs ≡ before ++ key ∷ after)
    × (j ≡ i + length before)
    × All (λ x. x ≢ key) before

FirstAt-skip :
    (x : List ℕ) (xs : List (List ℕ)) (key : List ℕ) (i : ℕ) (r : Option ℕ)
    → x ≢ key
    → FirstAt xs key (i + 1) r
    → FirstAt (x ∷ xs) key i r
FirstAt-skip x xs key i none ne h = (ne, h)
FirstAt-skip x xs key i (some j) ne (before, after, e, ej, absent) =
    (x ∷ before, after, ap (◌∷◌ x) e, omega arith, (ne, absent))

different_size :
    (n : Node) (x key : List ℕ) → NodeHolds n x → (n.size == length key) ≡ false → x ≢ key
different_size n x key h other e = ground (arith, h.sized, ap (length {A = ℕ}) e)

bytes_eq→ne : (x key : List ℕ) → bytes_eq x key ≡ false → x ≢ key
bytes_eq→ne x key h e = cc (bytes_eq_refl key, rw e at h)

compare_key :
    (x : List ℕ) (xs : List (List ℕ)) (key : List ℕ) (i : ℕ) (rest : Option (Option ℕ))
    → Returns rest (FirstAt xs key (i + 1))
    → (b : Bool) → bytes_eq x key ≡ b
    → Returns (if b then some (some i) else rest) (FirstAt (x ∷ xs) key i)
compare_key x xs key i rest later true e =
    ([], xs, ap (λ t. t ∷ xs) (bytes_eq→eq x key e), omega arith, tt)
compare_key x xs key i rest later false e =
    Returns-map rest (FirstAt xs key (i + 1)) _ later
      (λ r. FirstAt-skip x xs key i r (bytes_eq→ne x key e))

search_loop-FirstAt :
    (ns : List Node) (xs : List (List ℕ)) (i : ℕ) (key behind : List ℕ)
    → Nodes ns xs
    → Returns (search_loop ns i (key ++ behind) (length key)) (FirstAt xs key i)
unfolding search_loop
search_loop-FirstAt [] [] i key behind h = tt
search_loop-FirstAt [] (x ∷ xs) i key behind h = absurd h
search_loop-FirstAt (n ∷ ns) [] i key behind h = absurd h
search_loop-FirstAt (n ∷ ns) (x ∷ xs) i key behind h = elim (Bool-cases (n.size == length key)) [
  | inl same ↦
      let size : n.size ≡ length key = (==_iff n.size (length key)).0 same in
      rw (same, rw size at (read_node n x h.0), read_front key behind)
        (compare_key x xs key i _ (search_loop-FirstAt ns xs (i + 1) key behind h.1)
          (bytes_eq x key) refl)
  | inr other ↦ rw other (
      Returns-map (search_loop ns (i + 1) (key ++ behind) (length key)) (FirstAt xs key (i + 1)) _
        (search_loop-FirstAt ns xs (i + 1) key behind h.1)
        (λ r. FirstAt-skip x xs key i r (different_size n x key h.0 other)))
]

-- The search returns the first index of the key, or -1 where no element is the key.
pub search-FirstAt :
    (l : ArrayList) (xs : List (List ℕ)) (key behind : List ℕ)
    → Holds l xs
    → Returns (search l (key ++ behind) (length key)) (FirstAt xs key 0)
unfolding search
search-FirstAt l xs key behind h =
    Returns-bind (live l) _ (λ ns. Nodes ns xs) _ (live-Nodes l xs h)
      (λ ns. search_loop-FirstAt ns xs 0 key behind)
