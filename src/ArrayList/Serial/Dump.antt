-- ===== src/ArrayList/Serial/Dump.antt =====
-- What `tf_list_dump` of tflib/tf_list.c writes.
use tflib.Common.{ℕ, zero, suc, ◌+◌, ◌^◌, ◌≤◌, ◌<◌, ◌≡◌, refl, arith, ap}
use tflib.Common.{
  ◌∙◌, Option, none, some, List, [], ◌∷◌, ◌++◌, length, All, Returns, sym, append-nil, append_assoc,
}
use tflib.Common.{
  get_elem?-append_length, length-append, take-append_length, Returns-bind, Returns-map, le→leb,
}
use tflib.Common.Bytes.{read_bytes}
use tflib.Vnum.{set_vnum, vnum_size}
use tflib.Vnum.RoundTrip.{Encodes, set_vnum-Encodes}
use tflib.ArrayList.{Node, ArrayList, read_cell}
use tflib.ArrayList.Cells.{NodeHolds, Cells}
use tflib.ArrayList.Holds.{Holds, to_int_fits}
use tflib.ArrayList.Serial.{read_cells, live, dump_size, put_bytes, dump_loop, dump}

-- The strings `xs` as one run of bytes: each behind the number of its bytes.
pub data Serial : List (List ℕ) → List ℕ → Type 0 where
  nothing : Serial [] []
  item :
      (x : List ℕ) {xs : List (List ℕ)} (v rest : List ℕ) {bs : List ℕ}
      → Encodes (length x) v
      → bs ≡ v ++ (x ++ rest)
      → Serial xs rest
      → Serial (x ∷ xs) bs

abbrev pub Nodes : List Node → List (List ℕ) → Type 0
Nodes [] [] = Unit {0}
Nodes (n ∷ ns) (x ∷ xs) = NodeHolds n x × Nodes ns xs
Nodes _ _ = ⊥

read_cells-Cells :
    (p u b : List (Option Node)) (xs : List (List ℕ)) (i n : ℕ)
    → i ≡ length p
    → n ≡ length xs
    → Cells u xs
    → Returns (read_cells (p ++ (u ++ b)) i n) (λ ns. Nodes ns xs)
unfolding read_cells read_cell
read_cells-Cells p [] b [] i zero ei en h = tt
read_cells-Cells p [] b [] i (suc n) ei en h = absurd (omega arith)
read_cells-Cells p [] b (x ∷ xs) i n ei en h = absurd h
read_cells-Cells p (none ∷ u) b xs i n ei en h = absurd h
read_cells-Cells p (some c ∷ u) b [] i n ei en h = absurd h
read_cells-Cells p (some c ∷ u) b (x ∷ xs) i zero ei en h = absurd (omega arith)
read_cells-Cells p (some c ∷ u) b (x ∷ xs) i (suc n) ei en h =
    rw (get_elem?-append_length i p (some c ∷ (u ++ b)) ei) (
      Returns-bind (read_cells (p ++ some c ∷ (u ++ b)) (i + 1) n) (λ rest. some (c ∷ rest))
        (λ ns. Nodes ns xs) (λ ns. Nodes ns (x ∷ xs))
        (rw (append_assoc p (some c ∷ []) (u ++ b)) at (
          read_cells-Cells (p ++ some c ∷ []) u b xs (i + 1) n
            (omega (arith, length-append p (some c ∷ []))) (omega arith) h.1))
        (λ ns k. (h.0, k)))

pub live-Nodes :
    (l : ArrayList) (xs : List (List ℕ)) → Holds l xs → Returns (live l) (λ ns. Nodes ns xs)
unfolding live
live-Nodes l xs h =
    rw h.layout (read_cells-Cells h.front h.used h.back xs l.start l.num h.starts h.counts h.holds)

-- The bytes that `tf_list_dump` reckons with.
abbrev pub total_size : List (List ℕ) → ℕ
total_size [] = 0
total_size (x ∷ xs) = length x + 4 + total_size xs

dump_size-Nodes :
    (ns : List Node) (xs : List (List ℕ)) (t : ℕ)
    → Nodes ns xs
    → t + total_size xs < 2 ^ 31
    → dump_size ns t ≡ some (t + total_size xs)
unfolding dump_size
dump_size-Nodes [] [] t h fits = ground arith
dump_size-Nodes [] (x ∷ xs) t h fits = absurd h
dump_size-Nodes (n ∷ ns) [] t h fits = absurd h
dump_size-Nodes (n ∷ ns) (x ∷ xs) t h fits =
    let e : n.size ≡ length x = (h.0).sized in
    rw
      (
        to_int_fits (t + (n.size + 4)) (omega arith),
        dump_size-Nodes ns xs (t + (n.size + 4)) h.1 (omega arith),
      )
      (ap some (omega arith))

pub put_bytes_fits :
    (limit : ℕ) (buf bytes : List ℕ)
    → length buf + length bytes ≤ limit
    → put_bytes limit buf bytes ≡ some (buf ++ bytes)
unfolding put_bytes
put_bytes_fits limit buf bytes h = rw (le→leb (length buf + length bytes) limit h)

pub read_node : (n : Node) (x : List ℕ) → NodeHolds n x → read_bytes n.ptr n.size ≡ some x
read_node n x h = rw (
  h.sized,
  h.region,
  le→leb (length x) (length (x ++ 0 ∷ h.slack)) (omega (arith, length-append x (0 ∷ h.slack))),
  take-append_length (length x) x (0 ∷ h.slack) refl,
)

vnum_size_small : (n : ℕ) → n < 2 ^ 28 → vnum_size n ≤ 4
unfolding vnum_size
vnum_size_small n h = ground arith

-- What a run of the loop appends to the bytes already written.
abbrev Appends : List ℕ → List (List ℕ) → List ℕ → Type 0
Appends buf xs out = (bs : List ℕ) × (out ≡ buf ++ bs) × Serial xs bs

dump_loop-Nodes :
    (ns : List Node) (xs : List (List ℕ)) (limit : ℕ) (buf : List ℕ)
    → Nodes ns xs
    → All (λ x. length x < 2 ^ 28) xs
    → length buf + total_size xs ≤ limit
    → Returns (dump_loop ns limit buf) (Appends buf xs)
unfolding dump_loop
dump_loop-Nodes [] [] limit buf h small fits = ([], sym (append-nil buf), nothing)
dump_loop-Nodes [] (x ∷ xs) limit buf h small fits = absurd h
dump_loop-Nodes (n ∷ ns) [] limit buf h small fits = absurd h
dump_loop-Nodes (n ∷ ns) (x ∷ xs) limit buf h small fits =
    Returns-bind (set_vnum n.size) _ (Encodes (length x)) (Appends buf (x ∷ xs))
      (rw (h.0).sized (set_vnum-Encodes (length x) (omega (arith, small.0))))
      (λ v e.
        let short : length v ≤ 4 =
          omega (arith, e.sized (omega (arith, small.0)), vnum_size_small (length x) small.0) in
        rw
          (
            put_bytes_fits limit buf v (omega arith),
            read_node n x h.0,
            put_bytes_fits limit (buf ++ v) x (omega (arith, length-append buf v)),
          )
          (Returns-map (dump_loop ns limit ((buf ++ v) ++ x)) (Appends ((buf ++ v) ++ x) xs) _
            (dump_loop-Nodes ns xs limit ((buf ++ v) ++ x) h.1 small.1
              (omega (arith, length-append (buf ++ v) x, length-append buf v)))
            (λ out a. (v ++ (x ++ a.0), a.1 ∙ simp append_assoc, item x v a.0 e refl a.2))))

-- A list whose strings are shorter than 2^28 bytes, and whose dump is reckoned below 2^31 - 1, is
-- dumped: each string behind its size, and nothing else.
pub dump-Holds :
    (l : ArrayList) (xs : List (List ℕ))
    → Holds l xs
    → All (λ x. length x < 2 ^ 28) xs
    → total_size xs + 1 < 2 ^ 31
    → Returns (dump l) (Serial xs)
unfolding dump
dump-Holds l xs h small fits =
    Returns-bind (live l) _ (λ ns. Nodes ns xs) (Serial xs) (live-Nodes l xs h)
      (λ ns k.
        rw
          (
            dump_size-Nodes ns xs 0 k (omega arith),
            to_int_fits (0 + total_size xs + 1) (omega (arith, fits)),
          )
          (Returns-map (dump_loop ns (0 + total_size xs + 1) []) (Appends [] xs) (Serial xs)
            (dump_loop-Nodes ns xs (0 + total_size xs + 1) [] k small (omega arith))
            (λ out a. rw a.1 a.2)))
