-- ===== src/Text/Split/Pieces.antt =====
-- What `tf_strsplit` of tflib/tf_util.c makes of a string.
use tflib.Common.{◌*◌, ◌^◌, ◌≤◌}
use tflib.Common.{ℕ, zero, suc, ◌+◌, ◌<◌, ◌≡◌, refl, ap, ◌∙◌, arith, ◌>>=◌}
use tflib.Common.{
  true, false, some, List, [], ◌∷◌, ◌++◌, length, Returns, Returns-bind, Returns-map,
}
use tflib.Common.{
  All, append-nil, take, take-append_length, length-append, append_assoc, Bool-cases, inl, inr,
}
use tflib.ArrayList.{ArrayList, new, push}
use tflib.ArrayList.Holds.{Holds, new-Holds}
use tflib.ArrayList.Ends.{Grows, push-Grows}
use tflib.Text.Split.{contains, scan, split_loop, strsplit}

-- The pieces of a string: none holds a delimiter, and one delimiter stands between two of them.
pub data Pieces (delims : List ℕ) : List ℕ → List (List ℕ) → Type 0 where
  last : {str : List ℕ} → All (λ c. contains delims c ≡ false) str → Pieces delims str (str ∷ [])
  more :
      (piece : List ℕ) (d : ℕ) (rest : List ℕ) {str : List ℕ} {xs : List (List ℕ)}
      → All (λ c. contains delims c ≡ false) piece
      → contains delims d ≡ true
      → str ≡ piece ++ d ∷ rest
      → Pieces delims rest xs
      → Pieces delims str (piece ∷ xs)

-- What stands at `*str` when the inner loop ends.
abbrev AtEnd : List ℕ → List ℕ → Type 0
AtEnd delims [] = Unit {0}
AtEnd delims (c ∷ rest) = contains delims c ≡ true

record Scanned (str delims piece rest : List ℕ) : Type 0 where
  whole : str ≡ piece ++ rest
  free : All (λ c. contains delims c ≡ false) piece
  ends : AtEnd delims rest

scan-Scanned : (str delims : List ℕ) → Scanned str delims (scan str delims).0 (scan str delims).1
unfolding scan
scan-Scanned [] delims = record { whole = refl; free = tt; ends = tt }
scan-Scanned (c ∷ str) delims = elim (Bool-cases (contains delims c)) [
  | inl h ↦ rw h (record { whole = refl; free = tt; ends = h })
  | inr h ↦
      let s : Scanned str delims (scan str delims).0 (scan str delims).1 =
        scan-Scanned str delims in
      rw h (record { whole = ap (◌∷◌ c) s.whole; free = (h, s.free); ends = s.ends })
]

-- The list holds what it held before, and then the pieces.
abbrev HoldsPieces : List (List ℕ) → List ℕ → List ℕ → ArrayList → Type 0
HoldsPieces ys str delims l = (xs : List (List ℕ)) × Holds l (ys ++ xs) × Pieces delims str xs

next_piece :
    (ys : List (List ℕ)) (str delims piece : List ℕ) (d : ℕ) (rest : List ℕ)
    → Scanned str delims piece (d ∷ rest)
    → (l : ArrayList) → HoldsPieces (ys ++ piece ∷ []) rest delims l
    → HoldsPieces ys str delims l
next_piece ys str delims piece d rest s l (xs, h, p) =
    (piece ∷ xs, rw append_assoc at h, more piece d rest s.free s.ends s.whole p)

last_piece :
    (ys : List (List ℕ)) (str delims piece : List ℕ)
    → Scanned str delims piece []
    → (l : ArrayList) → Holds l (ys ++ piece ∷ [])
    → HoldsPieces ys str delims l
last_piece ys str delims piece s l h =
    let e : str ≡ piece = s.whole ∙ append-nil piece in (piece ∷ [], h, rw e (last s.free))

-- A list that begins at 0, with at most 64 cells more than twice those in use.
abbrev Compact : ArrayList → Type 0
Compact l = (l.start ≡ 0) × (l.anum ≤ 2 * l.num + 64)

Compact-Grows : (l l' : ArrayList) → Compact l → Grows l l' → Compact l'
Compact-Grows l l' c (start, num, inl same) = (start ∙ c.0, omega (arith, c.1, num, same))
Compact-Grows l l' c (start, num, inr (grown, full)) =
    (start ∙ c.0, omega (arith, c.0, num, grown, full))

push_piece :
    (l : ArrayList) (ys : List (List ℕ)) (str delims piece rest : List ℕ)
    → Holds l ys
    → Compact l
    → 3 * (length ys + length str) + 65 < 2 ^ 31
    → Scanned str delims piece rest
    → Returns (push l str (length piece)) (λ l'. Holds l' (ys ++ piece ∷ []) × Compact l')
push_piece l ys str delims piece rest h c small s =
    let e : take (length piece) str ≡ piece =
      ap (take (length piece)) s.whole ∙ take-append_length (length piece) piece rest refl in
    let size : length str ≡ length piece + length rest =
      ap (length {A = ℕ}) s.whole ∙ length-append piece rest in
    rw e at (
      Returns-map (push l str (length piece)) _
        (λ l'. Holds l' (ys ++ take (length piece) str ∷ []) × Compact l')
        (push-Grows l ys str (length piece) h (omega (arith, size))
          (omega (arith, c.1, h.counts, small)) (omega (arith, size, small)))
        (λ l' r. (r.0, Compact-Grows l l' c r.1)))

split_loop-Pieces :
    (fuel : ℕ) (str delims : List ℕ) (l : ArrayList) (ys : List (List ℕ))
    → length str < fuel
    → Holds l ys
    → Compact l
    → 3 * (length ys + length str) + 65 < 2 ^ 31
    → Returns (split_loop fuel str delims l) (HoldsPieces ys str delims)
unfolding split_loop
split_loop-Pieces zero str delims l ys enough h c small = absurd (omega arith)
split_loop-Pieces (suc fuel) str delims l ys enough h c small =
    go (scan str delims).0 (scan str delims).1 (scan-Scanned str delims)
      (λ rest. split_loop-Pieces fuel rest delims)
  where
    go :
        (piece rest : List ℕ)
        → Scanned str delims piece rest
        → ((rest : List ℕ) (l : ArrayList) (ys : List (List ℕ))
            → length rest < fuel
            → Holds l ys
            → Compact l
            → 3 * (length ys + length rest) + 65 < 2 ^ 31
            → Returns (split_loop fuel rest delims l) (HoldsPieces ys rest delims))
        → Returns
            (push l str (length piece) >>= λ list'. elim rest [
              | [] ↦ some list'
              | c ∷ rest' ↦ split_loop fuel rest' delims list'
            ])
            (HoldsPieces ys str delims)
    go piece [] s again =
        Returns-bind (push l str (length piece)) _ (λ l'. Holds l' (ys ++ piece ∷ []) × Compact l')
          _ (push_piece l ys str delims piece [] h c small s)
          (λ l' h'. last_piece ys str delims piece s l' h'.0)
    go piece (d ∷ rest) s again =
        Returns-bind (push l str (length piece)) _ (λ l'. Holds l' (ys ++ piece ∷ []) × Compact l')
          _ (push_piece l ys str delims piece (d ∷ rest) h c small s)
          (λ l' h'.
            Returns-map (split_loop fuel rest delims l') _ _
              (again rest l' (ys ++ piece ∷ [])
                (omega (arith, ap (length {A = ℕ}) s.whole, length-append piece (d ∷ rest))) h'.0
                h'.1
                (omega (
                  arith,
                  small,
                  ap (length {A = ℕ}) s.whole,
                  length-append piece (d ∷ rest),
                  length-append ys (piece ∷ []),
                )))
              (next_piece ys str delims piece d rest s))

-- The split comes back with a list of the pieces of the string between delimiters. Three times the string's
-- length and 65 more is an `int`.
pub strsplit-Pieces :
    (str delims : List ℕ)
    → 3 * length str + 65 < 2 ^ 31
    → Returns (strsplit str delims) (λ l. (xs : List (List ℕ)) × Holds l xs × Pieces delims str xs)
unfolding strsplit new
strsplit-Pieces str delims small =
    split_loop-Pieces (length str + 1) str delims new [] (omega arith) new-Holds (refl, omega arith)
      (omega (arith, small))
