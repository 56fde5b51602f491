-- ===== src/ArrayList/Moves.antt =====
-- The two `memmove` calls of tflib/tf_list.c: one cell up before an insertion, one down at a removal.
use tflib.Common.{ℕ, zero, suc, ◌+◌, ◌<◌, ◌≡◌, refl, Option, some, List, [], ◌∷◌, ◌++◌, arith, ap}
use tflib.Common.{length, take, drop, set, append_assoc, length-append, le→leb, lt→ltb, length-take}
use tflib.Common.{take-append_length, drop-append_length}
use native.Mathlib.Numerals.{add-one}
use tflib.ArrayList.{Node, move_cells, write_cell}

module _ {ℓ} {A : Type ℓ} where
  drop-append_suc :
      (n : ℕ) (xs : List A) (c : A) (ys : List A) → n ≡ length xs → drop (n + 1) (xs ++ c ∷ ys) ≡ ys
  drop-append_suc n xs c ys e =
      rw (← append_assoc xs (c ∷ []) ys)
        (drop-append_length (n + 1) (xs ++ c ∷ []) ys (omega (arith, length-append xs (c ∷ []))))

  -- The cell that a shift up leaves double is the one that is then written.
  set-take-suc :
      (p q r : List A) (i : ℕ) (v : A)
      → i ≡ length p
      → 0 < length q
      → set (take (suc i) (p ++ q) ++ r) i v ≡ p ++ v ∷ r
  set-take-suc [] [] r i v e h = absurd (omega arith)
  set-take-suc [] (c ∷ q) r zero v e h = refl
  set-take-suc [] (c ∷ q) r (suc i) v e h = absurd (omega arith)
  set-take-suc (x ∷ p) q r zero v e h = absurd (omega arith)
  set-take-suc (x ∷ p) q r (suc i) v e h = ap (◌∷◌ x) (set-take-suc p q r i v (omega arith) h)

module _ (p s b : List (Option Node)) (c : Option Node) (i n : ℕ) (ei : i ≡ length p)
    (en : n ≡ length s) where
  pub move_down :
      move_cells (p ++ c ∷ (s ++ b)) i (i + 1) n
      ≡ some (p ++ (s ++ drop (i + n) (p ++ c ∷ (s ++ b))))
  unfolding move_cells
  move_down = rw (
    le→leb (i + n) (length (p ++ c ∷ (s ++ b)))
        (omega (arith, length-append p (c ∷ (s ++ b)), length-append s b)),
    le→leb (i + 1 + n) (length (p ++ c ∷ (s ++ b)))
        (omega (arith, length-append p (c ∷ (s ++ b)), length-append s b)),
    take-append_length i p (c ∷ (s ++ b)) ei,
    drop-append_suc i p c (s ++ b) ei,
    take-append_length n s b en,
  )

  drop_behind : drop (i + 1 + n) (p ++ (s ++ c ∷ b)) ≡ b
  drop_behind =
      let e : i + 1 + n ≡ i + n + 1 = omega arith in
      rw (← append_assoc p s (c ∷ b), e)
        (drop-append_suc (i + n) (p ++ s) c b (omega (arith, length-append p s)))

  pub gap : List (Option Node)
  gap = take (suc i) (p ++ (s ++ c ∷ b)) ++ (s ++ b)

  pub move_up : move_cells (p ++ (s ++ c ∷ b)) (i + 1) i n ≡ some gap
  unfolding move_cells gap
  move_up = rw (
    le→leb (i + 1 + n) (length (p ++ (s ++ c ∷ b)))
        (omega (arith, length-append p (s ++ c ∷ b), length-append s (c ∷ b))),
    le→leb (i + n) (length (p ++ (s ++ c ∷ b)))
        (omega (arith, length-append p (s ++ c ∷ b), length-append s (c ∷ b))),
    drop-append_length i p (s ++ c ∷ b) ei,
    take-append_length n s (c ∷ b) en,
    drop_behind,
    add-one,
  )

  pub fill_gap : (v : Node) → write_cell gap i v ≡ some (p ++ some v ∷ (s ++ b))
  unfolding write_cell gap
  fill_gap v = rw (
    lt→ltb i (length (take (suc i) (p ++ (s ++ c ∷ b)) ++ (s ++ b))) (
        omega (
          arith,
          length-append (take (suc i) (p ++ (s ++ c ∷ b))) (s ++ b),
          length-take (suc i) (p ++ (s ++ c ∷ b)),
          length-append p (s ++ c ∷ b),
          length-append s (c ∷ b),
        )),
    set-take-suc p (s ++ c ∷ b) (s ++ b) i (some v) ei (omega (arith, length-append s (c ∷ b))),
  )
