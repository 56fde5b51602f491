-- ===== src/Text/Compare.antt =====
-- `tf_stricmp` of tflib/tf_util.c.
use tflib.Common.{
  ℕ, ◌≡◌, refl, arith, List, [], ◌∷◌, map, ◌==◌, Bool-cases, inl, inr, ==_iff, false, ltb, ltb→lt,
}
use tflib.Common.Int.{sub_ℕ}
use tflib.ArrayList.Order.{Compares, less, same, more, Compares-cons}
use tflib.Text.{fold_case, stricmp}

difference : (m n : ℕ) (x y : List ℕ) → (m == n) ≡ false → Compares (m ∷ x) (n ∷ y) (sub_ℕ m n)
difference m n x y ne = elim (Bool-cases (ltb m n)) [
  | inl lt ↦ less (inl (ltb→lt m n lt)) (ground arith)
  | inr ge ↦ more (inl (ground arith)) (ground arith)
]

-- The comparison tells the order of the two strings with their capital letters lowered: negative
-- where the first comes before the second, positive where it comes behind, 0 where they are the
-- same.
pub stricmp-Compares : (a b : List ℕ) → Compares (map fold_case a) (map fold_case b) (stricmp a b)
unfolding stricmp
stricmp-Compares [] [] = same refl refl
stricmp-Compares [] (b ∷ bs) = less tt (omega arith)
stricmp-Compares (a ∷ as') [] = more tt (omega arith)
stricmp-Compares (a ∷ as') (b ∷ bs) = elim (Bool-cases (fold_case a == fold_case b)) [
  | inl e ↦
      rw (e, (==_iff (fold_case a) (fold_case b)).0 e)
        (Compares-cons (fold_case b) (stricmp-Compares as' bs))
  | inr ne ↦
      rw ne (difference (fold_case a) (fold_case b) (map fold_case as') (map fold_case bs) ne)
]
