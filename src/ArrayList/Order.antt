-- ===== src/ArrayList/Order.antt =====
-- `tf_list_elemcmp` of tflib/tf_list.c, the order that `tf_list_sort` and `tf_list_bsearch` hand to
-- the C library.
use tflib.Common.{
  ℕ, zero, suc, ◌<◌, ◌≡◌, refl, arith, ap, min, Option, none, some, List, [], ◌∷◌, ◌++◌,
}
use tflib.Common.{
  ltb, if◌then◌else◌, length, Returns, ◌⊎◌, inl, inr, Bool-cases, ltb→lt, Returns-map, subst, ◌∙◌,
}
use tflib.Common.Int.{ℤ, pos, negsuc, sub_ℕ, ◌<ℤ◌}
use tflib.ArrayList.{Node}
use tflib.ArrayList.Cells.{NodeHolds}

-- The loop over `i` with `n` rounds left, at the bytes that are not yet compared.
compare_loop : ℕ → List ℕ → List ℕ → ℤ → Option ℤ
compare_loop zero ao bo longer = some longer
compare_loop (suc n) (a ∷ ao) (b ∷ bo) longer =
    if ltb b a
    then some (pos 1)
    else if ltb a b
    then some (negsuc 0)
    else compare_loop n ao bo longer
compare_loop (suc n) _ _ longer = none

pub elemcmp : Node → Node → Option ℤ
elemcmp a b = compare_loop (min a.size b.size) a.ptr b.ptr (sub_ℕ a.size b.size)

-- The lexical order of strings of bytes.
abbrev pub LexLt : List ℕ → List ℕ → Type 0
LexLt [] [] = ⊥
LexLt [] (y ∷ ys) = Unit {0}
LexLt (x ∷ xs) [] = ⊥
LexLt (x ∷ xs) (y ∷ ys) = (x < y) ⊎ ((x ≡ y) × LexLt xs ys)

-- A result of the comparison says which string is the smaller one, or that they are the same.
pub data Compares : List ℕ → List ℕ → ℤ → Type 0 where
  less : {x y : List ℕ} {c : ℤ} → LexLt x y → c <ℤ pos 0 → Compares x y c
  same : {x y : List ℕ} {c : ℤ} → x ≡ y → c ≡ pos 0 → Compares x y c
  more : {x y : List ℕ} {c : ℤ} → LexLt y x → pos 0 <ℤ c → Compares x y c

pub Compares-cons : (a : ℕ) {x y : List ℕ} {c : ℤ} → Compares x y c → Compares (a ∷ x) (a ∷ y) c
Compares-cons a (less h k) = less (inr (refl, h)) k
Compares-cons a (same h k) = same (ap (◌∷◌ a) h) k
Compares-cons a (more h k) = more (inr (refl, h)) k

sub_ℕ-suc : (m n : ℕ) → sub_ℕ (suc m) (suc n) ≡ sub_ℕ m n
sub_ℕ-suc m n = ground arith

zero-sub : (n : ℕ) → sub_ℕ 0 (suc n) <ℤ pos 0
zero-sub n = ground arith

sub-zero : (n : ℕ) → pos 0 <ℤ sub_ℕ (suc n) 0
sub-zero n = ground arith

compare_loop-Compares :
    (x y slack slack' : List ℕ) (n : ℕ) (d : ℤ)
    → n ≡ min (length x) (length y)
    → d ≡ sub_ℕ (length x) (length y)
    → Returns (compare_loop n (x ++ 0 ∷ slack) (y ++ 0 ∷ slack') d) (Compares x y)
unfolding compare_loop
compare_loop-Compares [] [] slack slack' zero d m e = same refl e
compare_loop-Compares [] [] slack slack' (suc n) d m e = absurd (omega arith)
compare_loop-Compares [] (b ∷ y) slack slack' zero d m e = less tt (rw e (zero-sub (length y)))
compare_loop-Compares [] (b ∷ y) slack slack' (suc n) d m e = absurd (omega arith)
compare_loop-Compares (a ∷ x) [] slack slack' zero d m e = more tt (rw e (sub-zero (length x)))
compare_loop-Compares (a ∷ x) [] slack slack' (suc n) d m e = absurd (omega arith)
compare_loop-Compares (a ∷ x) (b ∷ y) slack slack' zero d m e = absurd (omega arith)
compare_loop-Compares (a ∷ x) (b ∷ y) slack slack' (suc n) d m e = elim (Bool-cases (ltb b a)) [
  | inl gt ↦ rw gt (more (inl (ltb→lt b a gt)) (omega arith))
  | inr ge ↦ elim (Bool-cases (ltb a b)) [
    | inl lt ↦ rw (ge, lt) (less (inl (ltb→lt a b lt)) (omega arith))
    | inr le ↦
        let eq : a ≡ b = ground arith in
        rw (ge, le)
          (Returns-map (compare_loop n (x ++ 0 ∷ slack) (y ++ 0 ∷ slack') d) (Compares x y) _
            (compare_loop-Compares x y slack slack' n d (omega arith)
              (e ∙ sub_ℕ-suc (length x) (length y)))
            (λ c k. subst (λ t. Compares (a ∷ x) (t ∷ y) c) eq (Compares-cons a k)))
  ]
]

-- The comparison of two elements comes back: negative where the first string comes before the
-- second in the lexical order of their bytes, positive where it comes behind it, and 0 where they
-- are the same.
pub elemcmp-Compares :
    (a b : Node) (x y : List ℕ)
    → NodeHolds a x
    → NodeHolds b y
    → Returns (elemcmp a b) (Compares x y)
unfolding elemcmp
elemcmp-Compares a b x y ha hb =
    rw (ha.region, hb.region)
      (compare_loop-Compares x y ha.slack hb.slack (min a.size b.size) (sub_ℕ a.size b.size)
        (omega (arith, ha.sized, hb.sized)) (rw (ha.sized, hb.sized)))
