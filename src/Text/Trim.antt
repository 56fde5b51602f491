-- ===== src/Text/Trim.antt =====
-- `tf_strtrim` of tflib/tf_util.c.
use tflib.Common.{
  ℕ, ◌≡◌, refl, ap, sym, ◌∙◌, List, [], ◌∷◌, ◌++◌, true, false, Bool-cases, inl, inr,
}
use tflib.Common.{
  All, All-append, reverse, reverse-nil, reverse-cons, reverse-append, reverse-reverse,
}
use tflib.Text.{is_space, skip_spaces, trim_head, trim_tail, strtrim}

abbrev pub IsSpace : ℕ → Type 0
IsSpace c = is_space c ≡ true

abbrev pub NoSpaceFirst : List ℕ → Type 0
NoSpaceFirst [] = Unit {0}
NoSpaceFirst (c ∷ str) = is_space c ≡ false

skip_spaces_keep : (c : ℕ) (str : List ℕ) → is_space c ≡ false → skip_spaces (c ∷ str) ≡ c ∷ str
unfolding skip_spaces
skip_spaces_keep c str h = rw h

skip_spaces_skip : (c : ℕ) (str : List ℕ) → IsSpace c → skip_spaces (c ∷ str) ≡ skip_spaces str
unfolding skip_spaces
skip_spaces_skip c str h = rw h

skip_spaces-nil : skip_spaces [] ≡ []
unfolding skip_spaces
skip_spaces-nil = refl

-- What is passed over is spaces, and what is left begins with something else.
record Skipped (str out : List ℕ) : Type 0 where
  front : List ℕ
  whole : str ≡ front ++ out
  spaces : All IsSpace front
  first : NoSpaceFirst out

skip_spaces-Skipped : (str : List ℕ) → Skipped str (skip_spaces str)
skip_spaces-Skipped [] = record {
  front = [];
  whole = sym skip_spaces-nil;
  spaces = tt;
  first = rw skip_spaces-nil tt;
}
skip_spaces-Skipped (c ∷ str) = elim (Bool-cases (is_space c)) [
  | inl h ↦
      let s : Skipped str (skip_spaces str) = skip_spaces-Skipped str in
      rw (skip_spaces_skip c str h) (record {
        front = c ∷ s.front;
        whole = ap (◌∷◌ c) s.whole;
        spaces = (h, s.spaces);
        first = s.first;
      })
  | inr h ↦
      rw (skip_spaces_keep c str h) (record { front = []; whole = refl; spaces = tt; first = h })
]

trim_head-false : (str : List ℕ) → trim_head str false ≡ str
unfolding trim_head
trim_head-false [] = refl
trim_head-false (c ∷ str) = elim (Bool-cases (is_space c)) [
  | inl h ↦ rw h (ap (◌∷◌ c) (trim_head-false str))
  | inr h ↦ rw h (ap (◌∷◌ c) (trim_head-false str))
]

trim_head-true : (str : List ℕ) → trim_head str true ≡ skip_spaces str
unfolding trim_head skip_spaces
trim_head-true [] = refl
trim_head-true (c ∷ str) = elim (Bool-cases (is_space c)) [
  | inl h ↦ rw h (trim_head-true str)
  | inr h ↦ rw h (ap (◌∷◌ c) (trim_head-false str))
]

trim_tail_lem : (str : List ℕ) → trim_tail str ≡ skip_spaces str
unfolding trim_tail skip_spaces
trim_tail_lem [] = refl
trim_tail_lem (c ∷ str) = rw (trim_tail_lem str)

-- What trimming a string leaves: the string but for spaces at its head and at its tail, and neither
-- its first nor its last byte is one.
pub record Trimmed (str out : List ℕ) : Type 0 where
  pub front : List ℕ
  pub back : List ℕ
  pub whole : str ≡ front ++ (out ++ back)
  pub front_spaces : All IsSpace front
  pub back_spaces : All IsSpace back
  pub first : NoSpaceFirst out
  pub last : NoSpaceFirst (reverse out)

All-reverse : (xs : List ℕ) → All IsSpace xs → All IsSpace (reverse xs)
All-reverse [] h = rw (reverse-nil {A = ℕ}) tt
All-reverse (x ∷ xs) h =
    rw (reverse-cons x xs) (All-append IsSpace (reverse xs) (x ∷ []) (All-reverse xs h.1) (h.0, tt))

NoSpaceFirst-prefix : (out back : List ℕ) → NoSpaceFirst (out ++ back) → NoSpaceFirst out
NoSpaceFirst-prefix [] back h = tt
NoSpaceFirst-prefix (c ∷ out) back h = h

Trimmed-both :
    (str left out : List ℕ)
    → Skipped str left
    → Skipped (reverse left) out
    → Trimmed str (reverse out)
Trimmed-both str left out s t =
    let e : left ≡ reverse out ++ reverse t.front =
      sym (reverse-reverse left) ∙ ap reverse t.whole ∙ reverse-append t.front out in
    record {
      front = s.front;
      back = reverse t.front;
      whole = s.whole ∙ ap (λ u. s.front ++ u) e;
      front_spaces = s.spaces;
      back_spaces = All-reverse t.front t.spaces;
      first = NoSpaceFirst-prefix (reverse out) (reverse t.front) (rw e at s.first);
      last = rw (reverse-reverse out) t.first;
    }

-- Trimming cuts the spaces at the head and at the tail, all of them and nothing else.
pub strtrim-Trimmed : (str : List ℕ) → Trimmed str (strtrim str)
unfolding strtrim
strtrim-Trimmed str =
    rw (trim_head-true str, trim_tail_lem (reverse (skip_spaces str)))
      (Trimmed-both str (skip_spaces str) (skip_spaces (reverse (skip_spaces str)))
        (skip_spaces-Skipped str) (skip_spaces-Skipped (reverse (skip_spaces str))))
