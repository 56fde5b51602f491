-- ===== src/Text/Match.antt =====
-- The matches at the head and at the end of a string in tflib/tf_util.c.
use tflib.Common.{ℕ, zero, suc, ◌+◌, ◌-◌, ◌≡◌, refl, arith, ap, ◌∙◌, sym, not, ◌↔◌}
use tflib.Common.{◌≡⟨◌⟩◌, ◌∎}
use tflib.Common.{
  List, [], ◌∷◌, ◌++◌, map, ◌==◌, Bool, true, false, Bool-cases, inl, inr, ==_iff, length,
}
use tflib.Common.{
  some, Returns, lt→ltb, le→ltb_false, length-append, append_assoc, get_elem?-append_length,
  if◌then◌else◌,
}
use mathlib.Core.Path.{ap₂}
use tflib.Common.{
  reverse, reverse-nil, reverse-cons, reverse-reverse, reverse-append, map-reverse, append-nil,
  length-reverse,
}
use tflib.Text.{fold_case, from_end, strfwm, strifwm, bwm_loop, strbwm, stribwm}

-- `str` begins with `key`, each byte read through `fold`.
abbrev pub BeginsWith : (ℕ → ℕ) → List ℕ → List ℕ → Type 0
BeginsWith fold str key = (rest : List ℕ) × (map fold str ≡ map fold key ++ rest)

-- The test that both loops make.
begins : (ℕ → ℕ) → List ℕ → List ℕ → Bool
begins fold str [] = true
begins fold [] (k ∷ key) = false
begins fold (c ∷ str) (k ∷ key) = if not (fold c == fold k) then false else begins fold str key

module _ (fold : ℕ → ℕ) where
  begins_sound : (str key : List ℕ) → begins fold str key ≡ true → BeginsWith fold str key
  unfolding begins
  begins_sound str [] h = (map fold str, refl)
  begins_sound [] (k ∷ key) h = cc
  begins_sound (c ∷ str) (k ∷ key) h = elim (Bool-cases (fold c == fold k)) [
    | inl e ↦
        let (rest, r) = begins_sound str key (rw e at h) in
        (rest, ap₂ ◌∷◌ ((==_iff (fold c) (fold k)).0 e) r)
    | inr ne ↦ cc (rw ne at h)
  ]

  begins_complete :
      (str key rest : List ℕ) → map fold str ≡ map fold key ++ rest → begins fold str key ≡ true
  unfolding begins
  begins_complete str [] rest h = refl
  begins_complete [] (k ∷ key) rest h = cc
  begins_complete (c ∷ str) (k ∷ key) rest h =
      let same : (fold c == fold k) ≡ true = (==_iff (fold c) (fold k)).1 (cc) in
      rw same (begins_complete str key rest (cc))

  begins_iff : (str key : List ℕ) → (begins fold str key ≡ true) ↔ BeginsWith fold str key
  begins_iff str key = (begins_sound str key, λ b. begins_complete str key b.0 b.1)

strfwm-begins : (str key : List ℕ) → strfwm str key ≡ begins (λ c. c) str key
unfolding strfwm begins
strfwm-begins str [] = refl
strfwm-begins [] (k ∷ key) = refl
strfwm-begins (c ∷ str) (k ∷ key) = rw (strfwm-begins str key)

strifwm-begins : (str key : List ℕ) → strifwm str key ≡ begins fold_case str key
unfolding strifwm begins
strifwm-begins str [] = refl
strifwm-begins [] (k ∷ key) = refl
strifwm-begins (c ∷ str) (k ∷ key) = rw (strifwm-begins str key)

-- `tf_strfwm` is true exactly where the string begins with the key, and `tf_strifwm` exactly where
-- it does with the capital letters of both lowered.
pub strfwm-strifwm_iff :
    (str key : List ℕ)
    → ((strfwm str key ≡ true) ↔ BeginsWith (λ c. c) str key)
      × ((strifwm str key ≡ true) ↔ BeginsWith fold_case str key)
strfwm-strifwm_iff str key =
    rw (strfwm-begins str key, strifwm-begins str key)
      (begins_iff (λ c. c) str key, begins_iff fold_case str key)

-- `str` ends with `key`, each byte read through `fold`.
abbrev pub EndsWith : (ℕ → ℕ) → List ℕ → List ℕ → Type 0
EndsWith fold str key = (front : List ℕ) × (map fold str ≡ front ++ map fold key)

from_end-reverse :
    (c : ℕ) (s t : List ℕ) (i : ℕ) → length t + 1 ≡ i → from_end (reverse (c ∷ s) ++ t) i ≡ some c
from_end-reverse c s t i e =
    let len : length ((reverse s ++ (c ∷ [])) ++ t) - i ≡ length (reverse s) =
      omega (arith, length-append (reverse s ++ (c ∷ [])) t, length-append (reverse s) (c ∷ [])) in
    rw (
      reverse-cons c s,
      len,
      append_assoc (reverse s) (c ∷ []) t,
      get_elem?-append_length (length (reverse s)) (reverse s) (c ∷ t) refl,
    )

length-reverse_append :
    (c : ℕ) (s t : List ℕ) → length (reverse (c ∷ s) ++ t) ≡ length (reverse s) + 1 + length t
length-reverse_append c s t =
    rw (reverse-cons c s)
      (omega (arith, length-append (reverse s ++ (c ∷ [])) t, length-append (reverse s) (c ∷ [])))

reverse_regroup : (c : ℕ) (s t : List ℕ) → reverse (c ∷ s) ++ t ≡ reverse s ++ c ∷ t
reverse_regroup c s t = rw (reverse-cons c s) (append_assoc (reverse s) (c ∷ []) t)

-- The loop from the end tests the reversed strings from the head.
bwm_loop-begins :
    (fold : ℕ → ℕ) (s k t u : List ℕ) (i n : ℕ)
    → length t + 1 ≡ i
    → length u + 1 ≡ i
    → n ≡ length k
    → bwm_loop fold (reverse s ++ t) (reverse k ++ u) i n ≡ some (begins fold s k)
unfolding bwm_loop begins
bwm_loop-begins fold s [] t u i zero et eu en = refl
bwm_loop-begins fold s [] t u i (suc n) et eu en = absurd (omega arith)
bwm_loop-begins fold s (k ∷ ks) t u i zero et eu en = absurd (omega arith)
bwm_loop-begins fold [] (k ∷ ks) t u i (suc n) et eu en =
    rw (reverse-nil {A = ℕ}, lt→ltb (length t) i (omega arith))
bwm_loop-begins fold (c ∷ s) (k ∷ ks) t u i (suc n) et eu en =
    rw
      (
        le→ltb_false (length (reverse (c ∷ s) ++ t)) i (omega (arith, length-reverse_append c s t)),
        from_end-reverse c s t i et,
        from_end-reverse k ks u i eu,
      )
      (elim (Bool-cases (fold c == fold k)) [
        | inl e ↦ rw e (
            ap₂ (λ p q. bwm_loop fold p q (i + 1) n) (reverse_regroup c s t)
              (reverse_regroup k ks u)
            ∙ bwm_loop-begins fold s ks (c ∷ t) (k ∷ u) (i + 1) n (omega arith) (omega arith)
                (omega arith))
        | inr ne ↦ rw ne
      ])

module _ (fold : ℕ → ℕ) (str key : List ℕ) where
  bwm_loop-reverse :
      bwm_loop fold str key 1 (length key) ≡ some (begins fold (reverse str) (reverse key))
  bwm_loop-reverse =
      simp (append-nil, reverse-reverse) at
        (bwm_loop-begins fold (reverse str) (reverse key) [] [] 1 (length key) (omega arith)
          (omega arith) (sym (length-reverse key)))

  reverse-EndsWith : BeginsWith fold (reverse str) (reverse key) → EndsWith fold str key
  reverse-EndsWith (rest, e) = (
    reverse rest,
    map fold str
        ≡⟨ sym (reverse-reverse (map fold str)) ⟩ reverse (reverse (map fold str))
        ≡⟨ ap reverse
            (sym (map-reverse fold str) ∙ e ∙ ap (λ t. t ++ rest) (map-reverse fold key)) ⟩
          reverse (reverse (map fold key) ++ rest)
        ≡⟨ reverse-append (reverse (map fold key)) rest ⟩
          reverse rest ++ reverse (reverse (map fold key))
        ≡⟨ ap (λ t. reverse rest ++ t) (reverse-reverse (map fold key)) ⟩
          reverse rest ++ map fold key ∎,
  )

  EndsWith-reverse : EndsWith fold str key → BeginsWith fold (reverse str) (reverse key)
  EndsWith-reverse (front, e) = (
    reverse front,
    map fold (reverse str)
        ≡⟨ map-reverse fold str ∙ ap reverse e ⟩ reverse (front ++ map fold key)
        ≡⟨ reverse-append front (map fold key) ⟩ reverse (map fold key) ++ reverse front
        ≡⟨ ap (λ t. t ++ reverse front) (sym (map-reverse fold key)) ⟩
          map fold (reverse key) ++ reverse front ∎,
  )

  bwm_loop_iff :
      Returns (bwm_loop fold str key 1 (length key)) (λ b. (b ≡ true) ↔ EndsWith fold str key)
  bwm_loop_iff =
      let i : (begins fold (reverse str) (reverse key) ≡ true)
          ↔ BeginsWith fold (reverse str) (reverse key) =
        begins_iff fold (reverse str) (reverse key) in
      rw bwm_loop-reverse (λ h. reverse-EndsWith (i.0 h), λ h. i.1 (EndsWith-reverse h))

-- `tf_strbwm` comes back without a read out of bounds, true exactly where the string ends with the
-- key, and `tf_stribwm` true exactly where it does with the capital letters of both lowered.
pub strbwm-stribwm_iff :
    (str key : List ℕ)
    → Returns (strbwm str key) (λ b. (b ≡ true) ↔ EndsWith (λ c. c) str key)
      × Returns (stribwm str key) (λ b. (b ≡ true) ↔ EndsWith fold_case str key)
unfolding strbwm stribwm
strbwm-stribwm_iff str key = (bwm_loop_iff (λ c. c) str key, bwm_loop_iff fold_case str key)
