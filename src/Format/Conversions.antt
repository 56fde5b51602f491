-- ===== src/Format/Conversions.antt =====
-- What one conversion of `tf_vstrprintf` of tflib/tf_string.c appends.
use tflib.Common.{Bool, not, ◌&&◌}
use tflib.Common.{
  ℕ, ◌+◌, ◌^◌, ◌<◌, ◌≡◌, refl, ap, ◌∙◌, ◌==◌, leb, ltb, if◌then◌else◌, ◌>>=◌, subst, Returns,
  Returns-bind,
}
use tflib.Common.{
  Bool-cases, Option-cases, inl, inr, Option, some, List, [], ◌∷◌, ◌++◌, length, take,
}
use tflib.Str.{Str}
use tflib.Str.Holds.{Holds, strcat2-Holds}
use tflib.Text.Split.{contains}
use tflib.Format.{
  Arg, string, number, real, text_of, append, xml_char, url_char, each_char, width_of, fill_of,
  narrow, num2strbin,
}
use tflib.Format.{print_number, print_real, print_binary, convert_arg, takes_arg, convert}
use tflib.Format.Escapes.{flat}
use tflib.Format.Appends.{Appends, append-Appends, Appends-nil, each_char-Appends}
use tflib.Format.Texts.{
  percent_text, number_text, real_text, binary_text, arg_text, conversion_text,
}

some_pair {ℓ κ} :
    {A : Type ℓ} {B : Type κ} (a a' : A) (b b' : B)
    → ◌≡◌ {A = Option (A × B)} (some (a, b)) (some (a', b'))
    → (a ≡ a') × (b ≡ b')
some_pair a a' b b' e = (cc, cc)

module _ (sprintf : List ℕ → ℕ → Arg → Option (List ℕ)) where
  number-Appends :
      (flags text : List ℕ) (lnum c n : ℕ)
      → number_text sprintf flags lnum c n ≡ some text
      → Appends text (print_number sprintf flags lnum c n)
  unfolding print_number
  number-Appends flags text lnum c n e s bs h small =
      elim (Option-cases (sprintf flags c (number (narrow lnum n)))) [
        | inl failed ↦ let e' = (rw failed at e) in cc
        | inr (t, wrote) ↦ elim (Bool-cases (leb 128 (length t))) [
          | inl long ↦ let e' = (rw (wrote, long) at e) in cc
          | inr fits ↦
              let same : t ≡ text = (let e' = (rw (wrote, fits) at e) in cc) in
              rw (wrote, fits) (rw same (append-Appends text s bs h small))
        ]
      ]

  real-Appends :
      (flags text : List ℕ) (c n : ℕ) (wide : Bool)
      → real_text sprintf flags c wide n ≡ some text
      → Appends text (print_real sprintf flags c wide n)
  unfolding print_real
  real-Appends flags text c n wide e s bs h small =
      elim (Option-cases (sprintf flags c (real wide n))) [
        | inl failed ↦ let e' = (rw failed at e) in cc
        | inr (t, wrote) ↦ elim (Bool-cases (ltb 128 (length t))) [
          | inl long ↦
              let same : take 127 t ++ (b'*' ∷ []) ≡ text =
                (let e' = (rw (wrote, long) at e) in cc) in
              rw (wrote, long) (rw same (append-Appends text s bs h small))
          | inr short ↦ elim (Bool-cases (length t == 128)) [
            | inl full ↦
                let same : take 127 t ++ (0 ∷ []) ≡ text =
                  (let e' = (rw (wrote, short, full) at e) in cc) in
                rw (wrote, short, full) (rw same (append-Appends text s bs h small))
            | inr fits ↦
                let same : t ≡ text = (let e' = (rw (wrote, short, fits) at e) in cc) in
                rw (wrote, short, fits) (rw same (append-Appends text s bs h small))
          ]
        ]
      ]

  binary-Appends :
      (flags text : List ℕ) (lnum n : ℕ)
      → binary_text sprintf flags lnum n ≡ some text
      → Appends text (print_binary sprintf flags lnum n)
  unfolding print_binary
  binary-Appends flags text lnum n e s bs h small = elim (Option-cases (width_of flags)) [
    | inl failed ↦ let e' = (rw failed at e) in cc
    | inr (col, width) ↦
        let same : num2strbin (narrow lnum n) col (fill_of flags) ≡ text =
          (let e' = (rw width at e) in cc) in
        rw width (rw same (append-Appends text s bs h small))
  ]

  arg-Appends :
      (flags text : List ℕ) (lnum c : ℕ) (arg : Arg)
      → arg_text sprintf flags lnum c arg ≡ some text
      → Appends text (convert_arg sprintf flags lnum c arg)
  unfolding convert_arg
  arg-Appends flags text lnum c (string tmp) e s bs h small = elim (Bool-cases (c == b's')) [
    | inl is_s ↦
        let same : text_of tmp ≡ text = (let e' = (rw is_s at e) in cc) in
        rw is_s (rw same (strcat2-Holds s bs text h small))
    | inr no_s ↦ elim (Bool-cases (c == b'@')) [
      | inl is_at ↦
          let same : flat xml_char (text_of tmp) ≡ text =
            (let e' = (rw (no_s, is_at) at e) in cc) in
          rw (no_s, is_at)
            (subst (λ t. Appends t (each_char xml_char (text_of tmp))) same
              (each_char-Appends xml_char (text_of tmp)) s bs h small)
      | inr no_at ↦ elim (Bool-cases (c == b'?')) [
        | inl is_query ↦
            let same : flat url_char (text_of tmp) ≡ text =
              (let e' = (rw (no_s, no_at, is_query) at e) in cc) in
            rw (no_s, no_at, is_query)
              (subst (λ t. Appends t (each_char url_char (text_of tmp))) same
                (each_char-Appends url_char (text_of tmp)) s bs h small)
        | inr no_query ↦ let e' = (rw (no_s, no_at, no_query) at e) in cc
      ]
    ]
  ]
  arg-Appends flags text lnum c (number n) e s bs h small =
      elim (Bool-cases (contains (b'd' ∷ b'o' ∷ b'u' ∷ b'x' ∷ b'X' ∷ b'c' ∷ []) c)) [
        | inl is_number ↦
            rw is_number (number-Appends flags text lnum c n (rw is_number at e) s bs h small)
        | inr no_number ↦ elim (Bool-cases (c == b'b')) [
          | inl is_b ↦
              rw (no_number, is_b)
                (binary-Appends flags text lnum n (rw (no_number, is_b) at e) s bs h small)
          | inr no_b ↦ let e' = (rw (no_number, no_b) at e) in cc
        ]
      ]
  arg-Appends flags text lnum c (real wide n) e s bs h small =
      elim (Bool-cases (
        contains (b'e' ∷ b'E' ∷ b'f' ∷ b'g' ∷ b'G' ∷ []) c
        && (if leb 1 lnum then wide else not wide))) [
          | inl is_real ↦
              rw is_real (real-Appends flags text c n wide (rw is_real at e) s bs h small)
          | inr no_real ↦ let e' = (rw no_real at e) in cc
        ]

  -- The result of a conversion.
  abbrev pub Converts : List ℕ → List Arg → Option (Str × List Arg) → List ℕ → Type 0
  Converts text args o bs = Returns o (λ r. Holds r.0 (bs ++ text) × (r.1 ≡ args))

  percent-Converts :
      (c : ℕ) (args : List Arg) (s : Str) (bs : List ℕ)
      → Holds s bs
      → length bs + length (percent_text c) + 1 < 2 ^ 31
      → Converts
          (percent_text c)
          args
          (if c == b'%' then (do s' ← append s (b'%' ∷ []); some (s', args)) else some (s, args))
          bs
  percent-Converts c args s bs h small = elim (Bool-cases (c == b'%')) [
    | inl is_percent ↦ rw is_percent (
        Returns-bind (append s (b'%' ∷ [])) _ _ _
          (append-Appends (b'%' ∷ []) s bs h (rw is_percent at small)) (λ s' h'. (h', refl)))
    | inr other ↦ rw other (Appends-nil s bs h (rw other at small), refl)
  ]

  not_taken-Converts :
      (c : ℕ) (args args' : List Arg) (s : Str) (bs text : List ℕ)
      → (percent_text c ≡ text) × (args ≡ args')
      → Holds s bs
      → length bs + length text + 1 < 2 ^ 31
      → Converts text args'
          (if c == b'%' then (do s' ← append s (b'%' ∷ []); some (s', args)) else some (s, args))
          bs
  not_taken-Converts c args args' s bs text e h small =
      let (same, left) = e in
      rw (← same, ← left) (percent-Converts c args s bs h (rw (← same) at small))

  pub convert-Converts :
      (flags text : List ℕ) (lnum c : ℕ) (args args' : List Arg) (s : Str) (bs : List ℕ)
      → conversion_text sprintf flags lnum c args ≡ some (text, args')
      → Holds s bs
      → length bs + length text + 1 < 2 ^ 31
      → Converts text args' (convert sprintf flags lnum c args s) bs
  unfolding convert
  convert-Converts flags text lnum c [] args' s bs e h small = elim (Bool-cases (takes_arg c)) [
    | inl takes ↦ let e' = (rw takes at e) in cc
    | inr not_taken ↦
        rw not_taken
          (not_taken-Converts c [] args' s bs text (some_pair _ _ _ _ (rw not_taken at e)) h small)
  ]
  convert-Converts flags text lnum c (arg ∷ args) args' s bs e h small =
      elim (Bool-cases (takes_arg c)) [
        | inl takes ↦ elim (Option-cases (arg_text sprintf flags lnum c arg)) [
          | inl failed ↦ let e' = (rw (takes, failed) at e) in cc
          | inr (t, arg_is) ↦
              let e' = (rw (takes, arg_is) at e) in
              let same : t ≡ text = cc in
              let left : args ≡ args' = (let e'' = e' in cc) in
              rw takes (
                Returns-bind (convert_arg sprintf flags lnum c arg s) _ _ _
                  (arg-Appends flags text lnum c arg (arg_is ∙ ap some same) s bs h small)
                  (λ s' h'. (h', left)))
        ]
        | inr not_taken ↦ rw not_taken (
            not_taken-Converts c (arg ∷ args) args' s bs text
              (some_pair _ _ _ _ (rw not_taken at e)) h small)
      ]
