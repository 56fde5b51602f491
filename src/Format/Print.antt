-- ===== src/Format/Print.antt =====
-- What `tf_vstrprintf` of tflib/tf_string.c appends to a string.
use tflib.Common.{
  leb, ℕ, ◌+◌, ◌*◌, ◌^◌, ◌<◌, ◌≡◌, sym, ap, arith, ◌==◌, if◌then◌else◌, ◌>>=◌, subst, Returns,
  Returns-bind, Returns-map,
}
use tflib.Common.{
  ◌||◌, Bool-cases, Option-cases, inl, inr, Option, none, some, List, [], ◌∷◌, ◌++◌, length, All,
  length-append, append_assoc, append-nil,
}
use tflib.Str.{Str}
use tflib.Str.Holds.{Holds}
use tflib.Text.Split.{contains}
use tflib.Format.{Arg, string, append, xml_char, url_char}
use tflib.Format.{convert, Mode, plain, behind, is_flag, print_loop, vstrprintf}
use tflib.Format.Escapes.{
  flat, IsKept, read_xml, read_xml-flat, outside, read_url, read_url-flat, IsXmlText,
  flat-IsXmlText, IsUrlText, flat-IsUrlText, length-flat_xml, length-flat_url,
}
use tflib.Format.Appends.{Appends, append-Appends, Appends-nil, Appends-append}
use tflib.Format.Texts.{conversion_text, format_text}
use tflib.Format.Conversions.{convert-Converts}

module _ (sprintf : List ℕ → ℕ → Arg → Option (List ℕ)) where
  -- A conversion, and what is printed behind it.
  converted-Appends :
      (flags t u : List ℕ) (lnum c : ℕ) (args args' : List Arg) (format : List ℕ)
      → conversion_text sprintf flags lnum c args ≡ some (t, args')
      → Appends u (print_loop sprintf format plain args')
      → Appends (t ++ u) (λ s.
        convert sprintf flags lnum c args s >>= (λ r. print_loop sprintf format plain r.1 r.0))
  converted-Appends flags t u lnum c args args' format e go s bs h small =
      let size = length-append t u in
      Returns-bind (convert sprintf flags lnum c args s) _
        (λ r. Holds r.0 (bs ++ t) × (r.1 ≡ args')) _
        (convert-Converts sprintf flags t lnum c args args' s bs e h (omega (arith, small, size)))
        (λ r k.
          subst
            (λ a. Returns (print_loop sprintf format plain a r.0) (λ s'. Holds s' (bs ++ (t ++ u))))
            (sym k.1)
            (subst (λ x. Returns (print_loop sprintf format plain args' r.0) (λ s'. Holds s' x))
              (append_assoc bs t u)
              (go r.0 (bs ++ t) k.0 (omega (arith, small, size, length-append bs t)))))

  print_loop-Appends :
      (format text : List ℕ) (mode : Mode) (args : List Arg)
      → format_text sprintf format mode args ≡ some text
      → Appends text (print_loop sprintf format mode args)
  unfolding print_loop format_text
  print_loop-Appends [] text plain args e s bs h small =
      let none_left : [] ≡ text = cc in
      subst (λ t. Holds s (bs ++ t)) none_left (Appends-nil s bs h (omega arith))
  print_loop-Appends [] text (behind flags lnum) args e s bs h small = absurd (cc)
  print_loop-Appends (c ∷ format) text plain args e s bs h small = elim (Bool-cases (c == b'%')) [
    | inl is_percent ↦
        rw is_percent
          (print_loop-Appends format text (behind [] 0) args (rw is_percent at e) s bs h small)
    | inr other ↦ elim (Option-cases (format_text sprintf format plain args)) [
      | inl failed ↦ let e' = (rw (other, failed) at e) in cc
      | inr (t, rest) ↦
          let same : c ∷ t ≡ text = (let e' = (rw (other, rest) at e) in cc) in
          rw other (
            subst
              (λ u. Appends u (λ s'. append s' (c ∷ []) >>= print_loop sprintf format plain args))
              same
              (Appends-append (c ∷ []) t (λ s'. append s' (c ∷ []))
                (print_loop sprintf format plain args) (append-Appends (c ∷ []))
                (print_loop-Appends format t plain args rest))
              s bs h small)
    ]
  ]
  print_loop-Appends (c ∷ format) text (behind flags lnum) args e s bs h small =
      let longer : ℕ = if c == b'l' || c == b'L' then lnum + 1 else lnum in
      elim (Bool-cases (is_flag flags c)) [
        | inl flag ↦ rw flag (
            print_loop-Appends format text (behind (flags ++ (c ∷ [])) longer) args (rw flag at e) s
              bs h small)
        | inr last ↦ elim (Bool-cases (leb 30 (length flags))) [
          | inl full ↦ let e' = (rw (last, full) at e) in cc
          | inr room ↦ elim (Option-cases (conversion_text sprintf flags lnum c args)) [
            | inl failed ↦ let e' = (rw (last, room, failed) at e) in cc
            | inr ((t, args'), converted) ↦
                elim (Option-cases (format_text sprintf format plain args')) [
                  | inl failed ↦ let e' = (rw (last, room, converted, failed) at e) in cc
                  | inr (u, rest) ↦
                      let same : t ++ u ≡ text =
                        (let e' = (rw (last, room, converted, rest) at e) in cc) in
                      let go = print_loop-Appends format u plain args' rest in
                      rw (last, room)
                        (subst
                          (λ x. Appends x (λ s'.
                            convert sprintf flags lnum c args s'
                            >>= (λ r. print_loop sprintf format plain r.1 r.0)))
                          same (converted-Appends flags t u lnum c args args' format converted go) s
                          bs h small)
                ]
          ]
        ]
      ]

  -- Where a format with its arguments makes a text, with which the string stays below 2^31 bytes, the string
  -- has that text behind what it had: the characters of the format, and the conversions in their place.
  pub vstrprintf-Holds :
      (s : Str) (bs format text : List ℕ) (args : List Arg)
      → Holds s bs
      → format_text sprintf format plain args ≡ some text
      → length bs + length text + 1 < 2 ^ 31
      → Returns (vstrprintf sprintf s format args) (λ s'. Holds s' (bs ++ text))
  unfolding vstrprintf
  vstrprintf-Holds s bs format text args h e small =
      print_loop-Appends format text plain args e s bs h small

  xml_format :
      (text : List ℕ)
      → format_text sprintf (b'%' ∷ b'@' ∷ []) plain (string (some text) ∷ [])
        ≡ some (flat xml_char text)
  unfolding format_text is_flag contains
  xml_format text = ap some (append-nil (flat xml_char text))

  url_format :
      (text : List ℕ)
      → format_text sprintf (b'%' ∷ b'?' ∷ []) plain (string (some text) ∷ [])
        ≡ some (flat url_char text)
  unfolding format_text is_flag contains
  url_format text = ap some (append-nil (flat url_char text))

  -- What `%@` appends for a text without control characters reads back as the text, entities for their
  -- characters, and has no `<`, `>` or `"`; what `%?` appends for any bytes reads back, digits for their bytes,
  -- and has letters, digits, `_`, `-`, `.` and `%` only. The string stays below 2^31 bytes with six for each byte.
  pub vstrprintf-read_xml-read_url :
      (s : Str) (bs text : List ℕ)
      → Holds s bs
      → length bs + 6 * length text + 1 < 2 ^ 31
      → (All IsKept text
          → Returns (vstrprintf sprintf s (b'%' ∷ b'@' ∷ []) (string (some text) ∷ [])) (λ s'.
            (out : List ℕ) × Holds s' (bs ++ out) × (read_xml out none ≡ text) × IsXmlText out))
        × (All (λ c. c < 256) text
            → Returns (vstrprintf sprintf s (b'%' ∷ b'?' ∷ []) (string (some text) ∷ [])) (λ s'.
              (out : List ℕ) × Holds s' (bs ++ out)
              × (read_url out outside ≡ text)
              × IsUrlText out))
  vstrprintf-read_xml-read_url s bs text h small = (
    λ kept.
        Returns-map (vstrprintf sprintf s (b'%' ∷ b'@' ∷ []) (string (some text) ∷ [])) _ _
          (vstrprintf-Holds s bs (b'%' ∷ b'@' ∷ []) (flat xml_char text) (string (some text) ∷ []) h
            (xml_format text) (omega (arith, small, length-flat_xml text)))
          (λ s' h'. (flat xml_char text, h', read_xml-flat text kept, flat-IsXmlText text)),
    λ bytes.
        Returns-map (vstrprintf sprintf s (b'%' ∷ b'?' ∷ []) (string (some text) ∷ [])) _ _
          (vstrprintf-Holds s bs (b'%' ∷ b'?' ∷ []) (flat url_char text) (string (some text) ∷ []) h
            (url_format text) (omega (arith, small, length-flat_url text)))
          (λ s' h'. (flat url_char text, h', read_url-flat text bytes, flat-IsUrlText text bytes)),
  )
