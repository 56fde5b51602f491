-- ===== src/Format/Escapes.antt =====
-- What `%@` and `%?` of tflib/tf_string.c write is read back.
use tflib.Common.{
  ℕ, ◌+◌, ◌-◌, ◌*◌, ◌/◌, ◌%◌, ◌≤◌, ◌<◌, ◌≡◌, ◌≢◌, refl, sym, ap, ◌∙◌, arith, ◌==◌, ==_iff, leb,
  if◌then◌else◌,
}
use tflib.Common.{
  true, false, ◌&&◌, ◌||◌, Bool-cases, inl, inr, Option, none, some, List, [], ◌∷◌, ◌++◌, length,
  All, All-append, length-append, ◌⊎◌,
}
use tflib.Common.Bytes.{bytes_eq}
use tflib.Codec.{hex_digit}
use tflib.Format.{xml_char, url_char, is_unreserved}

abbrev pub flat : (ℕ → List ℕ) → List ℕ → List ℕ
flat f [] = []
flat f (c ∷ text) = f c ++ flat f text

-- The character that the name of an entity stands for, 0 for any other name.
abbrev pub entity : List ℕ → ℕ
entity name =
    if bytes_eq name (b'a' ∷ b'm' ∷ b'p' ∷ [])
    then b'&'
    else if bytes_eq name (b'l' ∷ b't' ∷ [])
    then b'<'
    else if bytes_eq name (b'g' ∷ b't' ∷ [])
    then b'>'
    else if bytes_eq name (b'q' ∷ b'u' ∷ b'o' ∷ b't' ∷ [])
    then b'"'
    else 0

-- A reader of text with entities. `some name` is behind a `&`.
unfoldable pub read_xml : List ℕ → Option (List ℕ) → List ℕ
read_xml [] at = []
read_xml (c ∷ text) none = if c == b'&' then read_xml text (some []) else c ∷ read_xml text none
read_xml (c ∷ text) (some name) =
    if c == b';' then entity name ∷ read_xml text none else read_xml text (some (name ++ (c ∷ [])))

-- A character that is not dropped.
abbrev pub IsKept : ℕ → Type 0
IsKept c = (leb c 8 || leb 14 c && leb c 31) ≡ false

read_xml-xml_char :
    (c : ℕ) (rest : List ℕ) → IsKept c → read_xml (xml_char c ++ rest) none ≡ c ∷ read_xml rest none
unfolding read_xml xml_char
read_xml-xml_char c rest kept = elim (Bool-cases (c == b'&')) [
  | inl e ↦ rw e (ap (λ x. x ∷ read_xml rest none) (sym ((==_iff c b'&').0 e)))
  | inr amp ↦ elim (Bool-cases (c == b'<')) [
    | inl e ↦ rw (amp, e) (ap (λ x. x ∷ read_xml rest none) (sym ((==_iff c b'<').0 e)))
    | inr lt ↦ elim (Bool-cases (c == b'>')) [
      | inl e ↦ rw (amp, lt, e) (ap (λ x. x ∷ read_xml rest none) (sym ((==_iff c b'>').0 e)))
      | inr gt ↦ elim (Bool-cases (c == b'"')) [
        | inl e ↦ rw (amp, lt, gt, e) (ap (λ x. x ∷ read_xml rest none) (sym ((==_iff c b'"').0 e)))
        | inr quot ↦ rw (amp, lt, gt, quot, kept) (rw amp refl)
      ]
    ]
  ]
]

pub read_xml-flat : (text : List ℕ) → All IsKept text → read_xml (flat xml_char text) none ≡ text
unfolding read_xml
read_xml-flat [] h = refl
read_xml-flat (c ∷ text) (kept, h) =
    read_xml-xml_char c (flat xml_char text) kept ∙ ap (◌∷◌ c) (read_xml-flat text h)

-- The number that a hexadecimal digit is.
abbrev pub hex_value : ℕ → ℕ
hex_value d = if leb d b'9' then d - b'0' else d - b'A' + 10

pub data UrlMode : Type 0 where
  outside : UrlMode
  first : UrlMode
  second : ℕ → UrlMode

-- A reader of percent encoding.
unfoldable pub read_url : List ℕ → UrlMode → List ℕ
read_url [] mode = []
read_url (c ∷ text) outside = if c == b'%' then read_url text first else c ∷ read_url text outside
read_url (c ∷ text) first = read_url text (second (hex_value c))
read_url (c ∷ text) (second high) = (high * 16 + hex_value c) ∷ read_url text outside

hex_value-hex_digit : (d : ℕ) → d < 16 → hex_value (hex_digit d) ≡ d
unfolding hex_digit
hex_value-hex_digit d h = ground arith

unreserved-percent : (c : ℕ) → is_unreserved c ≡ true → (c == b'%') ≡ false
unfolding is_unreserved
unreserved-percent c h = ground arith

read_url-url_char :
    (c : ℕ) (rest : List ℕ)
    → c < 256
    → read_url (url_char c ++ rest) outside ≡ c ∷ read_url rest outside
unfolding read_url url_char
read_url-url_char c rest h = elim (Bool-cases (is_unreserved c)) [
  | inl plain ↦ rw plain (rw (unreserved-percent c plain) refl)
  | inr other ↦ rw other (
      rw (hex_value-hex_digit (c / 16) (omega arith), hex_value-hex_digit (c % 16) (omega arith))
        (ap (λ x. x ∷ read_url rest outside) (omega arith)))
]

pub read_url-flat :
    (text : List ℕ) → All (λ c. c < 256) text → read_url (flat url_char text) outside ≡ text
unfolding read_url
read_url-flat [] h = refl
read_url-flat (c ∷ text) (byte, h) =
    read_url-url_char c (flat url_char text) byte ∙ ap (◌∷◌ c) (read_url-flat text h)

abbrev pub IsXmlText : List ℕ → Type 0
IsXmlText text = All (λ d. (d ≢ b'<') × (d ≢ b'>') × (d ≢ b'"')) text

-- A letter, a digit, or one of `_`, `-` and `.`.
abbrev pub IsPlain : ℕ → Type 0
IsPlain d =
    ((b'0' ≤ d) × (d ≤ b'9'))
    ⊎ (((b'A' ≤ d) × (d ≤ b'Z'))
        ⊎ (((b'a' ≤ d) × (d ≤ b'z')) ⊎ ((d ≡ b'_') ⊎ ((d ≡ b'-') ⊎ (d ≡ b'.')))))

abbrev pub IsUrlText : List ℕ → Type 0
IsUrlText text = All (λ d. IsPlain d ⊎ (d ≡ b'%')) text

unreserved-IsPlain : (c : ℕ) → is_unreserved c ≡ true → IsPlain c
unfolding is_unreserved
unreserved-IsPlain c h = ground arith

xml_char-IsXmlText : (c : ℕ) → IsXmlText (xml_char c)
unfolding xml_char
xml_char-IsXmlText c = ground arith

pub flat-IsXmlText : (text : List ℕ) → IsXmlText (flat xml_char text)
flat-IsXmlText [] = tt
flat-IsXmlText (c ∷ text) =
    All-append _ (xml_char c) (flat xml_char text) (xml_char-IsXmlText c) (flat-IsXmlText text)

hex_digit-unreserved : (d : ℕ) → d < 16 → is_unreserved (hex_digit d) ≡ true
unfolding is_unreserved hex_digit
hex_digit-unreserved d h = ground arith

url_char-IsUrlText : (c : ℕ) → c < 256 → IsUrlText (url_char c)
unfolding url_char
url_char-IsUrlText c h = elim (Bool-cases (is_unreserved c)) [
  | inl plain ↦ rw plain (inl (unreserved-IsPlain c plain), tt)
  | inr other ↦
      let high = hex_digit-unreserved (c / 16) (omega arith) in
      let low = hex_digit-unreserved (c % 16) (omega arith) in
      rw other (inr refl, (inl (unreserved-IsPlain _ high), (inl (unreserved-IsPlain _ low), tt)))
]

pub flat-IsUrlText : (text : List ℕ) → All (λ c. c < 256) text → IsUrlText (flat url_char text)
flat-IsUrlText [] h = tt
flat-IsUrlText (c ∷ text) (byte, h) =
    All-append _ (url_char c) (flat url_char text) (url_char-IsUrlText c byte)
      (flat-IsUrlText text h)

length-xml_char : (c : ℕ) → length (xml_char c) ≤ 6
unfolding xml_char
length-xml_char c = ground arith

pub length-flat_xml : (text : List ℕ) → length (flat xml_char text) ≤ 6 * length text
length-flat_xml [] = omega arith
length-flat_xml (c ∷ text) = omega (
  arith,
  length-append (xml_char c) (flat xml_char text),
  length-xml_char c,
  length-flat_xml text,
)

length-url_char : (c : ℕ) → length (url_char c) ≤ 3
unfolding url_char
length-url_char c = ground arith

pub length-flat_url : (text : List ℕ) → length (flat url_char text) ≤ 6 * length text
length-flat_url [] = omega arith
length-flat_url (c ∷ text) = omega (
  arith,
  length-append (url_char c) (flat url_char text),
  length-url_char c,
  length-flat_url text,
)
