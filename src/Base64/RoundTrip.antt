-- ===== src/Base64/RoundTrip.antt =====
-- Encoding and decoding again in tflib/expert/base64.c, and the length that the encoder returns.
use tflib.Common.{ℕ, ◌+◌, ◌*◌, ◌/◌, ◌%◌, ◌<◌, ◌≡◌, refl, arith, ap, bit_and, ◌∙◌}
use tflib.Common.{
  some, List, [], ◌∷◌, ◌++◌, Returns, Returns-bind, Returns-map, append_assoc, append-nil, sym,
}
use tflib.Common.{length, All, length-append}
use tflib.Common.Bytes.{IsByte}
use tflib.ArrayList.Holds.{to_int_fits}
use tflib.Common.{Returns-bind, ◌<◌}
use tflib.Base64.{
  Encoded, char_of, value_of, output_base64, encode_loop, encode_base64, decode_loop, decode_base64,
  ends_data,
}
use tflib.Common.Bits.{bit_and-mask}
use tflib.Base64.Table.{value_of-char_of, second_value}
use tflib.Base64.Encode.{
  IsQuad, output_base64-IsQuad, decode_quad, decode_first, decode_second, decode_third,
}

-- What the encoder appends for `bytes`: the text, and what its decoding and the lengths are.
record Extends (bytes out : List ℕ) (e : Encoded) : Type 0 where
  text : List ℕ
  written : e.0 ≡ out ++ text
  decodes :
      (behind : List ℕ) (p : ℕ) (done : List ℕ)
      → decode_loop (text ++ 0 ∷ behind) 0 p done ≡ some (done ++ bytes)
  length_text : length text ≡ 4 * ((length bytes + 2) / 3)
  returned : e.1 ≡ length out + 4 * (length bytes / 3 + 1)

decode_end :
    (behind : List ℕ) (q p : ℕ) (done : List ℕ) → decode_loop (0 ∷ behind) q p done ≡ some done
unfolding decode_loop value_of
decode_end behind q p done = refl

-- `=` in the last place, and `==` in the last two, end the data.
decode_last_pad :
    (behind : List ℕ) (p : ℕ) (done : List ℕ) → decode_loop (61 ∷ behind) 3 p done ≡ some done
unfolding decode_loop value_of ends_data
decode_last_pad behind p done = refl

decode_two_pads :
    (behind : List ℕ) (p : ℕ) (done : List ℕ) → decode_loop (61 ∷ 61 ∷ behind) 2 p done ≡ some done
unfolding decode_loop value_of ends_data
decode_two_pads behind p done = refl

nothing_left : (out : List ℕ) → Extends [] out (out, length out + 4)
nothing_left out = record {
  text = [];
  written = sym (append-nil out);
  decodes = λ behind p done. decode_end behind 0 p done ∙ ap some (sym (append-nil done));
  length_text = omega arith;
  returned = omega arith;
}

module _ (a : ℕ) (out : List ℕ) (n : ℕ) (ha : a < 256) where
  one_left : Returns (encode_loop (a ∷ []) n out) (Extends (a ∷ []) out)
  unfolding encode_loop
  one_left =
      let e : bit_and a 3 * 16 ≡ a % 4 * 16 + 0 = omega (arith, bit_and-mask 2 3 a refl) in
      rw e (
        Returns-bind (char_of (a / 4)) _ (λ w. value_of w ≡ some (a / 4)) _
          (value_of-char_of (a / 4) (omega arith))
          (λ w hw.
            Returns-bind (char_of (a % 4 * 16 + 0)) _ (λ x. value_of x ≡ some (a % 4 * 16 + 0)) _
              (value_of-char_of (a % 4 * 16 + 0) (omega arith))
              (λ x hx. record {
                text = w ∷ x ∷ 61 ∷ 61 ∷ [];
                written = refl;
                decodes = λ behind p done. rw (
                  decode_first (x ∷ 61 ∷ 61 ∷ 0 ∷ behind) done w (a / 4) p hw (omega arith),
                  decode_second (61 ∷ 61 ∷ 0 ∷ behind) done x a 0 hx ha (omega arith),
                  decode_two_pads (0 ∷ behind) (bit_and (a % 4 * 16 + 0) 15 * 16)
                      (done ++ (a ∷ [])),
                );
                length_text = omega arith;
                returned = omega arith;
              })))

  module _ (b : ℕ) (hb : b < 256) where
    two_left_text :
        (w x y : ℕ)
        → value_of w ≡ some (a / 4)
        → value_of x ≡ some (a % 4 * 16 + b / 16)
        → value_of y ≡ some (b % 16 * 4 + 0)
        → Extends (a ∷ b ∷ []) out (out ++ w ∷ x ∷ y ∷ 61 ∷ [], length out + 4)
    two_left_text w x y hw hx hy = record {
      text = w ∷ x ∷ y ∷ 61 ∷ [];
      written = refl;
      decodes = λ behind p done.
          rw
            (
              decode_first (x ∷ y ∷ 61 ∷ 0 ∷ behind) done w (a / 4) p hw (omega arith),
              decode_second (y ∷ 61 ∷ 0 ∷ behind) done x a (b / 16) hx ha (omega arith),
              decode_third (61 ∷ 0 ∷ behind) (done ++ (a ∷ [])) y (a % 4) b 0 hy hb (omega arith),
              decode_last_pad (0 ∷ behind) (bit_and (b % 16 * 4 + 0) 3 * 64)
                  ((done ++ (a ∷ [])) ++ (b ∷ [])),
            )
            (simp append_assoc);
      length_text = omega arith;
      returned = omega arith;
    }

    two_left : Returns (encode_loop (a ∷ b ∷ []) n out) (Extends (a ∷ b ∷ []) out)
    unfolding encode_loop
    two_left =
        let e : bit_and b 15 * 4 ≡ b % 16 * 4 + 0 = omega (arith, bit_and-mask 4 15 b refl) in
        rw (second_value a b hb, e)
          (Returns-bind (char_of (a / 4)) _ (λ w. value_of w ≡ some (a / 4)) _
            (value_of-char_of (a / 4) (omega arith))
            (λ w hw.
              Returns-bind (char_of (a % 4 * 16 + b / 16)) _
                (λ x. value_of x ≡ some (a % 4 * 16 + b / 16)) _
                (value_of-char_of (a % 4 * 16 + b / 16) (omega arith))
                (λ x hx.
                  Returns-bind (char_of (b % 16 * 4 + 0)) _
                    (λ y. value_of y ≡ some (b % 16 * 4 + 0)) _
                    (value_of-char_of (b % 16 * 4 + 0) (omega arith))
                    (λ y hy. two_left_text w x y hw hx hy))))

Extends-quad :
    (a b c : ℕ) (rest out quad : List ℕ) (e : Encoded)
    → a < 256
    → b < 256
    → c < 256
    → IsQuad a b c quad
    → Extends rest (out ++ quad) e
    → Extends (a ∷ b ∷ c ∷ rest) out e
Extends-quad a b c rest out quad e ha hb hc q x = record {
  text = quad ++ x.text;
  written = x.written ∙ append_assoc out quad x.text;
  decodes = λ behind p done. rw (
    append_assoc quad x.text (0 ∷ behind),
    decode_quad a b c ha hb hc quad (x.text ++ 0 ∷ behind) p done q,
    x.decodes behind 0 (done ++ a ∷ b ∷ c ∷ []),
    append_assoc,
  );
  length_text =
      omega (arith, length-append quad x.text, ap (length {A = ℕ}) q.chars, x.length_text);
  returned = omega (arith, x.returned, length-append out quad, ap (length {A = ℕ}) q.chars);
}

encode_loop-Extends :
    (bytes out : List ℕ) (n : ℕ)
    → All IsByte bytes
    → Returns (encode_loop bytes n out) (Extends bytes out)
unfolding encode_loop
encode_loop-Extends [] out n h = nothing_left out
encode_loop-Extends (a ∷ []) out n h = one_left a out n h.0
encode_loop-Extends (a ∷ b ∷ []) out n h = two_left a out n h.0 b h.1.0
encode_loop-Extends (a ∷ b ∷ c ∷ rest) out n h =
    Returns-bind (output_base64 a b c n) _ (λ r. IsQuad a b c r.0) _
      (output_base64-IsQuad a b c n h.0 h.1.0 h.1.1.0)
      (λ r q.
        Returns-map (encode_loop rest r.1 (out ++ r.0)) (Extends rest (out ++ r.0)) _
          (encode_loop-Extends rest (out ++ r.0) r.1 h.1.1.1)
          (λ e. Extends-quad a b c rest out r.0 e h.0 h.1.0 h.1.1.0 q))

-- What the encoder leaves for a text of four bytes or more: `n` bytes are encoded in
-- `4 * ceil(n / 3)` characters, which decode to the bytes where a NUL stands behind them, and the
-- length returned is `4 * (floor(n / 3) + 1)`.
pub record RoundTrips (bytes : List ℕ) (e : Encoded) : Type 0 where
  pub decodes : (behind : List ℕ) → decode_base64 (e.0 ++ 0 ∷ behind) ≡ some bytes
  pub length_text : length e.0 ≡ 4 * ((length bytes + 2) / 3)
  pub returned : e.1 ≡ 4 * (length bytes / 3 + 1)

RoundTrips-quad :
    (a b c : ℕ) (rest quad : List ℕ) (e : Encoded)
    → a < 256
    → b < 256
    → c < 256
    → IsQuad a b c quad
    → Extends rest quad e
    → RoundTrips (a ∷ b ∷ c ∷ rest) e
unfolding decode_base64
RoundTrips-quad a b c rest quad e ha hb hc q x =
    let y : Extends (a ∷ b ∷ c ∷ rest) [] e = Extends-quad a b c rest [] quad e ha hb hc q x in
    record {
      decodes = λ behind. rw y.written (y.decodes behind 0 []);
      length_text = omega (arith, ap (length {A = ℕ}) y.written, y.length_text);
      returned = omega (arith, y.returned);
    }

-- Four bytes or more, and fewer than 1610612730, are encoded, and the text with a NUL behind it is decoded to
-- them. The length returned is that of the text, but 4 more where the number of bytes is a multiple of 3.
pub decode_base64-encode_base64 :
    (a b c d : ℕ) (rest : List ℕ)
    → All IsByte (a ∷ b ∷ c ∷ d ∷ rest)
    → length (a ∷ b ∷ c ∷ d ∷ rest) < 1610612730
    → Returns (encode_base64 (a ∷ b ∷ c ∷ d ∷ rest)) (RoundTrips (a ∷ b ∷ c ∷ d ∷ rest))
unfolding encode_base64
decode_base64-encode_base64 a b c d rest h small =
    Returns-bind (output_base64 a b c 0) _ (λ r. IsQuad a b c r.0) _
      (output_base64-IsQuad a b c 0 h.0 h.1.0 h.1.1.0)
      (λ r q.
        Returns-bind (encode_loop (d ∷ rest) r.1 r.0) _ (Extends (d ∷ rest) r.0) _
          (encode_loop-Extends (d ∷ rest) r.0 r.1 h.1.1.1)
          (λ e x.
            let whole = RoundTrips-quad a b c (d ∷ rest) r.0 e h.0 h.1.0 h.1.1.0 q x in
            rw (to_int_fits e.1 (omega (arith, whole.returned, small))) whole))
