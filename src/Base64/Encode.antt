-- ===== src/Base64/Encode.antt =====
-- The four characters of a triple in tflib/expert/base64.c, and what decoding them gives.
use tflib.Common.{ℕ, ◌+◌, ◌*◌, ◌/◌, ◌%◌, ◌<◌, ◌≡◌, refl, arith, ◌==◌, bit_and, bit_or, ◌∙◌, ◌^◌}
use tflib.Common.{some, List, [], ◌∷◌, ◌++◌, Returns, Returns-bind, append_assoc}
use tflib.Common.{leb, false}
use tflib.Common.Bits.{bit_and-mask, bit_or-shifted}
use tflib.Base64.{char_of, value_of, output_base64, decode_value, decode_loop}
use tflib.Base64.Table.{value_of-char_of, second_value, third_value, fourth_value}

-- The characters that stand for the four values of a triple.
pub record IsQuad (a b c : ℕ) (quad : List ℕ) : Type 0 where
  pub w : ℕ
  pub x : ℕ
  pub y : ℕ
  pub z : ℕ
  pub chars : quad ≡ w ∷ x ∷ y ∷ z ∷ []
  pub first : value_of w ≡ some (a / 4)
  pub second : value_of x ≡ some (a % 4 * 16 + b / 16)
  pub third : value_of y ≡ some (b % 16 * 4 + c / 64)
  pub fourth : value_of z ≡ some (c % 64)

pub output_base64-IsQuad :
    (a b c n : ℕ)
    → a < 256
    → b < 256
    → c < 256
    → Returns (output_base64 a b c n) (λ r. IsQuad a b c r.0)
unfolding output_base64
output_base64-IsQuad a b c n ha hb hc =
    rw (second_value a b hb, third_value b c hc, fourth_value c)
      (Returns-bind (char_of (a / 4)) _ (λ w. value_of w ≡ some (a / 4)) _
        (value_of-char_of (a / 4) (omega arith))
        (λ w hw.
          Returns-bind (char_of (a % 4 * 16 + b / 16)) _
            (λ x. value_of x ≡ some (a % 4 * 16 + b / 16)) _
            (value_of-char_of (a % 4 * 16 + b / 16) (omega arith))
            (λ x hx.
              Returns-bind (char_of (b % 16 * 4 + c / 64)) _
                (λ y. value_of y ≡ some (b % 16 * 4 + c / 64)) _
                (value_of-char_of (b % 16 * 4 + c / 64) (omega arith))
                (λ y hy.
                  Returns-bind (char_of (c % 64)) _ (λ z. value_of z ≡ some (c % 64)) _
                    (value_of-char_of (c % 64) (omega arith))
                    (λ z hz. record {
                      w = w;
                      x = x;
                      y = y;
                      z = z;
                      chars = refl;
                      first = hw;
                      second = hx;
                      third = hy;
                      fourth = hz;
                    })))))

-- A character that stands for a value is one step of the decoder.
module _ (c v : ℕ) (rest : List ℕ) (q p : ℕ) (out : List ℕ) (h : value_of c ≡ some v)
    (legal : v < 64) where
  pub decode_step :
      decode_loop (c ∷ rest) q p out
      ≡ decode_loop rest
          (decode_value q v p out).2
          (decode_value q v p out).1
          (decode_value q v p out).0
  unfolding decode_loop
  decode_step = rw h (rw (not_end, not_equals, not_skipped))
    where
      not_end : (v == 96) ≡ false
      not_end = ground arith

      not_equals : (v == 97) ≡ false
      not_equals = ground arith

      not_skipped : leb 98 v ≡ false
      not_skipped = ground arith

-- The bits of a byte in the two values that share it.
pub first_byte :
    (a : ℕ) (m : ℕ) → a < 256 → m < 16 → bit_or (a / 4 * 4 % 256) ((a % 4 * 16 + m) / 16) ≡ a
first_byte a m ha hm =
    let e : a / 4 * 4 % 256 ≡ a / 4 * 2 ^ 2 = omega arith in
    let e' : (a % 4 * 16 + m) / 16 ≡ a % 4 = omega arith in
    rw (e, e') (bit_or-shifted 2 (a / 4) (a % 4) (omega arith) ∙ omega arith)

pub second_byte :
    (h b m : ℕ)
    → b < 256
    → m < 4
    → bit_or (bit_and (h * 16 + b / 16) 15 * 16) ((b % 16 * 4 + m) / 4) ≡ b
second_byte h b m hb hm =
    let e : (h * 16 + b / 16) % 16 ≡ b / 16 = omega arith in
    let e' : (b % 16 * 4 + m) / 4 ≡ b % 16 = omega arith in
    rw (bit_and-mask 4 15 (h * 16 + b / 16) refl, e, e')
      (bit_or-shifted 4 (b / 16) (b % 16) (omega arith) ∙ omega arith)

pub third_byte : (h c : ℕ) → c < 256 → bit_or (bit_and (h * 4 + c / 64) 3 * 64) (c % 64) ≡ c
third_byte h c hc =
    let e : (h * 4 + c / 64) % 4 ≡ c / 64 = omega arith in
    rw (bit_and-mask 2 3 (h * 4 + c / 64) refl, e)
      (bit_or-shifted 6 (c / 64) (c % 64) (omega arith) ∙ omega arith)

-- The steps of a quad, each with the byte that it finishes.
module _ (rest : List ℕ) (out : List ℕ) where
  pub decode_first :
      (w v p : ℕ)
      → value_of w ≡ some v
      → v < 64
      → decode_loop (w ∷ rest) 0 p out ≡ decode_loop rest 1 (v * 4 % 256) out
  unfolding decode_value
  decode_first w v p h legal = rw (decode_step w v rest 0 p out h legal)

  pub decode_second :
      (x a m : ℕ)
      → value_of x ≡ some (a % 4 * 16 + m)
      → a < 256
      → m < 16
      → decode_loop (x ∷ rest) 1 (a / 4 * 4 % 256) out
        ≡ decode_loop rest 2 (bit_and (a % 4 * 16 + m) 15 * 16) (out ++ (a ∷ []))
  unfolding decode_value
  decode_second x a m h ha hm = rw (
    decode_step x (a % 4 * 16 + m) rest 1 (a / 4 * 4 % 256) out h (omega arith),
    first_byte a m ha hm,
  )

  pub decode_third :
      (y k b m : ℕ)
      → value_of y ≡ some (b % 16 * 4 + m)
      → b < 256
      → m < 4
      → decode_loop (y ∷ rest) 2 (bit_and (k * 16 + b / 16) 15 * 16) out
        ≡ decode_loop rest 3 (bit_and (b % 16 * 4 + m) 3 * 64) (out ++ (b ∷ []))
  unfolding decode_value
  decode_third y k b m h hb hm = rw (
    decode_step y (b % 16 * 4 + m) rest 2 (bit_and (k * 16 + b / 16) 15 * 16) out h (omega arith),
    second_byte k b m hb hm,
  )

  decode_fourth :
      (z k c : ℕ)
      → value_of z ≡ some (c % 64)
      → c < 256
      → decode_loop (z ∷ rest) 3 (bit_and (k * 4 + c / 64) 3 * 64) out
        ≡ decode_loop rest 0 0 (out ++ (c ∷ []))
  unfolding decode_value
  decode_fourth z k c h hc = rw (
    decode_step z (c % 64) rest 3 (bit_and (k * 4 + c / 64) 3 * 64) out h (omega arith),
    third_byte k c hc,
  )

module _ (a b c : ℕ) (ha : a < 256) (hb : b < 256) (hc : c < 256) where
  -- A quad in the text gives the three bytes that it was made of.
  pub decode_quad :
      (quad rest : List ℕ) (p : ℕ) (out : List ℕ)
      → IsQuad a b c quad
      → decode_loop (quad ++ rest) 0 p out ≡ decode_loop rest 0 0 (out ++ a ∷ b ∷ c ∷ [])
  decode_quad quad rest p out q =
      rw
        (
          q.chars,
          decode_first (q.x ∷ q.y ∷ q.z ∷ rest) out q.w (a / 4) p q.first (omega arith),
          decode_second (q.y ∷ q.z ∷ rest) out q.x a (b / 16) q.second ha (omega arith),
          decode_third (q.z ∷ rest) (out ++ (a ∷ [])) q.y (a % 4) b (c / 64) q.third hb
              (omega arith),
          decode_fourth rest ((out ++ (a ∷ [])) ++ (b ∷ [])) q.z (b % 16) c q.fourth hc,
        )
        (simp append_assoc)
