-- ===== src/Hash/Words.antt =====
-- What the hashes of tflib/expert/tf_hash.c read, and what they return.
use tflib.Common.{ℕ, ◌%◌, ◌^◌, ◌<◌, ◌≡◌, refl, arith, bit_xor, some, List, [], ◌∷◌, ◌++◌}
use tflib.Common.{length, Returns, Returns-value}
use tflib.Common.Bits.{bit_xor-lt}
use tflib.Hash.{times, right, mix, word_of, mix_tail, murmur32_loop, finish32, murmur32_hash}

finish32-word : (h : ℕ) → h < 2 ^ 32 → finish32 h < 2 ^ 32
unfolding finish32
finish32-word h k =
    let h₁ = times (bit_xor h (right h 13)) in
    bit_xor-lt 32 h₁ (right h₁ 15) (omega arith) (omega arith)

mix-word : (k : ℕ) → mix k < 2 ^ 32
unfolding mix
mix-word k = omega arith

murmur32_loop-word :
    (key behind : List ℕ) (h : ℕ)
    → h < 2 ^ 32
    → Returns
        (murmur32_loop (length key) (key ++ behind) h)
        (λ r. (r < 2 ^ 32) × (murmur32_loop (length key) key h ≡ some r))
unfolding murmur32_loop mix_tail
murmur32_loop-word [] behind h k = (k, refl)
murmur32_loop-word (a ∷ []) behind h k = (omega arith, refl)
murmur32_loop-word (a ∷ b ∷ []) behind h k = (omega arith, refl)
murmur32_loop-word (a ∷ b ∷ c ∷ []) behind h k = (omega arith, refl)
murmur32_loop-word (a ∷ b ∷ c ∷ d ∷ key) behind h k =
    murmur32_loop-word key behind (bit_xor (times h) (mix (word_of a b c d)))
      (bit_xor-lt 32 (times h) (mix (word_of a b c d)) (omega arith) (mix-word (word_of a b c d)))

-- The 32-bit hash of a key comes back, whatever lies behind the key, is the same for each of these, and
-- is a 32-bit word.
pub murmur32_hash-word :
    (key behind : List ℕ)
    → Returns
        (murmur32_hash (key ++ behind) (length key))
        (λ r. (r < 2 ^ 32) × (murmur32_hash key (length key) ≡ some r))
unfolding murmur32_hash
murmur32_hash-word key behind =
    let start = bit_xor 0 (length key % 2 ^ 32) in
    let (h, from_all, (fits, from_key)) =
      Returns-value (murmur32_loop (length key) (key ++ behind) start) _ (
        murmur32_loop-word key behind start
          (bit_xor-lt 32 0 (length key % 2 ^ 32) (omega arith) (omega arith))) in
    rw (from_all, from_key) (finish32-word h fits, refl)
