-- ===== src/Hash.antt =====
-- tflib/expert/tf_hash.c: the 32-bit murmur hash, on 32-bit words. A key is the memory from its start on,
-- and `len` its length; `int` and the addresses are little-endian, of four bytes.
pub mod Words
use tflib.Common.{ℕ, zero, suc, ◌+◌, ◌-◌, ◌*◌, ◌/◌, ◌%◌, ◌^◌, bit_or, bit_xor, ◌>>=◌}
use tflib.Common.{Option, none, some, List, [], ◌∷◌}

abbrev pub murmur : ℕ
murmur = 0x5bd1_e995

-- `a * m` of an `unsigned int`.
abbrev pub times : ℕ → ℕ
times a = a * murmur % 2 ^ 32

-- `a >> n`.
abbrev pub right : ℕ → ℕ → ℕ
right a n = a / 2 ^ n

-- `k *= m; k ^= k >> r; k *= m`.
unfoldable pub mix : ℕ → ℕ
mix k = times (bit_xor (times k) (right (times k) 24))

-- A word of four bytes.
abbrev pub word_of : ℕ → ℕ → ℕ → ℕ → ℕ
word_of a b c d = bit_or (bit_or (bit_or a (b * 2 ^ 8)) (c * 2 ^ 16)) (d * 2 ^ 24) % 2 ^ 32

-- The last bytes, fewer than four, from the last one on.
unfoldable pub mix_tail : ℕ → List ℕ → ℕ → Option ℕ
mix_tail zero data' h = some h
mix_tail (suc zero) (a ∷ data') h = some (times (bit_xor h a))
mix_tail (suc (suc zero)) (a ∷ b ∷ data') h = some (times (bit_xor (bit_xor h (b * 2 ^ 8)) a))
mix_tail (suc (suc (suc zero))) (a ∷ b ∷ c ∷ data') h =
    some (times (bit_xor (bit_xor (bit_xor h (c * 2 ^ 16)) (b * 2 ^ 8)) a))
mix_tail _ _ h = none

unfoldable pub murmur32_loop : ℕ → List ℕ → ℕ → Option ℕ
murmur32_loop (suc (suc (suc (suc len)))) (a ∷ b ∷ c ∷ d ∷ data') h =
    murmur32_loop len data' (bit_xor (times h) (mix (word_of a b c d)))
murmur32_loop len data' h = mix_tail len data' h

unfoldable pub finish32 : ℕ → ℕ
finish32 h = let h₁ = times (bit_xor h (right h 13)) in bit_xor h₁ (right h₁ 15)

unfoldable pub murmur32_hash : List ℕ → ℕ → Option ℕ
murmur32_hash data' len = do
  h ← murmur32_loop len data' (bit_xor 0 (len % 2 ^ 32))
  some (finish32 h)
