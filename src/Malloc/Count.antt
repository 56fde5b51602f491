-- ===== src/Malloc/Count.antt =====
-- What tflib/tf_malloc.c counts is the sum over the blocks that are held.
use tflib.Common.{lt→leb_false}
use tflib.Common.{
  ℕ, ◌+◌, ◌-◌, ◌*◌, ◌/◌, ◌%◌, ◌^◌, ◌<◌, ◌≡◌, ◌≢◌, refl, arith, bit_and, ◌==◌, ==_iff,
}
use tflib.Common.{Bool-cases, inl, inr, ◌⊎◌, false, List, [], ◌∷◌, All, Returns, Returns-bind}
use tflib.Common.Bits.{bit_and-mask}
use tflib.Malloc.{Allocator, padded_size, stat_alloc, stat_free, alloc, take_block, realloc, free}

-- A size rounded up to a multiple of 8.
abbrev pub round_up : ℕ → ℕ
round_up n = (n + 7) / 8 * 8

-- What the blocks take: each its size and the word in front, rounded up.
abbrev pub total : List (ℕ × ℕ) → ℕ
total [] = 0
total (b ∷ rest) = round_up (b.1 + 8) + total rest

abbrev pub HasBlock : List (ℕ × ℕ) → ℕ → Type 0
HasBlock [] realptr = ⊥
HasBlock (b ∷ rest) realptr = (b.0 ≡ realptr) ⊎ HasBlock rest realptr

-- The sizes are 64-bit words, and the count is what the blocks take, modulo 2^64.
pub record IsCounted (a : Allocator) : Type 0 where
  pub sizes : All (λ b. b.1 < 2 ^ 64) a.blocks
  pub counted : a.used_memory ≡ total a.blocks % 2 ^ 64

padded_size-round_up : (n : ℕ) → n < 2 ^ 64 → padded_size n ≡ round_up n % 2 ^ 64
unfolding padded_size
padded_size-round_up n h =
    let e : bit_and n 7 ≡ n % 8 = bit_and-mask 3 7 n refl in
    elim (Bool-cases (bit_and n 7 == 0)) [
      | inl z ↦ rw z (omega (arith, e, (==_iff (bit_and n 7) 0).0 z))
      | inr nz ↦ rw nz (ground (arith, e))
    ]

padded_size-prefix :
    (s : ℕ) → s < 2 ^ 64 → padded_size ((s + 8) % 2 ^ 64) ≡ round_up (s + 8) % 2 ^ 64
padded_size-prefix s h = omega (arith, padded_size-round_up ((s + 8) % 2 ^ 64) (omega arith))

Taken : List (ℕ × ℕ) → ℕ × List (ℕ × ℕ) → Type 0
Taken bs r =
    (total bs ≡ round_up (r.0 + 8) + total r.1) × (r.0 < 2 ^ 64) × All (λ b. b.1 < 2 ^ 64) r.1

take_block-Taken :
    (bs : List (ℕ × ℕ)) (p : ℕ)
    → HasBlock bs p
    → All (λ b. b.1 < 2 ^ 64) bs
    → Returns (take_block bs p) (Taken bs)
unfolding take_block Taken
take_block-Taken [] p has h = elim has [ ]
take_block-Taken ((q, s) ∷ rest) p has h = elim (Bool-cases (q == p)) [
  | inl e ↦ rw e (refl, h.0, h.1)
  | inr ne ↦
      let below : HasBlock rest p = elim has [ inl e ↦ absurd (ground arith) | inr b ↦ b ] in
      rw ne (
        Returns-bind (take_block rest p) _ (Taken rest) (Taken ((q, s) ∷ rest))
          (take_block-Taken rest p below h.1) (λ r k. (omega (arith, k.0), k.1, (h.0, k.2))))
]

alloc-IsCounted :
    (got : ℕ) (a : Allocator) (size : ℕ)
    → IsCounted a
    → got ≢ 0
    → size + 8 < 2 ^ 64
    → Returns (alloc got a size) (λ r. IsCounted r.0)
unfolding alloc stat_alloc
alloc-IsCounted got a size c ne h = elim (Bool-cases (got == 0)) [
  | inl e ↦ absurd (ne ((==_iff got 0).0 e))
  | inr z ↦
      rw (z, lt→leb_false (2 ^ 64) (size + 8) h)
        (record {
          sizes = (omega (arith, h), c.sizes);
          counted = omega (arith, padded_size-prefix size (omega (arith, h)), c.counted);
        })
]

got-nonzero : (got : ℕ) → got ≢ 0 → (got == 0) ≡ false
got-nonzero got ne = ground arith

realloc-IsCounted :
    (got : ℕ) (a : Allocator) (ptr size : ℕ)
    → IsCounted a
    → got ≢ 0
    → size + 8 < 2 ^ 64
    → (ptr ≡ 0) ⊎ HasBlock a.blocks (ptr - 8)
    → Returns (realloc got a ptr size) (λ r. IsCounted r.0)
unfolding realloc stat_alloc stat_free Taken
realloc-IsCounted got a ptr size c ne h (inl z) =
    rw ((==_iff ptr 0).1 z) (alloc-IsCounted got a size c ne h)
realloc-IsCounted got a ptr size c ne h (inr has) = elim (Bool-cases (ptr == 0)) [
  | inl z ↦ rw z (alloc-IsCounted got a size c ne h)
  | inr nz ↦ rw nz (
      Returns-bind (take_block a.blocks (ptr - 8)) _ (Taken a.blocks) (λ r. IsCounted r.0)
        (take_block-Taken a.blocks (ptr - 8) has c.sizes)
        (λ r k.
          rw (got-nonzero got ne, lt→leb_false (2 ^ 64) (size + 8) h)
            (record {
              sizes = (omega (arith, h), k.2);
              counted = omega (
                arith,
                padded_size-round_up r.0 k.1,
                padded_size-round_up size (omega (arith, h)),
                c.counted,
                k.0,
              );
            })))
]

free-IsCounted :
    (a : Allocator) (ptr : ℕ)
    → IsCounted a
    → (ptr ≡ 0) ⊎ HasBlock a.blocks (ptr - 8)
    → Returns (free a ptr) IsCounted
unfolding free stat_free Taken
free-IsCounted a ptr c (inl z) = rw ((==_iff ptr 0).1 z) c
free-IsCounted a ptr c (inr has) = elim (Bool-cases (ptr == 0)) [
  | inl z ↦ rw z c
  | inr nz ↦ rw nz (
      Returns-bind (take_block a.blocks (ptr - 8)) _ (Taken a.blocks) IsCounted
        (take_block-Taken a.blocks (ptr - 8) has c.sizes)
        (λ r k. record {
          sizes = k.2;
          counted = omega (arith, padded_size-prefix r.0 k.1, c.counted, k.0);
        }))
]

-- Allocating, reallocating and freeing each come back, and what is counted stays what the blocks take,
-- modulo 2^64: where the system's allocator has memory, the size with 8 more is a 64-bit word, and the pointer
-- is `NULL` or one to a block that is held.
pub alloc-realloc-free-IsCounted :
    (a : Allocator) (got ptr size : ℕ)
    → IsCounted a
    → got ≢ 0
    → size + 8 < 2 ^ 64
    → (ptr ≡ 0) ⊎ HasBlock a.blocks (ptr - 8)
    → Returns (alloc got a size) (λ r. IsCounted r.0)
      × Returns (realloc got a ptr size) (λ r. IsCounted r.0)
      × Returns (free a ptr) IsCounted
alloc-realloc-free-IsCounted a got ptr size c ne h has = (
  alloc-IsCounted got a size c ne h,
  realloc-IsCounted got a ptr size c ne h has,
  free-IsCounted a ptr c has,
)
