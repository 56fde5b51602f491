-- ===== src/Common/Bits.antt =====
-- The bitwise operators of C on numbers: a mask is a remainder, and `|` of disjoint fields is a sum.
use Prim.Native.Nat.{
  ℕ, zero, suc, ◌+◌, ◌*◌, ◌/◌, ◌%◌, ◌^◌, ◌≤◌, ◌<◌, min, max, bit_and, bit_or, bit_xor,
}
use Prim.Native.Nat.{digits, bit_and-bitwise, bit_or-bitwise, bit_xor-bitwise, differ}
use mathlib.Core.Path.{◌≡◌, refl, ap, sym, ◌∙◌}
use mathlib.Core.Bool.{Bool, true, ◌&&◌}
use native.Mathlib.Omega.{arith}
use native.Mathlib.Nat.{pow-suc, one-le-pow}

-- The operators are recursions on a count of digits; any count that is large enough will do.
module _ (z : ℕ → ℕ) (f : ℕ → ℕ → ℕ) where
  count_enough : (m n a b : ℕ) → a ≤ m → a ≤ n → digits z f m a b ≡ digits z f n a b
  count_enough zero zero a b hm hn = refl
  count_enough zero (suc n) zero b hm hn = refl
  count_enough (suc m) zero zero b hm hn = refl
  count_enough (suc m) (suc n) zero b hm hn = refl
  count_enough zero n (suc a) b hm hn = absurd (omega arith)
  count_enough (suc m) zero (suc a) b hm hn = absurd (omega arith)
  count_enough (suc m) (suc n) (suc a) b hm hn =
      ap (λ (t : ℕ). t * 2 + f (suc a % 2) (b % 2))
        (count_enough m n (suc a / 2) (b / 2) (omega arith) (omega arith))

  lowest_digit :
      (a b : ℕ)
      → digits z f (suc a) (suc a) b
        ≡ digits z f (suc a / 2) (suc a / 2) (b / 2) * 2 + f (suc a % 2) (b % 2)
  lowest_digit a b =
      ap (λ (t : ℕ). t * 2 + f (suc a % 2) (b % 2))
        (count_enough a (suc a / 2) (suc a / 2) (b / 2) (omega arith) (omega arith))

pub bit_and-halves : (a b : ℕ) → bit_and a b ≡ bit_and (a / 2) (b / 2) * 2 + min (a % 2) (b % 2)
bit_and-halves zero b = simp bit_and-bitwise (omega arith)
bit_and-halves (suc a) b = simp bit_and-bitwise (lowest_digit (λ _. 0) min a b)

pub bit_or-halves : (a b : ℕ) → bit_or a b ≡ bit_or (a / 2) (b / 2) * 2 + max (a % 2) (b % 2)
bit_or-halves zero b = simp bit_or-bitwise (omega arith)
bit_or-halves (suc a) b = simp bit_or-bitwise (lowest_digit (λ y. y) max a b)

bit_and-zero : (n a : ℕ) → a ≤ n → bit_and a 0 ≡ 0
bit_and-zero n zero h = refl
bit_and-zero zero (suc a) h = absurd (omega arith)
bit_and-zero (suc n) (suc a) h =
    omega (arith, bit_and-halves (suc a) 0, bit_and-zero n (suc a / 2) (omega arith))

bit_or-zero : (n a : ℕ) → a ≤ n → bit_or a 0 ≡ a
bit_or-zero n zero h = refl
bit_or-zero zero (suc a) h = absurd (omega arith)
bit_or-zero (suc n) (suc a) h =
    omega (arith, bit_or-halves (suc a) 0, bit_or-zero n (suc a / 2) (omega arith))

halve_shifted : (q k : ℕ) → q * 2 ^ suc k ≡ q * 2 ^ k * 2
halve_shifted q k = omega (arith, ap (λ (t : ℕ). q * t) (pow-suc 2 k))

low_digits : (k m q r : ℕ) → m + 1 ≡ 2 ^ k → r < 2 ^ k → bit_and (q * 2 ^ k + r) m ≡ r
low_digits zero m q r e h =
    let z : m ≡ 0 = omega arith in
    rw z (omega (arith, bit_and-zero (q * 1 + r) (q * 1 + r) (omega arith)))
low_digits (suc k) m q r e h =
    let half : (q * 2 ^ suc k + r) / 2 ≡ q * 2 ^ k + r / 2 = omega (arith, halve_shifted q k) in
    omega (
      arith,
      halve_shifted q k,
      bit_and-halves (q * 2 ^ suc k + r) m,
      ap (λ (t : ℕ). bit_and t (m / 2)) half,
      low_digits k (m / 2) q (r / 2) (omega (arith, pow-suc 2 k, one-le-pow k 2))
          (omega (arith, pow-suc 2 k)),
      pow-suc 2 k,
      one-le-pow k 2,
    )

-- `a & (2^k - 1)`, for a numeral `k`.
pub bit_and-mask : (k m a : ℕ) → m + 1 ≡ 2 ^ k → bit_and a m ≡ a % 2 ^ k
bit_and-mask k m a e =
    let split : a / 2 ^ k * 2 ^ k + a % 2 ^ k ≡ a = omega (arith, one-le-pow k 2) in
    ap (λ (t : ℕ). bit_and t m) (sym split)
    ∙ low_digits k m (a / 2 ^ k) (a % 2 ^ k) e (omega (arith, one-le-pow k 2))

-- `(q << k) | r`.
pub bit_or-shifted : (k q r : ℕ) → r < 2 ^ k → bit_or (q * 2 ^ k) r ≡ q * 2 ^ k + r
bit_or-shifted zero q r h =
    let z : r ≡ 0 = omega arith in rw z (omega (arith, bit_or-zero (q * 1) (q * 1) (omega arith)))
bit_or-shifted (suc k) q r h =
    let e : q * 2 ^ suc k / 2 ≡ q * 2 ^ k = omega (arith, halve_shifted q k) in
    omega (
      arith,
      halve_shifted q k,
      bit_or-halves (q * 2 ^ suc k) r,
      ap (λ (t : ℕ). bit_or t (r / 2)) e,
      bit_or-shifted k q (r / 2) (omega (arith, pow-suc 2 k)),
    )

-- Over a small range, a test that holds at every value.
unfoldable pub all_below : ℕ → (ℕ → Bool) → Bool
all_below zero p = true
all_below (suc n) p = p n && all_below n p

pub all_below-lt : (n : ℕ) (p : ℕ → Bool) (x : ℕ) → all_below n p ≡ true → x < n → p x ≡ true
unfolding all_below
all_below-lt zero p x h lt = absurd (omega arith)
all_below-lt (suc n) p x h lt = ground (arith, all_below-lt n p x)

bit_xor-halves : (a b : ℕ) → bit_xor a b ≡ bit_xor (a / 2) (b / 2) * 2 + differ (a % 2) (b % 2)
bit_xor-halves zero b = simp bit_xor-bitwise (omega arith)
bit_xor-halves (suc a) b = simp bit_xor-bitwise (lowest_digit (λ y. y) differ a b)

differ-digit : (x y : ℕ) → x < 2 → y < 2 → differ x y < 2
differ-digit zero y h k = k
differ-digit (suc x) zero h k = h
differ-digit (suc x) (suc y) h k = differ-digit x y (omega arith) (omega arith)

-- Exclusive or stays within the digits of its arguments.
pub bit_xor-lt : (k a b : ℕ) → a < 2 ^ k → b < 2 ^ k → bit_xor a b < 2 ^ k
bit_xor-lt zero zero zero ha hb = omega arith
bit_xor-lt zero (suc a) b ha hb = absurd (omega arith)
bit_xor-lt zero zero (suc b) ha hb = absurd (omega arith)
bit_xor-lt (suc k) a b ha hb = omega (
  arith,
  pow-suc 2 k,
  bit_xor-halves a b,
  bit_xor-lt k (a / 2) (b / 2) (omega (arith, pow-suc 2 k)) (omega (arith, pow-suc 2 k)),
  differ-digit (a % 2) (b % 2) (omega arith) (omega arith),
)
