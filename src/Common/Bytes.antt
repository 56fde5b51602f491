-- ===== src/Common/Bytes.antt =====
-- Bytes and C strings. A C string is the list of its bytes before the NUL; a region of memory is
-- the list of all its bytes.
use Prim.Native.Nat.{ℕ, ◌<◌}
use mathlib.Core.Path.{◌≡◌, refl}
use mathlib.Core.Bool.{Bool, true, false, ◌&&◌}
use native.Mathlib.Omega.{arith}
use mathlib.Core.Option.{Option, none, some}
use mathlib.Core.List.{List, [], ◌∷◌, ◌++◌}
use tflib.Common.Tests.{◌==◌, leb, le→leb, if◌then◌else◌}
use tflib.Common.Lists.{length, take, length-append, take-append_length}

abbrev pub IsByte : ℕ → Type 0
IsByte b = b < 256

-- A byte of a C string: not NUL.
abbrev pub IsChar : ℕ → Type 0
IsChar b = (0 < b) × (b < 256)

-- The source of `memcpy(_, ptr, size)`: a read past the region is a fault.
abbrev pub read_bytes : List ℕ → ℕ → Option (List ℕ)
read_bytes ptr size = if leb size (length ptr) then some (take size ptr) else none

-- `memcmp(a, b, n) == 0` on regions of one length.
abbrev pub bytes_eq : List ℕ → List ℕ → Bool
bytes_eq [] [] = true
bytes_eq (a ∷ as') (b ∷ bs) = a == b && bytes_eq as' bs
bytes_eq _ _ = false

pub bytes_eq→eq : (xs ys : List ℕ) → bytes_eq xs ys ≡ true → xs ≡ ys
bytes_eq→eq [] [] h = refl
bytes_eq→eq [] (y ∷ ys) h = cc
bytes_eq→eq (x ∷ xs) [] h = cc
bytes_eq→eq (x ∷ xs) (y ∷ ys) h = ground (arith, bytes_eq→eq xs ys)

pub bytes_eq_refl : (xs : List ℕ) → bytes_eq xs xs ≡ true
bytes_eq_refl [] = refl
bytes_eq_refl (x ∷ xs) = ground (arith, bytes_eq_refl xs)

-- What a copy of `length x` bytes gives.
pub read_front : (x behind : List ℕ) → read_bytes (x ++ behind) (length x) ≡ some x
read_front x behind = rw (
  le→leb (length x) (length (x ++ behind)) (omega (arith, length-append x behind)),
  take-append_length (length x) x behind refl,
)
