-- ===== src/Vnum.antt =====
-- The variable-length numbers of tflib/tf_util.h: `TFSETVNUMBUF`, `TFREADVNUMBUF` and
-- `TFCALCVNUMSIZE`. Seven bits a byte, lowest first; a byte that is not the last is stored as
-- `-rem - 1` in a `signed char`, which is the byte `255 - rem`.
pub mod RoundTrip
use tflib.Common.{ℕ, zero, suc, ◌+◌, ◌-◌, ◌*◌, ◌/◌, ◌%◌, ◌^◌, ltb, ◌==◌, if◌then◌else◌, ◌>>=◌}
use tflib.Common.{Option, none, some, List, [], ◌∷◌}

-- A non-negative `int`; a sum or product above it is an overflow.
unfoldable pub to_int : ℕ → Option ℕ
to_int n = if ltb n (2 ^ 31) then some n else none

-- The bytes that the loop writes. Five rounds are enough for an `int`.
unfoldable pub set_loop : ℕ → ℕ → Option (List ℕ)
set_loop zero n = none
set_loop (suc fuel) n =
    if n / 128 == 0
    then some (n % 128 ∷ [])
    else do rest ← set_loop fuel (n / 128); some ((255 - n % 128) ∷ rest)

unfoldable pub set_vnum : ℕ → Option (List ℕ)
set_vnum n = if n == 0 then some (0 ∷ []) else set_loop 5 n

-- The number and the bytes read; the region ends with the list.
unfoldable pub read_loop : List ℕ → ℕ → ℕ → ℕ → Option (ℕ × ℕ)
read_loop [] n base i = none
read_loop (b ∷ rest) n base i =
    if ltb b 128 then (do n' ← to_int (n + b * base); some (n', i + 1)) else do
      n' ← to_int (n + base * (255 - b))
      base' ← to_int (base * 128)
      read_loop rest n' base' (i + 1)

unfoldable pub read_vnum : List ℕ → Option (ℕ × ℕ)
read_vnum buf = read_loop buf 0 1 0

unfoldable pub vnum_size : ℕ → ℕ
vnum_size n =
    if ltb n 0x80
    then 1
    else (if ltb n 0x4000
        then 2
        else (if ltb n 0x20_0000 then 3 else (if ltb n 0x1000_0000 then 4 else 5)))
