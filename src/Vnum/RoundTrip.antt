-- ===== src/Vnum/RoundTrip.antt =====
-- A number that was stored by `TFSETVNUMBUF` of tflib/tf_util.h is read back, whatever follows.
use tflib.Common.{ℕ, zero, suc, ◌+◌, ◌-◌, ◌*◌, ◌/◌, ◌%◌, ◌^◌, ◌≤◌, ◌<◌, ◌≡◌, ◌==◌, arith, ap}
use tflib.Common.{some, List, [], ◌∷◌, ◌++◌, length, Returns, Bool-cases, inl, inr, ==_iff}
use native.Mathlib.Nat.{pow-suc}
use tflib.Common.{Returns-bind, Returns-map, lt→ltb, le→ltb_false, All}
use tflib.Common.Bytes.{IsByte}
use tflib.Vnum.{to_int, set_loop, set_vnum, read_loop, read_vnum, vnum_size}

to_int_fits : (n : ℕ) → n < 2 ^ 31 → to_int n ≡ some n
unfolding to_int
to_int_fits n h = rw (lt→ltb n (2 ^ 31) h)

-- What `TFSETVNUMBUF` leaves, apart from the loop's fuel.
pub record Encodes (n : ℕ) (bs : List ℕ) : Type 0 where
  pub reads :
      (rest : List ℕ) (acc base i : ℕ)
      → acc + n * base < 2 ^ 31
      → 0 < base
      → read_loop (bs ++ rest) acc base i ≡ some (acc + n * base, i + length bs)
  pub bytes : All IsByte bs
  pub some_byte : 0 < length bs
  pub sized : n < 2 ^ 31 → length bs ≡ vnum_size n

last_group : (n : ℕ) → n < 128 → Encodes n (n ∷ [])
unfolding read_loop vnum_size
last_group n h = record {
  reads = λ rest acc base i fits pos. rw (lt→ltb n 128 h, to_int_fits (acc + n * base) fits);
  bytes = (omega arith, tt);
  some_byte = omega arith;
  sized = λ _. ground arith;
}

base-le : (q base : ℕ) → 0 < q → base * 128 ≤ q * (base * 128)
base-le q base h = grind arith

split_groups : (n acc base : ℕ) → acc + base * (n % 128) + n / 128 * (base * 128) ≡ acc + n * base
split_groups n acc base =
    let e : n ≡ n / 128 * 128 + n % 128 = omega arith in omega (arith, ap (λ (t : ℕ). t * base) e)

vnum_size_step : (n : ℕ) → n < 2 ^ 31 → 0 < n / 128 → vnum_size n ≡ vnum_size (n / 128) + 1
unfolding vnum_size
vnum_size_step n h more = ground arith

more_groups :
    (n : ℕ) (bs : List ℕ) → 0 < n / 128 → Encodes (n / 128) bs → Encodes n ((255 - n % 128) ∷ bs)
unfolding read_loop
more_groups n bs more e = record {
  reads = λ rest acc base i fits pos.
      let same : 255 - (255 - n % 128) ≡ n % 128 = omega arith in
      let fits' : acc + base * (n % 128) + n / 128 * (base * 128) < 2 ^ 31 =
        omega (arith, split_groups n acc base) in
      rw
        (
          le→ltb_false (255 - n % 128) 128 (omega arith),
          same,
          to_int_fits (acc + base * (n % 128)) (omega arith),
          to_int_fits (base * 128) (omega (arith, base-le (n / 128) base more)),
          e.reads rest (acc + base * (n % 128)) (base * 128) (i + 1) fits' (omega arith),
          split_groups n acc base,
        )
        (ap (λ (t : ℕ). some (acc + n * base, t)) (omega arith));
  bytes = (omega arith, e.bytes);
  some_byte = omega arith;
  sized = λ int. omega (arith, e.sized (omega arith), vnum_size_step n int more);
}

quotient-lt : (fuel n : ℕ) → n < 128 ^ suc fuel → n / 128 < 128 ^ fuel
quotient-lt fuel n h = omega (arith, pow-suc 128 fuel)

-- With fuel for all its groups, the loop ends.
set_loop-Encodes : (fuel n : ℕ) → n < 128 ^ fuel → 0 < n → Returns (set_loop fuel n) (Encodes n)
unfolding set_loop
set_loop-Encodes zero n h pos = absurd (omega arith)
set_loop-Encodes (suc fuel) n h pos = elim (Bool-cases (n / 128 == 0)) [
  | inl last ↦ rw last (let e : n % 128 ≡ n = ground arith in rw e (last_group n (ground arith)))
  | inr more ↦ rw more (
      Returns-bind (set_loop fuel (n / 128)) (λ rest. some ((255 - n % 128) ∷ rest))
        (Encodes (n / 128)) (Encodes n)
        (set_loop-Encodes fuel (n / 128) (quotient-lt fuel n h) (ground arith))
        (λ bs. more_groups n bs (ground arith)))
]

pub set_vnum-Encodes : (n : ℕ) → n < 2 ^ 31 → Returns (set_vnum n) (Encodes n)
unfolding set_vnum
set_vnum-Encodes n h = elim (Bool-cases (n == 0)) [
  | inl e ↦ let z : n ≡ 0 = (==_iff n 0).0 e in rw (e, z) (last_group 0 (omega arith))
  | inr e ↦ rw e (set_loop-Encodes 5 n (omega arith) (ground arith))
]

pub read_vnum-append :
    (n : ℕ) (bs rest : List ℕ)
    → n < 2 ^ 31
    → Encodes n bs
    → read_vnum (bs ++ rest) ≡ some (n, length bs)
unfolding read_vnum
read_vnum-append n bs rest h e = rw (e.reads rest 0 1 0 (omega arith) (omega arith)) (ground arith)

-- A number that fits a non-negative `int` is stored, in bytes as many as `TFCALCVNUMSIZE` says, and
-- is read back from them, with their number, whatever bytes follow.
pub read_vnum-set_vnum :
    (n : ℕ) (rest : List ℕ)
    → n < 2 ^ 31
    → Returns (set_vnum n) (λ bs.
      (read_vnum (bs ++ rest) ≡ some (n, length bs)) × (length bs ≡ vnum_size n) × All IsByte bs)
read_vnum-set_vnum n rest h =
    Returns-map (set_vnum n) (Encodes n) _ (set_vnum-Encodes n h)
      (λ bs e. (read_vnum-append n bs rest h e, e.sized h, e.bytes))
