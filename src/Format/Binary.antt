-- ===== src/Format/Binary.antt =====
-- The binary digits of `tf_num2strbin` of tflib/tf_util.c.
use tflib.Common.{
  ℕ, zero, suc, ◌+◌, ◌-◌, ◌*◌, ◌%◌, ◌^◌, ◌≤◌, ◌<◌, ◌≡◌, refl, sym, ap, ◌∙◌, arith, leb, ltb,
  if◌then◌else◌, lt→leb_false, le→leb, leb→le,
}
use tflib.Common.{
  Bool, true, false, Bool-cases, inl, inr, List, [], ◌∷◌, ◌++◌, length, replicate, length-append,
  length-replicate, All, All-append, ◌⊎◌,
}
use native.Mathlib.Nat.{pow-suc}
use tflib.Format.{bin_loop, num2strbin}

-- The number that binary digits are, behind `n`.
abbrev pub of_digits : ℕ → List ℕ → ℕ
of_digits n [] = n
of_digits n (d ∷ ds) = of_digits (n * 2 + (d - b'0')) ds

of_digits-append : (n : ℕ) (ds es : List ℕ) → of_digits n (ds ++ es) ≡ of_digits (of_digits n ds) es
of_digits-append n [] es = refl
of_digits-append n (d ∷ ds) es = of_digits-append (n * 2 + (d - b'0')) ds es

abbrev pub IsBinary : List ℕ → Type 0
IsBinary ds = All (λ d. (d ≡ b'0') ⊎ (d ≡ b'1')) ds

-- What the loop has written, of a number whose bits that are left are `m`, times `p`.
record Written (n m : ℕ) (out : List ℕ) (r : List ℕ × Bool) : Type 0 where
  value : of_digits 0 r.0 ≡ of_digits 0 out * 2 ^ n + m
  short : length r.0 ≤ length out + n
  binary : IsBinary out → IsBinary r.0
  empty : r.1 ≡ true → r.0 ≡ []
  started : r.1 ≡ false → 0 < length r.0

-- The bits `m` of a number `m * p` of which `w * 2` are left, where `w * 2 * p` is 2^64.
module _ (m p w : ℕ) (e : p * (2 * w) ≡ 2 ^ 64) (h : m < 2 * w) where
  half : w * p ≡ 2 ^ 63
  half = let twice : p * (2 * w) ≡ 2 * (w * p) = grind arith in omega (arith, e, twice)

  above : w ≤ m → m * p ≡ (m - w) * p + 2 ^ 63
  above k =
      let apart : m * p ≡ (m - w) * p + w * p =
        (let t : m ≡ m - w + w = omega (arith, k) in ap (λ (x : ℕ). x * p) t) ∙ grind arith in
      omega (arith, apart, half)

  below : (d : ℕ) → d < w → d * p < 2 ^ 63
  below d k =
      let parts : w ≡ w - d - 1 + (d + 1) = omega (arith, k) in
      let more : w * p ≡ (w - d - 1) * p + (d * p + p) =
        ap (λ (x : ℕ). x * p) parts ∙ grind arith in
      let some_p : 0 < p = grind (arith, e) in omega (arith, more, half, some_p)

  top_bit : leb (2 ^ 63) (m * p) ≡ leb w m
  top_bit = elim (Bool-cases (leb w m)) [
    | inl k ↦ rw k (le→leb (2 ^ 63) (m * p) (omega (arith, above (leb→le w m k))))
    | inr k ↦ rw k (lt→leb_false (2 ^ 63) (m * p) (below m (ground arith)))
  ]

  shifted_one : w ≤ m → m * p * 2 % 2 ^ 64 ≡ (m - w) * (p * 2)
  shifted_one k =
      let d = m - w in
      let small = below d (omega (arith, h, k)) in
      let double : d * (p * 2) ≡ d * p * 2 = grind arith in omega (arith, above k, small, double)

  shifted_zero : m < w → m * p * 2 % 2 ^ 64 ≡ m * (p * 2)
  shifted_zero k =
      let double : m * (p * 2) ≡ m * p * 2 = grind arith in omega (arith, below m k, double)

digit-more : (o w k : ℕ) → (o * 2 + k) * w ≡ o * (2 * w) + k * w
digit-more o w k = grind arith

bin_loop-Written :
    (n m p num : ℕ) (none_yet : Bool) (out : List ℕ)
    → p * 2 ^ n ≡ 2 ^ 64
    → num ≡ m * p
    → m < 2 ^ n
    → (none_yet ≡ true → out ≡ [])
    → (none_yet ≡ false → 0 < length out)
    → Written n m out (bin_loop n num none_yet out)
unfolding bin_loop
bin_loop-Written zero m p num none_yet out e q h z z' = record {
  value = omega (arith, h);
  short = omega arith;
  binary = λ b. b;
  empty = z;
  started = z';
}
bin_loop-Written (suc n) m p num none_yet out e q h z z' =
    let w : ℕ = 2 ^ n in
    let twice : 2 * w ≡ 2 ^ suc n = omega (arith, pow-suc 2 n) in
    let e' : p * (2 * w) ≡ 2 ^ 64 = ap (λ (t : ℕ). p * t) twice ∙ e in
    let next : p * 2 * w ≡ 2 ^ 64 = (let t : p * 2 * w ≡ p * (2 * w) = grind arith in t ∙ e') in
    let h' : m < 2 * w = omega (arith, h, twice) in
    let doubled : of_digits 0 out * (2 * w) ≡ of_digits 0 out * 2 ^ suc n =
      ap (λ (t : ℕ). of_digits 0 out * t) twice in
    let test = ap (leb (2 ^ 63)) q ∙ top_bit m p w e' h' in
    let halved = λ (m' : ℕ). λ (b : Bool).
      λ (out' : List ℕ). bin_loop-Written n m' (p * 2) (num * 2 % 2 ^ 64) b out' next in
    elim (Bool-cases (leb w m)) [
      | inl k ↦
          let k' = leb→le w m k in
          let one : List ℕ = b'1' ∷ [] in
          let ih =
            halved (m - w) false (out ++ one)
              (ap (λ (t : ℕ). t * 2 % 2 ^ 64) q ∙ shifted_one m p w e' h' k') (omega (arith, h'))
              (λ f. absurd (ground (arith, f))) (λ _. omega (arith, length-append out one)) in
          rw (test ∙ k) (record {
            value = omega (
              arith,
              ih.value,
              k',
              doubled,
              digit-more (of_digits 0 out) w 1,
              ap (λ (t : ℕ). t * w) (of_digits-append 0 out one),
            );
            short = omega (arith, ih.short, length-append out one);
            binary = λ b. ih.binary (All-append _ out one b (inr refl, tt));
            empty = ih.empty;
            started = ih.started;
          })
      | inr k ↦
          let k' : m < w = ground (arith, k) in
          let q' = ap (λ (t : ℕ). t * 2 % 2 ^ 64) q ∙ shifted_zero m p w e' h' k' in
          rw (test ∙ k) (elim (Bool-cases none_yet) [
            | inl yet ↦
                let ih = halved m true out q' k' (λ _. z yet) (λ f. absurd (ground (arith, f))) in
                let none_out = ap (λ ds. of_digits 0 ds * w) (z yet) in
                rw yet (record {
                  value =
                      omega (arith, ih.value, doubled, none_out, digit-more (of_digits 0 out) w 0);
                  short = omega (arith, ih.short);
                  binary = ih.binary;
                  empty = ih.empty;
                  started = ih.started;
                })
            | inr some_one ↦
                let digit : List ℕ = b'0' ∷ [] in
                let ih =
                  halved m false (out ++ digit) q' k' (λ f. absurd (ground (arith, f)))
                    (λ _. omega (arith, length-append out digit)) in
                rw some_one (record {
                  value = omega (
                    arith,
                    ih.value,
                    doubled,
                    digit-more (of_digits 0 out) w 0,
                    ap (λ (t : ℕ). t * w) (of_digits-append 0 out digit),
                  );
                  short = omega (arith, ih.short, length-append out digit);
                  binary = λ b. ih.binary (All-append _ out digit b (inl refl, tt));
                  empty = ih.empty;
                  started = ih.started;
                })
          ])
    ]

of_digits-replicate : (k : ℕ) (ds : List ℕ) → of_digits 0 (replicate k b'0' ++ ds) ≡ of_digits 0 ds
of_digits-replicate zero ds = refl
of_digits-replicate (suc k) ds = of_digits-replicate k ds

IsBinary-replicate : (k : ℕ) (ds : List ℕ) → IsBinary ds → IsBinary (replicate k b'0' ++ ds)
IsBinary-replicate zero ds h = h
IsBinary-replicate (suc k) ds h = (inl refl, IsBinary-replicate k ds h)

all_bits : (num : ℕ) → num < 2 ^ 64 → Written 64 num [] (bin_loop 64 num true [])
all_bits num h =
    bin_loop-Written 64 num 1 num true [] refl (omega arith) h (λ _. refl)
      (λ f. absurd (ground (arith, f)))

unpadded :
    (out : List ℕ) (none_yet : Bool) (num : ℕ)
    → of_digits 0 out ≡ num
    → IsBinary out
    → (none_yet ≡ true → out ≡ [])
    → (none_yet ≡ false → 0 < length out)
    → length out ≤ 64
    → (let ds = if none_yet then b'0' ∷ [] else out in
        (of_digits 0 ds ≡ num) × IsBinary ds × (0 < length ds) × (length ds ≤ 64))
unpadded out true num v b e s m =
    (ap (of_digits 0) (sym (e refl)) ∙ v, (inl refl, tt), omega arith, omega arith)
unpadded out false num v b e s m = (v, b, s refl, m)

-- The digits of a number of 64 bits are 0 and 1, and read as binary they are the number, without a width
-- and with one that is filled with 0. There are at most 64 of them, whatever the width; at least one
-- without a width, and at least as many as a width up to 64 says, whatever fills it.
pub num2strbin_lem :
    (num col fc : ℕ)
    → num < 2 ^ 64
    → (of_digits 0 (num2strbin num 0 fc) ≡ num)
      × IsBinary (num2strbin num 0 fc)
      × (0 < length (num2strbin num 0 fc))
      × (of_digits 0 (num2strbin num col b'0') ≡ num)
      × IsBinary (num2strbin num col b'0')
      × (length (num2strbin num col fc) ≤ 64)
      × (col ≤ 64 → col ≤ length (num2strbin num col fc))
unfolding num2strbin
num2strbin_lem num col fc h =
    let w = all_bits num h in
    let (out, none_yet) = bin_loop 64 num true [] in
    let value : of_digits 0 out ≡ num = omega (arith, w.value) in
    let binary = w.binary tt in
    let k = (if ltb 64 col then 64 else col) - length out in
    let padded : length (replicate k fc ++ out) ≡ k + length out =
      omega (arith, length-append (replicate k fc) out, length-replicate k fc) in
    let (v₀, b₀, l₀, most) =
      unpadded out none_yet num value binary w.empty w.started (omega (arith, w.short)) in
    elim (Bool-cases (ltb 0 col)) [
      | inl wide ↦ rw wide (
        v₀,
        b₀,
        l₀,
        of_digits-replicate k out ∙ value,
        IsBinary-replicate k out binary,
        ground (arith, padded, w.short),
        λ c. ground (arith, padded, w.short, c),
      )
      | inr unset ↦ rw unset (v₀, b₀, l₀, v₀, b₀, most, λ c. ground (arith))
    ]
