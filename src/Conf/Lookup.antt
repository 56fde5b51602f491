-- ===== src/Conf/Lookup.antt =====
-- What the calls `cfg_get_string`, `cfg_get_bool` and `cfg_get_int` of tflib/tf_conf_file.c find.
use tflib.Common.{
  ℕ, zero, suc, ◌+◌, ◌-◌, ◌==◌, leb, ◌≤◌, ◌≡◌, ◌≢◌, refl, sym, ap, ◌∙◌, arith, if◌then◌else◌, Bool,
  true, false, Bool-cases, inl, inr, some, none, ==_iff, ne→==_false, ◌>>=◌,
}
use tflib.Common.{List, [], ◌∷◌, ◌++◌, All, length, length-append, append-nil}
use tflib.Common.Int.{ℤ}
use tflib.Text.Number.{atoi}
use tflib.Common.Bytes.{bytes_eq, bytes_eq_refl}
use tflib.Common.{take, take-append_length, replicate, le→leb}
use tflib.Conf.{str_region, same_region, get_kv, get_string, get_bool, get_int, int_of, is_true}

abbrev pub NoNul : List ℕ → Type 0
NoNul str = All (λ c. c ≢ 0) str

abbrev longer : List ℕ → List ℕ → ℕ
longer k key = if leb (length key) (length k) then length k else length key

-- Both regions have the bytes that are compared: the stored key is at most one byte longer, and the key that
-- is looked up fits the stored one's region.
abbrev pub Comparable : List ℕ → List ℕ → Type 0
Comparable k key = (length k ≤ length key + 1) × (length key ≤ length (str_region k))

bytes_eq-other :
    (n : ℕ) (k key behind behind' : List ℕ)
    → NoNul k
    → NoNul key
    → length k ≤ n
    → length key ≤ n
    → k ≢ key
    → bytes_eq (take n (k ++ 0 ∷ behind)) (take n (key ++ 0 ∷ behind')) ≡ false
bytes_eq-other n [] [] b b' h h' l l' ne = absurd (ne refl)
bytes_eq-other zero [] (y ∷ key) b b' h h' l l' ne = absurd (omega (arith, l'))
bytes_eq-other zero (x ∷ k) key b b' h h' l l' ne = absurd (omega (arith, l))
bytes_eq-other (suc n) [] (y ∷ key) b b' h h' l l' ne =
    rw (ne→==_false 0 y (λ e. h'.0 (sym e))) refl
bytes_eq-other (suc n) (x ∷ k) [] b b' h h' l l' ne = rw (ne→==_false x 0 h.0) refl
bytes_eq-other (suc n) (x ∷ k) (y ∷ key) b b' h h' l l' ne = elim (Bool-cases (x == y)) [
  | inr differ ↦ rw differ refl
  | inl same ↦
      let e : x ≡ y = (==_iff x y).0 same in
      rw same
        (bytes_eq-other n k key b b' h.1 h'.1 (omega (arith, l)) (omega (arith, l')) (λ t. ne (cc)))
]

length-str_region : (k : List ℕ) → length k + 1 ≤ length (str_region k)
unfolding str_region
length-str_region k = omega (arith, length-append k (0 ∷ replicate (15 - length k) 0))

-- Where both regions have the bytes, they are compared.
same_region_fits :
    (n : ℕ) (a b : List ℕ)
    → n ≤ length a
    → n ≤ length b
    → same_region n a b ≡ some (bytes_eq (take n a) (take n b))
unfolding same_region
same_region_fits n a b h h' = rw (le→leb n (length a) h, le→leb n (length b) h') refl

same_region-other :
    (k key : List ℕ)
    → NoNul k
    → NoNul key
    → Comparable k key
    → k ≢ key
    → same_region (longer k key) (str_region k) (key ++ (0 ∷ [])) ≡ some false
same_region-other k key h h' fits ne =
    same_region_fits (longer k key) (str_region k) (key ++ (0 ∷ []))
      (ground (arith, fits.1, length-str_region k))
      (ground (arith, fits.0, length-append key (0 ∷ [])))
    ∙ ap some (
        unfold str_region in
        bytes_eq-other (longer k key) k key (replicate (15 - length k) 0) [] h h' (ground arith)
          (ground arith) ne)

-- The pairs with other keys are passed over.
get_kv-other :
    (before after : List (List ℕ × List ℕ)) (key : List ℕ)
    → NoNul key
    → All (λ kv. NoNul kv.0 × Comparable kv.0 key × (kv.0 ≢ key)) before
    → get_kv (before ++ after) key ≡ get_kv after key
unfolding get_kv
get_kv-other [] after key h k = refl
get_kv-other ((name, value) ∷ before) after key h ((nul, fits, ne), k) =
    rw (same_region-other name key nul h fits ne) (get_kv-other before after key h k)

same_region_same :
    (key : List ℕ) → same_region (longer key key) (str_region key) (key ++ (0 ∷ [])) ≡ some true
same_region_same key =
    let n : longer key key ≡ length key = ground arith in
    rw n (
      same_region_fits (length key) (str_region key) (key ++ (0 ∷ []))
        (omega (arith, length-str_region key)) (omega (arith, length-append key (0 ∷ [])))
      ∙ (unfold str_region in
          rw
            (
              take-append_length (length key) key (0 ∷ replicate (15 - length key) 0) refl,
              take-append_length (length key) key (0 ∷ []) refl,
              bytes_eq_refl key,
            )
            refl))

get_kv-same :
    (key value : List ℕ) (after : List (List ℕ × List ℕ))
    → get_kv ((key, value) ∷ after) key ≡ some (some value)
unfolding get_kv
get_kv-same key value after = rw (same_region_same key) refl

get_kv-nil : (key : List ℕ) → get_kv [] key ≡ some none
unfolding get_kv
get_kv-nil key = refl

-- The first pair with the key is the one that counts, and the default where there is none. The keys before it
-- are at most one byte longer than it, and it fits the region of each, which has 16 bytes at least.
pub get_string-get_bool-get_int :
    (before after : List (List ℕ × List ℕ)) (key value dft : List ℕ) (dft_bool : Bool) (dft_int : ℤ)
    → NoNul key
    → All (λ kv. NoNul kv.0 × Comparable kv.0 key × (kv.0 ≢ key)) before
    → (get_string (before ++ ((key, value) ∷ after)) key dft ≡ some value)
      × (get_bool (before ++ ((key, value) ∷ after)) key dft_bool ≡ some (is_true value))
      × (get_int (before ++ ((key, value) ∷ after)) key dft_int ≡ (atoi value >>= int_of))
      × (get_string before key dft ≡ some dft)
      × (get_bool before key dft_bool ≡ some dft_bool)
      × (get_int before key dft_int ≡ some dft_int)
unfolding get_string get_bool get_int
get_string-get_bool-get_int before after key value dft dft_bool dft_int h k =
    let found : get_kv (before ++ ((key, value) ∷ after)) key ≡ some (some value) =
      get_kv-other before ((key, value) ∷ after) key h k ∙ get_kv-same key value after in
    let missing : get_kv before key ≡ some none =
      ap (λ pairs. get_kv pairs key) (sym (append-nil before))
      ∙ get_kv-other before [] key h k
      ∙ get_kv-nil key in
    (rw found refl, rw found refl, rw found refl, rw missing refl, rw missing refl, rw missing refl)
