-- ===== src/Str/Holds.antt =====
-- When a string of tflib/tf_string.c holds a sequence of bytes, and what each call makes it hold.
use tflib.Common.{
  ℕ, zero, suc, ◌+◌, ◌-◌, ◌*◌, ◌%◌, ◌^◌, ◌≤◌, ◌<◌, ◌≡◌, refl, ap, sym, ◌∙◌, arith, ◌>>=◌,
}
use tflib.Common.{ltb, Bool-cases, inl, inr, Returns, Returns-bind}
use tflib.Common.{
  some, List, [], ◌∷◌, ◌++◌, length, take, drop, length-append, length-take, length-drop,
}
use tflib.Common.{
  le→leb, lt→ltb, le→ltb_false, ltb→lt, ltb_false→le, take-append_length, append-nil, append_assoc,
}
use tflib.Common.Bytes.{read_bytes, read_front}
use tflib.ArrayList.Holds.{to_int_fits}
use tflib.Str.{
  Str, write_at, max, alloc, strnew, strnew2, strnew3, strdup, grow_loop, grow, strcat, strcat2,
  strclear,
}

-- The bytes and a NUL are written, and neither the object nor what is written exceeds the region.
pub record Holds (s : Str) (bs : List ℕ) : Type 0 where
  pub slack : List ℕ
  pub region : s.ptr ≡ bs ++ 0 ∷ slack
  pub sized : s.size ≡ length bs
  pub fits : length s.ptr ≤ s.room
  pub asize_fits : s.asize ≤ s.room
  pub asize_near : s.room ≤ s.asize + 1

-- A write behind a first part that is written.
write_behind :
    (room : ℕ) (p q bytes : List ℕ) (off : ℕ)
    → off ≡ length p
    → off + length bytes ≤ room
    → write_at room (p ++ q) off bytes ≡ some (p ++ (bytes ++ drop (off + length bytes) (p ++ q)))
unfolding write_at
write_behind room p q bytes off e h = rw (
  le→leb (off + length bytes) room h,
  le→leb off (length (p ++ q)) (omega (arith, length-append p q)),
  take-append_length off p q e,
)

-- One doubling is enough, since the size wanted is taken where it is not.
grow_loop-fits :
    (asize nsize : ℕ) → asize < nsize → Returns (grow_loop 1 asize nsize) (λ a. nsize ≤ a)
unfolding grow_loop
grow_loop-fits asize nsize less = elim (Bool-cases (ltb (asize * 2 % 2 ^ 32) nsize)) [
  | inl more ↦
      rw (lt→ltb asize nsize less)
        (rw more (rw (le→ltb_false nsize nsize (omega arith)) (omega arith)))
  | inr enough ↦ rw (lt→ltb asize nsize less) (rw enough (rw enough (ltb_false→le _ nsize enough)))
]

-- There is room for `nsize` bytes, and the bytes are as they were.
grow-Holds :
    (s : Str) (bs : List ℕ) (nsize : ℕ)
    → Holds s bs
    → Returns (grow s nsize) (λ g. Holds g bs × (nsize ≤ g.room) × (g.size ≡ s.size))
unfolding grow
grow-Holds s bs nsize h = elim (Bool-cases (ltb s.asize nsize)) [
  | inl less ↦ rw less (
      Returns-bind (grow_loop 1 s.asize nsize) _ (λ a. nsize ≤ a) _
        (grow_loop-fits s.asize nsize (ltb→lt s.asize nsize less))
        (λ a fits. (
          record {
            slack = h.slack;
            region = h.region;
            sized = h.sized;
            fits = omega (arith, h.fits, h.asize_near, ltb→lt s.asize nsize less);
            asize_fits = omega arith;
            asize_near = omega arith;
          },
          fits,
          refl,
        )))
  | inr enough ↦ rw enough (h, omega (arith, ltb_false→le s.asize nsize enough, h.asize_fits), refl)
]

drop_all : (n : ℕ) → drop {A = ℕ} n [] ≡ []
drop_all zero = refl
drop_all (suc n) = refl

-- A new region that starts with bytes and a NUL.
alloc-Holds :
    (bs : List ℕ) (size asize : ℕ)
    → size ≡ length bs
    → length bs + 1 ≤ asize
    → Returns (alloc (bs ++ (0 ∷ [])) size asize) (λ s. Holds s bs)
unfolding alloc
alloc-Holds bs size asize e room =
    rw (write_behind asize [] [] (bs ++ (0 ∷ [])) 0 refl (omega (arith, length-append bs (0 ∷ []))))
      (record {
        slack = [];
        region = rw (drop_all (0 + length (bs ++ (0 ∷ [])))) (append-nil (bs ++ (0 ∷ [])));
        sized = e;
        fits = omega (
          arith,
          length-append (bs ++ (0 ∷ [])) (drop (0 + length (bs ++ (0 ∷ []))) []),
          length-drop {A = ℕ} (0 + length (bs ++ (0 ∷ []))) [],
          length-append bs (0 ∷ []),
        );
        asize_fits = omega arith;
        asize_near = omega arith;
      })

-- A string `g` with room, and the bytes that are written behind those that it holds.
module _ (g : Str) (bs new : List ℕ) (h : Holds g bs) (room : length bs + length new + 1 ≤ g.room)
    (size : ℕ) (e : size ≡ length bs + length new) where
  appended-Holds :
      (tail : List ℕ)
      → length bs + length new + 1 + length tail ≤ g.room
      → Holds (record g { ptr = (bs ++ new) ++ 0 ∷ tail; size = size }) (bs ++ new)
  appended-Holds tail fits = record {
    slack = tail;
    region = refl;
    sized = omega (arith, length-append bs new);
    fits = omega (arith, length-append (bs ++ new) (0 ∷ tail), length-append bs new);
    asize_fits = h.asize_fits;
    asize_near = h.asize_near;
  }

  length-region : length bs + (length h.slack + 1) ≤ g.room
  length-region =
      omega (arith, h.fits, ap (length {A = ℕ}) h.region, length-append bs (0 ∷ h.slack))

  -- What lies behind the new bytes before their NUL is written.
  behind : List ℕ
  behind = drop (length bs + length new) (bs ++ 0 ∷ h.slack)

  length-behind : length behind ≡ length bs + (length h.slack + 1) - (length bs + length new)
  unfolding behind
  length-behind = omega (
    arith,
    length-drop (length bs + length new) (bs ++ 0 ∷ h.slack),
    length-append bs (0 ∷ h.slack),
  )

  write_new :
      (off : ℕ) → off ≡ length bs → write_at g.room g.ptr off new ≡ some ((bs ++ new) ++ behind)
  unfolding behind
  write_new off eo =
      rw (h.region, eo)
        (write_behind g.room bs (0 ∷ h.slack) new (length bs) refl (omega arith)
          ∙ ap some (sym (append_assoc bs new behind)))

  write_nul :
      write_at g.room ((bs ++ new) ++ behind) size (0 ∷ [])
      ≡ some ((bs ++ new) ++ 0 ∷ drop (size + 1) ((bs ++ new) ++ behind))
  write_nul =
      write_behind g.room (bs ++ new) behind (0 ∷ []) size (omega (arith, length-append bs new))
        (omega arith)

  -- Both writes succeed, and the string then holds the new bytes too.
  finish :
      (off : ℕ)
      → off ≡ length bs
      → Returns
          (write_at g.room g.ptr off new >>= λ written.
            write_at g.room written size (0 ∷ []) >>= λ ended.
            some (record g { ptr = ended; size = size }))
          (λ s'. Holds s' (bs ++ new))
  finish off eo = rw (write_new off eo) (
      rw write_nul (
        appended-Holds (drop (size + 1) ((bs ++ new) ++ behind)) (
          omega (
            arith,
            length-drop (size + 1) ((bs ++ new) ++ behind),
            length-append (bs ++ new) behind,
            length-append bs new,
            length-behind,
            length-region,
          ))))

  finish_once :
      (off : ℕ)
      → off ≡ length bs
      → Returns
          (write_at g.room g.ptr off (new ++ (0 ∷ [])) >>= λ written.
            some (record g { ptr = written; size = size }))
          (λ s'. Holds s' (bs ++ new))
  finish_once off eo =
      rw (h.region, eo)
        (rw
          (
            write_behind g.room bs (0 ∷ h.slack) (new ++ (0 ∷ [])) (length bs) refl
                (omega (arith, length-append new (0 ∷ []))),
            append_assoc new (0 ∷ [])
                (drop (length bs + length (new ++ (0 ∷ []))) (bs ++ 0 ∷ h.slack)),
            ← append_assoc bs new
                (0 ∷ drop (length bs + length (new ++ (0 ∷ []))) (bs ++ 0 ∷ h.slack)),
          )
          (appended-Holds (drop (length bs + length (new ++ (0 ∷ []))) (bs ++ 0 ∷ h.slack)) (
            omega (
              arith,
              length-drop (length bs + length (new ++ (0 ∷ []))) (bs ++ 0 ∷ h.slack),
              length-append bs (0 ∷ h.slack),
              length-append new (0 ∷ []),
              length-region,
            ))))

-- A string that holds `bs`, and `size` bytes of a region that has them: the concatenation comes
-- back, and the string holds `bs` and those bytes behind, where its size with the NUL is an `int`.
pub strcat-Holds :
    (s : Str) (bs ptr : List ℕ) (size : ℕ)
    → Holds s bs
    → size ≤ length ptr
    → length bs + size + 1 < 2 ^ 31
    → Returns (strcat s ptr size) (λ s'. Holds s' (bs ++ take size ptr))
unfolding strcat
strcat-Holds s bs ptr size h fits small =
    rw (to_int_fits (s.size + size + 1) (omega (arith, h.sized)), le→leb size (length ptr) fits)
      (Returns-bind (grow s (s.size + size + 1)) _ _ _ (grow-Holds s bs (s.size + size + 1) h)
        (λ g (hg, room, same).
          finish g bs (take size ptr) hg (omega (arith, h.sized, length-take size ptr))
            (s.size + size) (omega (arith, h.sized, length-take size ptr)) s.size h.sized))

-- A string that holds `bs`, and a C string: the concatenation comes back, and the string holds `bs` and
-- the other behind, where its size with the NUL is an `int`.
pub strcat2-Holds :
    (s : Str) (bs str : List ℕ)
    → Holds s bs
    → length bs + length str + 1 < 2 ^ 31
    → Returns (strcat2 s str) (λ s'. Holds s' (bs ++ str))
unfolding strcat2
strcat2-Holds s bs str h small =
    rw (to_int_fits (s.size + length str + 1) (omega (arith, h.sized))) (
      Returns-bind (grow s (s.size + length str + 1)) _ _ _
        (grow-Holds s bs (s.size + length str + 1) h)
        (λ g (hg, room, same).
          finish_once g bs str hg (omega (arith, h.sized)) (s.size + length str)
            (omega (arith, h.sized)) s.size h.sized))

read_str :
    (s : Str) (bs : List ℕ) → Holds s bs → read_bytes s.ptr (s.size + 1) ≡ some (bs ++ (0 ∷ []))
read_str s bs h =
    let n : s.size + 1 ≡ length (bs ++ (0 ∷ [])) =
      omega (arith, h.sized, length-append bs (0 ∷ [])) in
    let e : s.ptr ≡ (bs ++ (0 ∷ [])) ++ h.slack =
      h.region ∙ sym (append_assoc bs (0 ∷ []) h.slack) in
    rw (e, n) (read_front (bs ++ (0 ∷ [])) h.slack)

cleared : (s : Str) (bs : List ℕ) → Holds s bs → Returns (strclear s) (λ t. Holds t [])
unfolding strclear
cleared s bs h =
    let some_byte : 1 ≤ length s.ptr =
      omega (arith, ap (length {A = ℕ}) h.region, length-append bs (0 ∷ h.slack)) in
    rw (write_behind s.room [] s.ptr (0 ∷ []) 0 refl (omega (arith, h.fits))) (record {
      slack = drop 1 s.ptr;
      region = refl;
      sized = refl;
      fits = omega (arith, length-drop 1 s.ptr, h.fits);
      asize_fits = h.asize_fits;
      asize_near = h.asize_near;
    })

-- A new string holds nothing, one that is made from a C string holds it, a copy of a string that
-- holds `bs` holds them, and that string holds nothing when it is cleared.
pub strnew-strnew2-strdup-strclear-Holds :
    (s : Str) (bs : List ℕ) (asiz : ℕ)
    → Holds s bs
    → Returns strnew (λ t. Holds t [])
      × Returns (strnew2 bs) (λ t. Holds t bs)
      × Returns (strnew3 asiz) (λ t. Holds t [])
      × Returns (strdup s) (λ t. Holds t bs)
      × Returns (strclear s) (λ t. Holds t [])
unfolding strnew strnew2 strnew3 strdup
strnew-strnew2-strdup-strclear-Holds s bs asiz h = (
  alloc-Holds [] 0 16 refl (omega arith),
  alloc-Holds bs (length bs) (max (length bs + 1) 16) refl (ground arith),
  alloc-Holds [] 0 (max asiz 16) refl (ground arith),
  rw (read_str s bs h)
      (alloc-Holds bs s.size (max (s.size + 1) 16) h.sized (ground (arith, h.sized))),
  cleared s bs h,
)
