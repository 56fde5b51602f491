-- ===== src/Format/Appends.antt =====
-- Calls that append to a string of tflib/tf_string.c.
use tflib.Common.{ℕ, ◌+◌, ◌^◌, ◌<◌, sym, arith, ◌>>=◌, subst, Returns, Returns-bind}
use tflib.Common.{
  Option, some, List, [], ◌∷◌, ◌++◌, length, take-all, length-append, append_assoc, append-nil,
}
use tflib.Str.{Str, strcat}
use tflib.Str.Holds.{Holds, strcat-Holds}
use tflib.Format.{append, each_char}
use tflib.Format.Escapes.{flat}

-- The call appends `text` to a string that has room for it below 2^31.
abbrev pub Appends : List ℕ → (Str → Option Str) → Type 0
Appends text f =
    (s : Str) (bs : List ℕ)
    → Holds s bs
    → length bs + length text + 1 < 2 ^ 31
    → Returns (f s) (λ s'. Holds s' (bs ++ text))

pub append-Appends : (text : List ℕ) → Appends text (λ s. append s text)
unfolding append
append-Appends text s bs h small =
    subst (λ t. Returns (strcat s text (length text)) (λ s'. Holds s' (bs ++ t)))
      (take-all (length text) text (omega arith))
      (strcat-Holds s bs text (length text) h (omega arith) small)

pub Appends-nil : Appends [] some
Appends-nil s bs h small = subst (Holds s) (sym (append-nil bs)) h

pub Appends-append :
    (t u : List ℕ) (f g : Str → Option Str)
    → Appends t f
    → Appends u g
    → Appends (t ++ u) (λ s. f s >>= g)
Appends-append t u f g hf hg s bs h small =
    let size = length-append t u in
    let size' = length-append bs t in
    Returns-bind (f s) g (λ s'. Holds s' (bs ++ t)) _ (hf s bs h (omega (arith, small, size)))
      (λ s' h'.
        subst (λ x. Returns (g s') (λ s''. Holds s'' x)) (append_assoc bs t u)
          (hg s' (bs ++ t) h' (omega (arith, small, size, size'))))

pub each_char-Appends : (f : ℕ → List ℕ) (tmp : List ℕ) → Appends (flat f tmp) (each_char f tmp)
unfolding each_char
each_char-Appends f [] = Appends-nil
each_char-Appends f (c ∷ tmp) =
    Appends-append (f c) (flat f tmp) (λ s. append s (f c)) (each_char f tmp) (append-Appends (f c))
      (each_char-Appends f tmp)
