-- ===== src/Text/Split/Joined.antt =====
-- What `tf_strjoin` of tflib/tf_util.c makes of a list, and of the pieces of a string.
use tflib.Common.{◌*◌}
use tflib.Common.{ℕ, zero, suc, ◌+◌, ◌^◌, ◌≤◌, ◌<◌, ◌≡◌, refl, ap, sym, ◌∙◌, arith}
use tflib.Common.{true, Option, none, some, List, [], ◌∷◌, ◌++◌, length, Returns, Returns-map}
use tflib.Common.{length-append, append_assoc, append-nil, lt→ltb}
use mathlib.Core.Path.{ap₂}
use tflib.ArrayList.{Node, ArrayList, val}
use tflib.ArrayList.Cells.{NodeHolds}
use tflib.ArrayList.Holds.{Holds, IsElement}
use tflib.ArrayList.Middle.{val-Holds}
use tflib.ArrayList.Holds.{to_int_fits}
use tflib.ArrayList.Serial.Dump.{put_bytes_fits, read_node}
use tflib.Text.Split.{contains, join_size, join_loop, strsplit, strjoin}
use tflib.Text.Split.Pieces.{Pieces, last, more, strsplit-Pieces}

-- `xs` with one `delim` between two of them.
abbrev pub joined : ℕ → List (List ℕ) → List ℕ
joined delim [] = []
joined delim (x ∷ []) = x
joined delim (x ∷ y ∷ xs) = x ++ delim ∷ joined delim (y ∷ xs)

-- `joined` of what is behind the first string.
abbrev tail_joined : ℕ → List (List ℕ) → List ℕ
tail_joined delim [] = []
tail_joined delim (x ∷ xs) = delim ∷ x ++ tail_joined delim xs

joined-tail_joined :
    (delim : ℕ) (x : List ℕ) (xs : List (List ℕ))
    → joined delim (x ∷ xs) ≡ x ++ tail_joined delim xs
joined-tail_joined delim x [] = sym (append-nil x)
joined-tail_joined delim x (y ∷ xs) = ap (λ t. x ++ delim ∷ t) (joined-tail_joined delim y xs)

abbrev pub sum_length : List (List ℕ) → ℕ
sum_length [] = 0
sum_length (x ∷ xs) = length x + sum_length xs

-- The node that `tf_list_val` returns for the string behind `before`.
element :
    (l : ArrayList) (before : List (List ℕ)) (x : List ℕ) (after : List (List ℕ)) (i : ℕ)
    → Holds l (before ++ x ∷ after)
    → i ≡ length before
    → (n : Node) × (val l i ≡ some (some n)) × NodeHolds n x
element l before x after i h e =
    pick (val l (length before)) (val-Holds l before x after h) (ap (val l) e)
  where
    pick :
        (o : Option (Option Node))
        → Returns o (λ r. IsElement r x)
        → val l i ≡ o
        → (n : Node) × (val l i ≡ some (some n)) × NodeHolds n x
    pick none k q = absurd k
    pick (some none) k q = absurd k
    pick (some (some n)) k q = (n, q, k)

next_place :
    (l : ArrayList) (before : List (List ℕ)) (x : List ℕ) (after : List (List ℕ))
    → Holds l (before ++ x ∷ after)
    → Holds l ((before ++ x ∷ []) ++ after)
next_place l before x after h = rw (append_assoc before (x ∷ []) after) h

join_size-Holds :
    (l : ArrayList) (before xs : List (List ℕ)) (i n size : ℕ)
    → Holds l (before ++ xs)
    → i ≡ length before
    → n ≡ length xs
    → size + sum_length xs < 2 ^ 31
    → join_size l i n size ≡ some (size + sum_length xs)
unfolding join_size
join_size-Holds l before [] i zero size h ei en fits = ap some (omega arith)
join_size-Holds l before [] i (suc n) size h ei en fits = absurd (omega arith)
join_size-Holds l before (x ∷ xs) i zero size h ei en fits = absurd (omega arith)
join_size-Holds l before (x ∷ xs) i (suc n) size h ei en fits =
    let (node, e, k) = element l before x xs i h ei in
    rw (e, k.sized, to_int_fits (size + length x) (omega arith))
      (join_size-Holds l (before ++ x ∷ []) xs (i + 1) n (size + length x)
          (next_place l before x xs h) (omega (arith, length-append before (x ∷ []))) (omega arith)
          (omega arith)
        ∙ ap some (omega arith))

length-tail_joined :
    (delim : ℕ) (xs : List (List ℕ)) → length (tail_joined delim xs) ≡ length xs + sum_length xs
length-tail_joined delim [] = omega arith
length-tail_joined delim (x ∷ xs) =
    omega (arith, length-append x (tail_joined delim xs), length-tail_joined delim xs)

-- The rounds behind the first, each with its delimiter.
join_loop-tail :
    (l : ArrayList) (delim limit : ℕ) (before xs : List (List ℕ)) (i n : ℕ) (buf : List ℕ)
    → Holds l (before ++ xs)
    → i ≡ length before
    → 0 < i
    → n ≡ length xs
    → length buf + length xs + sum_length xs + 1 ≤ limit
    → join_loop l delim limit i n buf ≡ some (buf ++ (tail_joined delim xs ++ 0 ∷ []))
unfolding join_loop
join_loop-tail l delim limit before [] i zero buf h ei pos en fits =
    put_bytes_fits limit buf (0 ∷ []) (omega arith)
join_loop-tail l delim limit before [] i (suc n) buf h ei pos en fits = absurd (omega arith)
join_loop-tail l delim limit before (x ∷ xs) i zero buf h ei pos en fits = absurd (omega arith)
join_loop-tail l delim limit before (x ∷ xs) i (suc n) buf h ei pos en fits =
    let (node, e, k) = element l before x xs i h ei in
    rw
      (
        lt→ltb 0 i pos,
        put_bytes_fits limit buf (delim ∷ []) (omega arith),
        e,
        read_node node x k,
        put_bytes_fits limit (buf ++ delim ∷ []) x (omega (arith, length-append buf (delim ∷ []))),
      )
      (join_loop-tail l delim limit (before ++ x ∷ []) xs (i + 1) n ((buf ++ delim ∷ []) ++ x)
          (next_place l before x xs h) (omega (arith, length-append before (x ∷ []))) (omega arith)
          (omega arith)
          (omega (arith, length-append (buf ++ delim ∷ []) x, length-append buf (delim ∷ [])))
        ∙ ap some (simp append_assoc))

join_loop-Holds :
    (l : ArrayList) (delim limit n : ℕ) (xs : List (List ℕ))
    → Holds l xs
    → n ≡ length xs
    → length xs + sum_length xs + 1 ≤ limit
    → join_loop l delim limit 0 n [] ≡ some (joined delim xs ++ 0 ∷ [])
unfolding join_loop
join_loop-Holds l delim limit zero [] h en fits = put_bytes_fits limit [] (0 ∷ []) (omega arith)
join_loop-Holds l delim limit (suc n) [] h en fits = absurd (omega arith)
join_loop-Holds l delim limit zero (x ∷ xs) h en fits = absurd (omega arith)
join_loop-Holds l delim limit (suc n) (x ∷ xs) h en fits =
    let (node, e, k) = element l [] x xs 0 h refl in
    rw
      (
        e,
        read_node node x k,
        put_bytes_fits limit [] x (omega arith),
        join_loop-tail l delim limit (x ∷ []) xs 1 n x h refl (omega arith) (omega arith)
            (omega arith),
        joined-tail_joined delim x xs,
      )
      (ap some (sym (append_assoc x (tail_joined delim xs) (0 ∷ []))))

-- A list that holds `xs`, few and short enough that the size of the result is an `int`, is joined to
-- one string: `xs` with the delimiter between two of them, and a NUL behind.
pub strjoin-Holds :
    (l : ArrayList) (delim : ℕ) (xs : List (List ℕ))
    → Holds l xs
    → length xs + 1 + sum_length xs < 2 ^ 31
    → strjoin l delim ≡ some (joined delim xs ++ 0 ∷ [])
unfolding strjoin
strjoin-Holds l delim xs h fits =
    rw (join_size-Holds l [] xs 0 l.num (l.num + 1) h refl h.counts (omega (arith, h.counts))) (
      join_loop-Holds l delim (l.num + 1 + sum_length xs) l.num xs h h.counts
        (omega (arith, h.counts)))

contains_one : (delim c : ℕ) → contains (delim ∷ []) c ≡ true → c ≡ delim
unfolding contains
contains_one delim c h = ground arith

tail_joined-Pieces :
    (delim : ℕ) (str : List ℕ) (xs : List (List ℕ))
    → Pieces (delim ∷ []) str xs
    → tail_joined delim xs ≡ delim ∷ joined delim xs
tail_joined-Pieces delim _ _ (last {str = str} free) = ap (◌∷◌ delim) (append-nil str)
tail_joined-Pieces delim str _ (more piece d rest {xs = xs} free isd e p) =
    ap (◌∷◌ delim) (sym (joined-tail_joined delim piece xs))

length-Pieces :
    (delims str : List ℕ) (xs : List (List ℕ))
    → Pieces delims str xs
    → length xs + sum_length xs ≡ length str + 1
length-Pieces delims _ _ (last {str = str} free) = omega arith
length-Pieces delims str _ (more piece d rest {xs = xs} free isd e p) =
    omega
      (arith, ap (length {A = ℕ}) e, length-append piece (d ∷ rest), length-Pieces delims rest xs p)

joined-Pieces :
    (delim : ℕ) (str : List ℕ) (xs : List (List ℕ))
    → Pieces (delim ∷ []) str xs
    → joined delim xs ≡ str
joined-Pieces delim _ _ (last {str = str} free) = refl
joined-Pieces delim str _ (more piece d rest {xs = xs} free isd e p) =
    let rest_joined : joined delim xs ≡ rest = joined-Pieces delim rest xs p in
    joined-tail_joined delim piece xs
    ∙ ap (λ t. piece ++ t) (tail_joined-Pieces delim rest xs p)
    ∙ ap₂ (λ c t. piece ++ c ∷ t) (sym (contains_one delim d isd)) rest_joined
    ∙ sym e

-- Splitting a string at one character and joining the pieces by it gives the string, with its NUL,
-- where three times its length and 65 more is an `int`.
pub strjoin-strsplit :
    (str : List ℕ) (delim : ℕ)
    → 3 * length str + 65 < 2 ^ 31
    → Returns (strsplit str (delim ∷ [])) (λ l. strjoin l delim ≡ some (str ++ 0 ∷ []))
strjoin-strsplit str delim fits =
    Returns-map (strsplit str (delim ∷ [])) _ _ (strsplit-Pieces str (delim ∷ []) fits)
      (λ l (xs, h, p).
        strjoin-Holds l delim xs h (omega (arith, length-Pieces (delim ∷ []) str xs p))
        ∙ ap (λ t. some (t ++ 0 ∷ [])) (joined-Pieces delim str xs p))
