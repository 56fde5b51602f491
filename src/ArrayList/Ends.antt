-- ===== src/ArrayList/Ends.antt =====
-- The end of a list: `tf_list_push`, `tf_list_push2`, `tf_list_new3` and `tf_list_pop` of
-- tflib/tf_list.c, on a list that holds a sequence of strings.
use tflib.Common.{Returns-map, Bool-cases, leb, leb→le, inl, inr, ◌⊎◌}
use tflib.Common.{ℕ, ◌+◌, ◌-◌, ◌≤◌, ◌≡◌, refl, Option, some, List, [], ◌∷◌, ◌++◌, arith}
use tflib.Common.{
  length, take, take-all, ◌^◌, ◌<◌, append_assoc, length-append, Returns, le→ltb_false, sym, ap,
  length-take,
}
use tflib.ArrayList.{Node, ArrayList, write_cell, new_node, push, push2, pop}
use tflib.ArrayList.Cells.{Cells-append, length-Cells, new_node-NodeHolds}
use tflib.ArrayList.Focus.{Focus, focus, read-Focus}
use tflib.ArrayList.Holds.{
  reserved, IsElement, Holds, HasRoom, reserved-HasRoom, Holds-fits, reserve_fits, fill_node_fits,
  start-reserved, num-reserved, write_next, length_layout,
}

-- What a push leaves of a list `r` with room and `n` elements.
module _ (r : ArrayList) (xs : List (List ℕ)) (bs : List ℕ) (size : ℕ) (e : size ≡ length bs)
    (room : HasRoom r xs) (n : ℕ) (en : n ≡ r.num) where
  pub pushed_array : List (Option Node)
  pushed_array = room.front ++ (room.used ++ some (new_node bs size) ∷ room.back)

  pub write_pushed :
      (i : ℕ) → i ≡ r.start + n → write_cell r.array i (new_node bs size) ≡ some pushed_array
  unfolding pushed_array
  write_pushed i ei = rw room.layout (
      write_next room.front room.used room.back room.next i (new_node bs size)
        (omega (arith, room.starts, room.counts, length-Cells room.used xs room.holds)))

  pub pushed-Holds : Holds (record r { array = pushed_array; num = n + 1 }) (xs ++ bs ∷ [])
  unfolding pushed_array
  pushed-Holds = record {
    front = room.front;
    used = room.used ++ some (new_node bs size) ∷ [];
    back = room.back;
    layout = rw (append_assoc room.used (some (new_node bs size) ∷ []) room.back);
    starts = room.starts;
    counts = omega (arith, room.counts, length-append xs (bs ∷ []));
    sized = omega (
      arith,
      room.sized,
      ap (length {A = Option Node}) room.layout,
      length_layout room.front room.used (room.next ∷ room.back),
      length_layout room.front room.used (some (new_node bs size) ∷ room.back),
    );
    holds = Cells-append room.used xs _ _ room.holds (new_node-NodeHolds bs size e, tt);
  }

reserve_end : (l : ArrayList) → l.start + l.num ≡ (reserved l).start + l.num
reserve_end l = omega (arith, start-reserved l)

-- The list has one element more, and as many cells, or more where it was full.
abbrev pub Grows : ArrayList → ArrayList → Type 0
Grows l l' =
    (l'.start ≡ l.start)
    × (l'.num ≡ l.num + 1)
    × ((l'.anum ≡ l.anum) ⊎ ((l'.anum ≡ l.anum + (l.num + 1)) × (l.anum ≤ l.start + l.num)))

reserved-Grows :
    (l : ArrayList) (array : List (Option Node))
    → Grows l (record (reserved l) { array = array; num = l.num + 1 })
unfolding reserved
reserved-Grows l array = elim (Bool-cases (leb l.anum (l.start + l.num))) [
  | inl full ↦ rw full (refl, refl, inr (refl, leb→le l.anum (l.start + l.num) full))
  | inr free ↦ rw free (refl, refl, inl refl)
]

pub push-Grows :
    (l : ArrayList) (xs : List (List ℕ)) (ptr : List ℕ) (size : ℕ)
    → Holds l xs
    → size ≤ length ptr
    → l.anum + l.num + 1 < 2 ^ 31
    → size + 1 < 2 ^ 31
    → Returns (push l ptr size) (λ l'. Holds l' (xs ++ take size ptr ∷ []) × Grows l l')
unfolding push
push-Grows l xs ptr size h fits grows small =
    let e : size ≡ length (take size ptr) = omega (arith, length-take size ptr) in
    rw
      (
        reserve_fits l (Holds-fits xs h) grows,
        fill_node_fits ptr size fits small,
        write_pushed (reserved l) xs (take size ptr) size e (reserved-HasRoom xs h) l.num
            (sym (num-reserved l)) (l.start + l.num) (reserve_end l),
      )
      (
        pushed-Holds (reserved l) xs (take size ptr) size e (reserved-HasRoom xs h) l.num
            (sym (num-reserved l)),
        reserved-Grows l (
            pushed_array (reserved l) xs (take size ptr) size e (reserved-HasRoom xs h) l.num
              (sym (num-reserved l))),
      )

-- Where `anum + num + 1` and `size + 1` are of type `int`, a push onto a list that holds `xs`, of `size`
-- bytes of a region that has them, comes back, and the
-- list then holds `xs` with those bytes as the last string, whether or not the array had to grow.
pub push-Holds :
    (l : ArrayList) (xs : List (List ℕ)) (ptr : List ℕ) (size : ℕ)
    → Holds l xs
    → size ≤ length ptr
    → l.anum + l.num + 1 < 2 ^ 31
    → size + 1 < 2 ^ 31
    → Returns (push l ptr size) (λ l'. Holds l' (xs ++ take size ptr ∷ []))
push-Holds l xs ptr size h fits grows small =
    Returns-map (push l ptr size) _ _ (push-Grows l xs ptr size h fits grows small) (λ l' r. r.0)

-- A push of a C string onto a list that holds `xs` comes back, and the list then holds `xs` with the
-- string, without its NUL, as the last one.
pub push2-Holds :
    (l : ArrayList) (xs : List (List ℕ)) (str : List ℕ)
    → Holds l xs
    → l.anum + l.num + 1 < 2 ^ 31
    → length str + 1 < 2 ^ 31
    → Returns (push2 l str) (λ l'. Holds l' (xs ++ str ∷ []))
unfolding push2
push2-Holds l xs str h grows small =
    rw
      (
        reserve_fits l (Holds-fits xs h) grows,
        fill_node_fits str (length str) (omega arith) small,
        take-all (length str) str (omega arith),
        write_pushed (reserved l) xs str (length str) refl (reserved-HasRoom xs h) l.num
            (sym (num-reserved l)) (l.start + l.num) (reserve_end l),
      )
      (pushed-Holds (reserved l) xs str (length str) refl (reserved-HasRoom xs h) l.num
        (sym (num-reserved l)))

-- A popped list that held `xs` and a last string `x` holds `xs`, and the element that comes back
-- is `x`.
pub pop-Holds :
    (l : ArrayList) (xs : List (List ℕ)) (x : List ℕ)
    → Holds l (xs ++ x ∷ [])
    → Returns (pop l) (λ r. Holds r.0 xs × IsElement r.1 x)
unfolding pop
pop-Holds l xs x h =
    let f : Focus l xs x [] = focus xs x [] h in
    rw
      (
        le→ltb_false l.num 1 (omega (arith, f.counts)),
        read-Focus xs x [] f (l.start + l.num - 1) (omega (arith, f.counts)),
      )
      (
        record {
          front = f.front;
          used = f.left;
          back = some f.node ∷ (f.right ++ f.back);
          layout = f.layout;
          starts = f.starts;
          counts = omega (arith, f.counts);
          sized = f.sized;
          holds = f.holds_left;
        },
        f.holds_node,
      )
