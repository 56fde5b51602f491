-- ===== src/ArrayList/Serial/Load.antt =====
-- What `tf_list_load` of tflib/tf_list.c makes of a dump.
use tflib.Common.{ℕ, zero, suc, ◌+◌, ◌*◌, ◌/◌, ◌^◌, ◌≤◌, ◌<◌, ◌≡◌, refl, arith, ap, sym, ◌>>=◌, ◌∙◌}
use tflib.Common.{List, [], ◌∷◌, ◌++◌, length, All, Returns}
use tflib.Common.{append_assoc, append-nil, length-append, Returns-bind, Returns-map}
use tflib.Common.{leb, le→leb, lt→leb_false, drop-append_length}
use tflib.Common.Bytes.{read_front}
use tflib.Vnum.RoundTrip.{read_vnum-append}
use tflib.ArrayList.{ArrayList, new_list}
use tflib.ArrayList.Holds.{Holds, HasRoom, grown-HasRoom, new_list-Holds}
use tflib.ArrayList.Ends.{pushed_array, write_pushed, pushed-Holds}
use tflib.ArrayList.Serial.{load_reserve, load_loop, load, dump}
use tflib.ArrayList.Serial.Dump.{Serial, nothing, item, total_size, dump-Holds}

-- The list that the loop fills.
record Filling (l : ArrayList) (xs : List (List ℕ)) : Type 0 where
  holds : Holds l xs
  from_zero : l.start ≡ 0
  some_cell : 0 < l.anum

start-load_reserve : (l : ArrayList) → (load_reserve l).start ≡ l.start
unfolding load_reserve
start-load_reserve l = ground arith

num-load_reserve : (l : ArrayList) → (load_reserve l).num ≡ l.num
unfolding load_reserve
num-load_reserve l = ground arith

anum-load_reserve : (l : ArrayList) → l.anum ≤ (load_reserve l).anum
unfolding load_reserve
anum-load_reserve l = ground arith

load_reserve-HasRoom :
    (l : ArrayList) (xs : List (List ℕ)) → Filling l xs → HasRoom (load_reserve l) xs
unfolding load_reserve
load_reserve-HasRoom l xs f =
    grown-HasRoom xs f.holds (l.anum * 2) l.anum (omega arith) f.some_cell (leb l.anum l.num)
      (ap (leb l.anum) (omega (arith, f.from_zero)))

loaded : (l : ArrayList) (ys : List (List ℕ)) (x : List ℕ) → HasRoom (load_reserve l) ys → ArrayList
loaded l ys x room = record (load_reserve l) {
  array = pushed_array (load_reserve l) ys x (length x) refl room l.num (sym (num-load_reserve l));
  num = l.num + 1;
}

loaded-Filling :
    (l : ArrayList) (ys : List (List ℕ)) (x : List ℕ) (room : HasRoom (load_reserve l) ys)
    → Filling l ys
    → Filling (loaded l ys x room) (ys ++ x ∷ [])
unfolding loaded
loaded-Filling l ys x room f = record {
  holds = pushed-Holds (load_reserve l) ys x (length x) refl room l.num (sym (num-load_reserve l));
  from_zero = start-load_reserve l ∙ f.from_zero;
  some_cell = omega (arith, anum-load_reserve l, f.some_cell);
}

load_loop-Serial :
    (fuel : ℕ) (xs : List (List ℕ)) (bs behind : List ℕ) (pos size : ℕ) (l : ArrayList)
    (ys : List (List ℕ))
    → Serial xs bs
    → Filling l ys
    → All (λ x. length x < 2 ^ 31) xs
    → length bs ≤ fuel
    → pos + length bs ≡ size
    → Returns (load_loop fuel (bs ++ behind) pos size l) (λ l'. Holds l' (ys ++ xs))
unfolding load_loop loaded
load_loop-Serial zero [] bs behind pos size l ys nothing f small enough e =
    rw (le→leb size pos (omega arith), append-nil) f.holds
load_loop-Serial (suc fuel) [] bs behind pos size l ys nothing f small enough e =
    rw (le→leb size pos (omega arith), append-nil) f.holds
load_loop-Serial zero _ bs behind pos size l ys (item x {xs = xs} v rest enc eb s) f small enough
      e =
    absurd (omega (arith, ap (length {A = ℕ}) eb, length-append v (x ++ rest), enc.some_byte))
load_loop-Serial (suc fuel) _ bs behind pos size l ys (item x {xs = xs} v rest enc eb s) f small
      enough e =
    let n : length bs ≡ length v + (length x + length rest) =
      omega (arith, ap (length {A = ℕ}) eb, length-append v (x ++ rest), length-append x rest) in
    let regroup : bs ++ behind ≡ v ++ (x ++ (rest ++ behind)) = rw eb (simp append_assoc) in
    let room : HasRoom (load_reserve l) ys = load_reserve-HasRoom l ys f in
    rw
      (
        lt→leb_false size pos (omega (arith, enc.some_byte)),
        regroup,
        read_vnum-append (length x) v (x ++ (rest ++ behind)) small.0 enc,
        drop-append_length (length v) v (x ++ (rest ++ behind)) refl,
        read_front x (rest ++ behind),
        drop-append_length (length x) x (rest ++ behind) refl,
        write_pushed (load_reserve l) ys x (length x) refl room l.num (sym (num-load_reserve l))
            l.num (omega (arith, start-load_reserve l, f.from_zero)),
      )
      (Returns-map
        (load_loop fuel (rest ++ behind) (pos + length v + length x) size (loaded l ys x room))
        (λ l'. Holds l' ((ys ++ x ∷ []) ++ xs)) _
        (load_loop-Serial fuel xs rest behind (pos + length v + length x) size (loaded l ys x room)
          (ys ++ x ∷ []) s (loaded-Filling l ys x room f) small.1 (omega (arith, enc.some_byte))
          (omega arith))
        (λ l' h. rw append_assoc at h))

new_list-Filling : (anum : ℕ) → 0 < anum → Filling (new_list anum) []
new_list-Filling anum pos = record {
  holds = new_list-Holds anum;
  from_zero = refl;
  some_cell = pos;
}

small_enough :
    (xs : List (List ℕ)) → All (λ x. length x < 2 ^ 28) xs → All (λ x. length x < 2 ^ 31) xs
small_enough [] h = tt
small_enough (x ∷ xs) h = (omega (arith, h.0), small_enough xs h.1)

-- A list that holds `xs`, each string of which is shorter than 2^28 bytes and whose dump is reckoned
-- below 2^31 - 1, is dumped, and the dump is loaded as a list that holds `xs`, whatever lies behind it.
pub load-dump :
    (l : ArrayList) (xs : List (List ℕ)) (behind : List ℕ)
    → Holds l xs
    → All (λ x. length x < 2 ^ 28) xs
    → total_size xs + 1 < 2 ^ 31
    → Returns (do buf ← dump l; load (buf ++ behind) (length buf)) (λ l'. Holds l' xs)
unfolding load
load-dump l xs behind h small fits =
    Returns-bind (dump l) _ (Serial xs) (λ l'. Holds l' xs) (dump-Holds l xs h small fits)
      (λ buf s.
        load_loop-Serial (length buf) xs buf behind 0 (length buf) (new_list (length buf / 4 + 1))
          [] s (new_list-Filling (length buf / 4 + 1) (omega arith)) (small_enough xs small)
          (omega arith) (omega arith))
