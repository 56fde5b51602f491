-- ===== src/Checks/Lists.antt =====
-- Inputs of the theorems on tflib/tf_list.c and tflib/tf_string.c.
use tflib.Common.{ℕ, ◌≡◌, refl, arith, ◌>>=◌, none, some, List, [], ◌∷◌, ◌++◌, All}
use tflib.Common.{length, Returns}
use tflib.Vnum.{set_vnum, read_vnum, vnum_size}
use tflib.Vnum.RoundTrip.{read_vnum-set_vnum}
use tflib.Common.Bytes.{IsByte}
use tflib.ArrayList.{ArrayList, new_node, push, insert, remove, over}
use tflib.ArrayList.Cells.{NodeHolds}
use tflib.ArrayList.Holds.{IsElement}
use tflib.ArrayList.Ends.{push-Holds}
use tflib.ArrayList.Middle.{remove-Holds, over-Holds}
use tflib.ArrayList.Insert.{insert-Holds}
use tflib.ArrayList.Serial.{dump, load}
use tflib.ArrayList.Serial.Load.{load-dump}
use tflib.ArrayList.Holds
use tflib.Str.{Str}
use tflib.Str.Holds as Strings
use tflib.Str.Holds.{strcat-Holds, strcat2-Holds, strnew-strnew2-strdup-strclear-Holds}

abbrev pub ant : List ℕ
ant = 97 ∷ 110 ∷ 116 ∷ []

abbrev pub bee : List ℕ
bee = 98 ∷ 101 ∷ 101 ∷ []

-- A list of two strings, with a cell free on either side.
abbrev pub two : ArrayList
two = record {
  array = none ∷ some (new_node ant 3) ∷ some (new_node bee 3) ∷ none ∷ [];
  anum = 4;
  start = 1;
  num = 2;
}

ant-NodeHolds : NodeHolds (new_node ant 3) ant
ant-NodeHolds = record { slack = []; region = refl; sized = refl }

bee-NodeHolds : NodeHolds (new_node bee 3) bee
bee-NodeHolds = record { slack = []; region = refl; sized = refl }

pub two-Holds : Holds.Holds two (ant ∷ bee ∷ [])
two-Holds = record {
  front = none ∷ [];
  used = some (new_node ant 3) ∷ some (new_node bee 3) ∷ [];
  back = none ∷ [];
  layout = refl;
  starts = refl;
  counts = refl;
  sized = refl;
  holds = (ant-NodeHolds, (bee-NodeHolds, tt));
}

push-Holds_example :
    Returns
      (push two (99 ∷ 97 ∷ 116 ∷ []) 2)
      (λ l'. Holds.Holds l' (ant ∷ bee ∷ (99 ∷ 97 ∷ []) ∷ []))
push-Holds_example =
    push-Holds two (ant ∷ bee ∷ []) (99 ∷ 97 ∷ 116 ∷ []) 2 two-Holds (omega arith) (omega arith)
      (omega arith)

remove-Holds_example : Returns (remove two 0) (λ r. Holds.Holds r.0 (bee ∷ []) × IsElement r.1 ant)
remove-Holds_example = remove-Holds two [] ant (bee ∷ []) two-Holds

over-Holds_example :
    Returns (over two 1 (99 ∷ 97 ∷ []) 2) (λ l'. Holds.Holds l' (ant ∷ (99 ∷ 97 ∷ []) ∷ []))
over-Holds_example =
    over-Holds two (ant ∷ []) bee [] (99 ∷ 97 ∷ []) 2 two-Holds (omega arith) (omega arith)

insert-Holds_example :
    Returns (insert two 1 (99 ∷ 97 ∷ []) 2) (λ l'. Holds.Holds l' (ant ∷ (99 ∷ 97 ∷ []) ∷ bee ∷ []))
insert-Holds_example =
    insert-Holds two (ant ∷ []) (bee ∷ []) (99 ∷ 97 ∷ []) 2 two-Holds (omega arith) (omega arith)
      (omega arith)

load-dump_example :
    Returns
      (do buf ← dump two; load (buf ++ 0 ∷ []) (length buf))
      (λ l'. Holds.Holds l' (ant ∷ bee ∷ []))
load-dump_example =
    load-dump two (ant ∷ bee ∷ []) (0 ∷ []) two-Holds (omega arith, (omega arith, tt)) (omega arith)

read_vnum-set_vnum_example : Returns (set_vnum 300) (λ bs.
    (read_vnum (bs ++ 7 ∷ []) ≡ some (300, length bs))
    × (length bs ≡ vnum_size 300)
    × All IsByte bs)
read_vnum-set_vnum_example = read_vnum-set_vnum 300 (7 ∷ []) (omega arith)

-- A string object with `ant`, in the least region there is.
abbrev ant_object : Str
ant_object = record { ptr = ant ++ 0 ∷ []; room = 16; size = 3; asize = 16 }

ant_object-Holds : Strings.Holds ant_object ant
ant_object-Holds = record {
  slack = [];
  region = refl;
  sized = refl;
  fits = omega arith;
  asize_fits = omega arith;
  asize_near = omega arith;
}
