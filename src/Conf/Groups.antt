-- ===== src/Conf/Groups.antt =====
-- The groups that `cfg_create` of tflib/tf_conf_file.c makes of a file.
use tflib.Common.{
  ℕ, ◌+◌, leb, ◌<◌, ◌≡◌, ◌≢◌, refl, sym, ap, ◌∙◌, false, some, none, Returns, lt→leb_false, subst,
}
use tflib.Common.{List, [], ◌∷◌, ◌++◌, All, length, append_assoc, append-nil, map}
use tflib.Socket.{ReadAnswer, got}
use tflib.Text.{stricmp}
use tflib.Text.Split.Joined.{joined}
use tflib.Conf.{
  Group, Config, is_zero, find_group, open_group, push_pair, add_pair, create_keyval, create_line,
  create_loop, cfg_create, parse_line, until,
}
use tflib.Conf.Lines.{without_cr, concat, IsLine, readlines_lem}

-- The lines of a group behind its heading: pairs, and lines that are passed over.
pub data PairLines : List (List ℕ) → List (List ℕ × List ℕ) → Type 0 where
  done : PairLines [] []
  skip :
      {lines : List (List ℕ)} {pairs : List (List ℕ × List ℕ)} (line : List ℕ)
      → parse_line (until 0 line) ≡ none
      → PairLines lines pairs
      → PairLines (line ∷ lines) pairs
  pair :
      {lines : List (List ℕ)} {pairs : List (List ℕ × List ℕ)} (line key value : List ℕ)
      → parse_line (until 0 line) ≡ some (record { key = key; value = some value })
      → PairLines lines pairs
      → PairLines (line ∷ lines) ((key, value) ∷ pairs)

-- Groups with their headings, behind the groups `before`. Their names differ, whatever the case.
pub data Sections : List Group → List (List ℕ) → List Group → Type 0 where
  none_left : {before : List Group} → Sections before [] []
  section :
      {before groups : List Group} {lines rest : List (List ℕ)} {pairs : List (List ℕ × List ℕ)}
      (line name : List ℕ)
      → parse_line (until 0 line) ≡ some (record { key = name; value = none })
      → length name < 128
      → All (λ group. is_zero (stricmp group.name name) ≡ false) before
      → PairLines lines pairs
      → Sections (before ++ (record { name = name; pairs = pairs } ∷ [])) rest groups
      → Sections before (line ∷ (lines ++ rest)) (record { name = name; pairs = pairs } ∷ groups)

find_group-new :
    (before : List Group) (name : List ℕ) (i : ℕ)
    → All (λ group. is_zero (stricmp group.name name) ≡ false) before
    → find_group before name i ≡ none
unfolding find_group
find_group-new [] name i h = refl
find_group-new (group ∷ before) name i (other, h) = rw other (find_group-new before name (i + 1) h)

push_pair-last :
    (before : List Group) (name : List ℕ) (pairs : List (List ℕ × List ℕ)) (kv : List ℕ × List ℕ)
    → push_pair (before ++ (record { name = name; pairs = pairs } ∷ [])) (length before) kv
      ≡ before ++ (record { name = name; pairs = pairs ++ (kv ∷ []) } ∷ [])
unfolding push_pair
push_pair-last [] name pairs kv = refl
push_pair-last (group ∷ before) name pairs kv = ap (◌∷◌ group) (push_pair-last before name pairs kv)

-- The state where the last group is the one that pairs go to.
abbrev at_last : List Group → List ℕ → List (List ℕ × List ℕ) → Config
at_last before name pairs = record {
  groups = before ++ (record { name = name; pairs = pairs } ∷ []);
  group = some (length before);
}

create_loop-PairLines :
    (before : List Group) (name : List ℕ) (read : List (List ℕ × List ℕ)) (rest : List (List ℕ))
    {lines : List (List ℕ)} {pairs : List (List ℕ × List ℕ)}
    → PairLines lines pairs
    → create_loop (lines ++ rest) (at_last before name read)
      ≡ create_loop rest (at_last before name (read ++ pairs))
unfolding create_loop create_line create_keyval add_pair
create_loop-PairLines before name read rest done =
    ap (λ p. create_loop rest (at_last before name p)) (sym (append-nil read))
create_loop-PairLines before name read rest (skip line e h) =
    rw e (create_loop-PairLines before name read rest h)
create_loop-PairLines before name read rest (pair {lines} {pairs} line key value e h) =
    rw (e, push_pair-last before name read (key, value))
      (create_loop-PairLines before name (read ++ ((key, value) ∷ [])) rest h
        ∙ ap (λ p. create_loop rest (at_last before name p))
            (append_assoc read ((key, value) ∷ []) pairs))

create_loop-Sections :
    (cfg : Config) (before : List Group) {lines : List (List ℕ)} {groups : List Group}
    → cfg.groups ≡ before
    → Sections before lines groups
    → Returns (create_loop lines cfg) (λ c. c.groups ≡ before ++ groups)
unfolding create_loop create_line create_keyval open_group
create_loop-Sections cfg before e none_left = e ∙ sym (append-nil before)
create_loop-Sections cfg before e
      (section {groups} {lines} {rest} {pairs} line name h short new p s) =
    let group : Group = record { name = name; pairs = pairs } in
    let fits : leb 128 (length name) ≡ false = lt→leb_false 128 (length name) short in
    rw h (
      rw e (
        rw (find_group-new before name 0 new, fits)
          (subst (λ r. Returns r (λ c. c.groups ≡ before ++ group ∷ groups))
            (sym (create_loop-PairLines before name [] rest p))
            (subst
              (λ gs. Returns (create_loop rest (at_last before name pairs)) (λ c. c.groups ≡ gs))
              (append_assoc before (group ∷ []) groups)
              (create_loop-Sections (at_last before name pairs) (before ++ (group ∷ [])) refl s)))))

-- A file whose lines, each up to its first NUL, are groups, each a heading and its pairs, with blank lines and
-- comments among them, is read as these groups with their pairs, in order, whatever pieces the file comes
-- in. The names have fewer than 128 bytes, and no two of them are equal but for their case.
pub cfg_create-Sections :
    (chunks : List (List ℕ)) (rest : List ReadAnswer) (line : List ℕ) (lines : List (List ℕ))
    (groups : List Group)
    → All (λ chunk. length chunk ≢ 0) chunks
    → All IsLine (line ∷ lines)
    → without_cr (concat chunks) ≡ joined b'\n' (line ∷ lines)
    → Sections [] (line ∷ lines) groups
    → Returns (cfg_create (map got chunks ++ got [] ∷ rest)) (λ cfg. cfg.groups ≡ groups)
unfolding cfg_create
cfg_create-Sections chunks rest line lines groups h k e s =
    rw (readlines_lem chunks rest line lines h k e)
      (create_loop-Sections (record { groups = []; group = none }) [] refl s)
