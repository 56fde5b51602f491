-- ===== src/Conf/Lines.antt =====
-- The lines of `tf_readlines` of tflib/tf_file.c.
use tflib.Common.{
  ℕ, ◌==◌, ◌≡◌, refl, sym, ap, ◌∙◌, if◌then◌else◌, true, Bool-cases, inl, inr, some, ne→==_false,
}
use tflib.Common.{List, [], ◌∷◌, ◌++◌, All, length, ◌≢◌, append_assoc, append-nil, map}
use tflib.Socket.{ReadAnswer, got}
use tflib.Text.Split.Joined.{joined}
use tflib.Conf.{LineReader, read_byte, read_chunk, readlines_loop, readlines}

-- The bytes of the reads, without those that are `\r`.
abbrev pub without_cr : List ℕ → List ℕ
without_cr [] = []
without_cr (c ∷ bytes) = if c == b'\r' then without_cr bytes else c ∷ without_cr bytes

abbrev pub concat : List (List ℕ) → List ℕ
concat [] = []
concat (chunk ∷ chunks) = chunk ++ concat chunks

abbrev pub IsLine : List ℕ → Type 0
IsLine line = All (λ c. (c ≢ b'\r') × (c ≢ b'\n')) line

finished : LineReader → List (List ℕ)
finished r = r.list ++ (r.xstr ∷ [])

read_chunk-append :
    (r : LineReader) (a b : List ℕ) → read_chunk r (a ++ b) ≡ read_chunk (read_chunk r a) b
unfolding read_chunk
read_chunk-append r [] b = refl
read_chunk-append r (c ∷ a) b = read_chunk-append (read_byte r c) a b

read_byte-cr : (r : LineReader) (c : ℕ) → (c == b'\r') ≡ true → read_byte r c ≡ r
unfolding read_byte
read_byte-cr r c cr = rw cr refl

read_chunk-without_cr :
    (r : LineReader) (bytes : List ℕ) → read_chunk r bytes ≡ read_chunk r (without_cr bytes)
unfolding read_chunk
read_chunk-without_cr r [] = refl
read_chunk-without_cr r (c ∷ bytes) = elim (Bool-cases (c == b'\r')) [
  | inl cr ↦
      rw cr (ap (λ r'. read_chunk r' bytes) (read_byte-cr r c cr) ∙ read_chunk-without_cr r bytes)
  | inr other ↦ rw other (read_chunk-without_cr (read_byte r c) bytes)
]

read_chunk-line :
    (r : LineReader) (line : List ℕ)
    → IsLine line
    → read_chunk r line ≡ record r { xstr = r.xstr ++ line }
unfolding read_chunk read_byte
read_chunk-line r [] h = ap (λ x. record { list = r.list; xstr = x }) (sym (append-nil r.xstr))
read_chunk-line r (c ∷ line) ((no_cr, no_nl), h) = rw (ne→==_false c b'\r' no_cr) (
    rw (ne→==_false c b'\n' no_nl) (
      read_chunk-line (record r { xstr = r.xstr ++ (c ∷ []) }) line h
      ∙ ap (λ x. record { list = r.list; xstr = x }) (append_assoc r.xstr (c ∷ []) line)))

read_chunk-newline :
    (list : List (List ℕ)) (line bytes : List ℕ)
    → read_chunk (record { list = list; xstr = line }) (b'\n' ∷ bytes)
      ≡ read_chunk (record { list = list ++ (line ∷ []); xstr = [] }) bytes
unfolding read_chunk read_byte
read_chunk-newline list line bytes = refl

read_chunk-joined :
    (list : List (List ℕ)) (line : List ℕ) (lines : List (List ℕ))
    → All IsLine (line ∷ lines)
    → finished (read_chunk (record { list = list; xstr = [] }) (joined b'\n' (line ∷ lines)))
      ≡ list ++ line ∷ lines
unfolding finished
read_chunk-joined list line [] (h, _) =
    rw (read_chunk-line (record { list = list; xstr = [] }) line h) refl
read_chunk-joined list line (next ∷ lines) (h, k) =
    let start : LineReader = record { list = list; xstr = [] } in
    let after : LineReader = record { list = list ++ (line ∷ []); xstr = [] } in
    let at_line : read_chunk start (line ++ b'\n' ∷ joined b'\n' (next ∷ lines))
        ≡ read_chunk after (joined b'\n' (next ∷ lines)) =
      read_chunk-append start line (b'\n' ∷ joined b'\n' (next ∷ lines))
      ∙ ap (λ r. read_chunk r (b'\n' ∷ joined b'\n' (next ∷ lines))) (read_chunk-line start line h)
      ∙ read_chunk-newline list line (joined b'\n' (next ∷ lines)) in
    ap finished at_line
    ∙ read_chunk-joined (list ++ (line ∷ [])) next lines k
    ∙ append_assoc list (line ∷ []) (next ∷ lines)

readlines_loop-chunks :
    (r : LineReader) (chunks : List (List ℕ)) (rest : List ReadAnswer)
    → All (λ chunk. length chunk ≢ 0) chunks
    → readlines_loop (map got chunks ++ got [] ∷ rest) r
      ≡ some (finished (read_chunk r (concat chunks)))
unfolding readlines_loop read_chunk finished
readlines_loop-chunks r [] rest h = refl
readlines_loop-chunks r ([] ∷ chunks) rest (h, k) = absurd (h refl)
readlines_loop-chunks r ((c ∷ buf) ∷ chunks) rest (h, k) =
    readlines_loop-chunks (read_chunk r (c ∷ buf)) chunks rest k
    ∙ ap (λ r'. some (finished r')) (sym (read_chunk-append r (c ∷ buf) (concat chunks)))

-- Whatever pieces a file comes in until its end: its lines are those between the `\n`, without any `\r`;
-- a file that ends with `\n` has an empty line behind it.
pub readlines_lem :
    (chunks : List (List ℕ)) (rest : List ReadAnswer) (line : List ℕ) (lines : List (List ℕ))
    → All (λ chunk. length chunk ≢ 0) chunks
    → All IsLine (line ∷ lines)
    → without_cr (concat chunks) ≡ joined b'\n' (line ∷ lines)
    → readlines (map got chunks ++ got [] ∷ rest) ≡ some (line ∷ lines)
unfolding readlines
readlines_lem chunks rest line lines h k e =
    let start : LineReader = record { list = []; xstr = [] } in
    readlines_loop-chunks start chunks rest h
    ∙ ap (λ r. some (finished r))
        (read_chunk-without_cr start (concat chunks) ∙ ap (read_chunk start) e)
    ∙ ap some (read_chunk-joined [] line lines k)
