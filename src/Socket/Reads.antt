-- ===== src/Socket/Reads.antt =====
-- What `tfnet_read` of tflib/tf_socket.c reads, whatever the system answers.
use tflib.Common.{
  ne→==_false, ℕ, ◌+◌, ◌-◌, ◌≤◌, ◌<◌, ◌≡◌, ◌≢◌, refl, sym, ap, ◌∙◌, arith, ltb, ◌==◌, Bool-cases,
  inl, inr, true, false,
}
use tflib.Common.{none, some, List, [], ◌∷◌, ◌++◌, length, length-append, append_assoc, append-nil}
use tflib.Common.{==_iff, lt→ltb}
use tflib.Socket.{ReadAnswer, got, failed, received, read_loop, tfnet_read}

-- The bytes that come, in order.
abbrev pub bytes_of : List ReadAnswer → List ℕ
bytes_of [] = []
bytes_of (got bytes ∷ answers) = bytes ++ bytes_of answers
bytes_of (ReadAnswer.retry ∷ answers) = bytes_of answers
bytes_of (ReadAnswer.broken ∷ answers) = bytes_of answers

abbrev pub retries : List ReadAnswer → ℕ
retries [] = 0
retries (ReadAnswer.retry ∷ answers) = 1 + retries answers
retries (got bytes ∷ answers) = retries answers
retries (ReadAnswer.broken ∷ answers) = retries answers

-- No error but one to retry, and no end of the file.
abbrev pub GoesOn : List ReadAnswer → Type 0
GoesOn [] = Unit {0}
GoesOn (got bytes ∷ answers) = (length bytes ≢ 0) × GoesOn answers
GoesOn (ReadAnswer.retry ∷ answers) = GoesOn answers
GoesOn (ReadAnswer.broken ∷ answers) = ⊥

read_loop-done :
    (rest : List ReadAnswer) (loop : ℕ) (out : List ℕ)
    → read_loop rest 0 loop out ≡ some (received out)
unfolding read_loop
read_loop-done [] loop out = refl
read_loop-done (got bytes ∷ rest) loop out = refl
read_loop-done (ReadAnswer.retry ∷ rest) loop out = refl
read_loop-done (ReadAnswer.broken ∷ rest) loop out = refl

pub nil_of_length : (xs : List ℕ) → length xs ≡ 0 → xs ≡ []
nil_of_length [] h = refl
nil_of_length (x ∷ xs) h = absurd (omega arith)

-- Answers that go on are taken one after the other.
read_loop-append :
    (answers rest : List ReadAnswer) (want loop : ℕ) (out : List ℕ)
    → GoesOn answers
    → loop + retries answers ≤ 20
    → length (bytes_of answers) ≤ want
    → read_loop (answers ++ rest) want loop out
      ≡ read_loop rest
          (want - length (bytes_of answers))
          (loop + retries answers)
          (out ++ bytes_of answers)
unfolding read_loop
read_loop-append [] rest want loop out h few fits =
    let w : want - 0 ≡ want = omega arith in
    let l : loop + 0 ≡ loop = omega arith in rw (w, l, append-nil out) refl
read_loop-append (got bytes ∷ answers) rest want loop out h few fits =
    let both = length-append bytes (bytes_of answers) in
    let w : want - length bytes - length (bytes_of answers)
        ≡ want - length (bytes ++ bytes_of answers) =
      omega (arith, both) in
    rw (ne→==_false want 0 (λ e. h.0 (omega (arith, both, e))), ne→==_false (length bytes) 0 h.0)
      (read_loop-append answers rest (want - length bytes) loop (out ++ bytes) h.1 few
          (omega (arith, both))
        ∙ rw (w, append_assoc out bytes (bytes_of answers)) refl)
read_loop-append (ReadAnswer.retry ∷ answers) rest want loop out h few fits =
    let l : loop + (1 + retries answers) ≡ loop + 1 + retries answers = omega arith in
    let under : ltb 20 (loop + 1) ≡ false = ground (arith, few) in
    elim (Bool-cases (want == 0)) [
      | inl z ↦
          let none_left : want ≡ 0 = (==_iff want 0).0 z in
          let empty : bytes_of answers ≡ [] =
            nil_of_length (bytes_of answers) (omega (arith, none_left)) in
          rw z (
            sym (
              rw (none_left, empty, append-nil out)
                (read_loop-done rest (loop + (1 + retries answers)) out)))
      | inr nz ↦
          rw (nz, under)
            (read_loop-append answers rest want (loop + 1) out h (omega arith) fits ∙ rw l refl)
    ]
read_loop-append (ReadAnswer.broken ∷ answers) rest want loop out h few fits = elim h [ ]

-- Where the answers go on, with at most 20 to retry: the bytes that come, `count` in all, are received
-- in order, whatever comes behind; while fewer have come, the end of the file or an error is a
-- failure, and so is one more to retry after 20.
pub tfnet_read_lem :
    (answers rest : List ReadAnswer) (count : ℕ)
    → GoesOn answers
    → retries answers ≤ 20
    → (length (bytes_of answers) ≡ count
        → tfnet_read (answers ++ rest) count ≡ some (received (bytes_of answers)))
      × (length (bytes_of answers) < count
          → (tfnet_read answers count ≡ none)
            × (tfnet_read (answers ++ got [] ∷ rest) count ≡ some failed)
            × (tfnet_read (answers ++ ReadAnswer.broken ∷ rest) count ≡ some failed)
            × (retries answers ≡ 20
                → tfnet_read (answers ++ ReadAnswer.retry ∷ rest) count ≡ some failed))
unfolding tfnet_read read_loop
tfnet_read_lem answers rest count h few =
    let bs = bytes_of answers in
    let front = λ (r : List ReadAnswer). λ (fits : length bs ≤ count).
      read_loop-append answers r count 0 [] h (omega (arith, few)) fits in
    (
      λ e.
          let over : count - length bs ≡ 0 = omega (arith, e) in
          front rest (omega (arith, e)) ∙ rw over (read_loop-done rest (0 + retries answers) bs),
      λ lt.
          let wants : (count - length bs == 0) ≡ false =
            ne→==_false (count - length bs) 0 (λ e. omega (arith, e, lt)) in
          (
            ap (λ r. read_loop r count 0 []) (sym (append-nil answers))
                ∙ front [] (omega (arith, lt))
                ∙ rw wants refl,
            front (got [] ∷ rest) (omega (arith, lt)) ∙ rw wants refl,
            front (ReadAnswer.broken ∷ rest) (omega (arith, lt)) ∙ rw wants refl,
            λ all.
                let over : ltb 20 (0 + retries answers + 1) ≡ true =
                  lt→ltb 20 _ (omega (arith, all)) in
                front (ReadAnswer.retry ∷ rest) (omega (arith, lt)) ∙ rw (wants, over) refl,
          ),
    )
