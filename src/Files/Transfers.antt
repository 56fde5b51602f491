-- ===== src/Files/Transfers.antt =====
-- What `tf_write`, `tf_read`, `tf_writefile` and `tf_readfile` of tflib/tf_file.c move, whatever the
-- system answers.
use tflib.Common.{if◌then◌else◌, ltb}
use tflib.Common.{
  ne→==_false, ℕ, ◌-◌, ◌<◌, ◌≡◌, ◌≢◌, refl, sym, ◌∙◌, arith, ◌==◌, Bool-cases, inl, inr, true,
  false, some, List, [], ◌∷◌, ◌++◌, length, take, drop, length-append, append_assoc, take_add,
  drop_add, append-nil, ==_iff, length-drop, take-all, take-append-drop,
}
use tflib.Socket.{ReadAnswer, got, WriteAnswer, took}
use tflib.Socket.Reads.{bytes_of, retries, GoesOn, nil_of_length}
use tflib.Socket.Writes.{total_taken, WriteGoesOn}
use tflib.Files.{write_all, write, read_all, read}

-- Answers that go on and leave something are taken one after the other.
write_all-append :
    (answers rest : List WriteAnswer) (rp out : List ℕ)
    → WriteGoesOn answers
    → total_taken answers < length rp
    → write_all (answers ++ rest) rp out
      ≡ write_all rest (drop (total_taken answers) rp) (out ++ take (total_taken answers) rp)
unfolding write_all
write_all-append [] rest rp out h fits = rw (append-nil out) refl
write_all-append (took n ∷ answers) rest rp out h fits =
    let size = length-drop n rp in
    rw (ne→==_false (length (drop n rp)) 0 (λ e. omega (arith, size, e, fits))) (
      write_all-append answers rest (drop n rp) (out ++ take n rp) h.1 (omega (arith, size, fits))
      ∙ rw
          (
            drop_add n (total_taken answers) rp,
            append_assoc out (take n rp) (take (total_taken answers) (drop n rp)),
            take_add n (total_taken answers) rp,
          )
          refl)
write_all-append (WriteAnswer.retry ∷ answers) rest rp out h fits =
    rw (ne→==_false (length rp) 0 (λ e. omega (arith, e, fits)))
      (write_all-append answers rest rp out h fits)
write_all-append (WriteAnswer.broken ∷ answers) rest rp out h fits = elim h [ ]

-- Answers that take all of `rp`.
write_all-whole :
    (answers rest : List WriteAnswer) (rp out : List ℕ)
    → WriteGoesOn answers
    → length rp ≢ 0
    → total_taken answers ≡ length rp
    → write_all (answers ++ rest) rp out ≡ some (record { done = true; bytes = out ++ rp })
unfolding write_all
write_all-whole [] rest rp out h some_left all = absurd (some_left (sym all))
write_all-whole (took n ∷ answers) rest rp out h some_left all =
    elim (Bool-cases (length (drop n rp) == 0)) [
      | inl z ↦
          let over : length (drop n rp) ≡ 0 = (==_iff (length (drop n rp)) 0).0 z in
          rw (z, take-all n rp (omega (arith, over, length-drop n rp))) refl
      | inr more ↦
          let left : length (drop n rp) ≢ 0 = λ e. ground (arith, e, more) in
          rw more (
            write_all-whole answers rest (drop n rp) (out ++ take n rp) h.1 left
              (omega (arith, all, length-drop n rp, left))
            ∙ rw (append_assoc out (take n rp) (drop n rp), take-append-drop n rp) refl)
    ]
write_all-whole (WriteAnswer.retry ∷ answers) rest rp out h some_left all =
    rw (ne→==_false (length rp) 0 some_left) (write_all-whole answers rest rp out h some_left all)
write_all-whole (WriteAnswer.broken ∷ answers) rest rp out h some_left all = elim h [ ]

-- Answers that go on and take all of `buf` write it whole.
pub write-whole :
    (answers rest : List WriteAnswer) (buf : List ℕ)
    → WriteGoesOn answers
    → length buf ≢ 0
    → total_taken answers ≡ length buf
    → write (answers ++ rest) buf ≡ some (record { done = true; bytes = buf })
unfolding write
write-whole answers rest buf = write_all-whole answers rest buf []

-- An error before that leaves the beginning of `buf`.
pub write-broken :
    (answers rest : List WriteAnswer) (buf : List ℕ)
    → WriteGoesOn answers
    → total_taken answers < length buf
    → write (answers ++ WriteAnswer.broken ∷ rest) buf
      ≡ some (record { done = false; bytes = take (total_taken answers) buf })
unfolding write write_all
write-broken answers rest buf h fits =
    write_all-append answers (WriteAnswer.broken ∷ rest) buf [] h fits

-- Bytes that come without an error, up to less than `size`.
read_all-append :
    (answers rest : List ReadAnswer) (size : ℕ) (out : List ℕ)
    → GoesOn answers
    → retries answers ≡ 0
    → length (bytes_of answers) < size
    → read_all (answers ++ rest) size out
      ≡ read_all rest (size - length (bytes_of answers)) (out ++ bytes_of answers)
unfolding read_all
read_all-append [] rest size out h calm fits =
    let s : size - 0 ≡ size = omega arith in rw (s, append-nil out) refl
read_all-append (got [] ∷ answers) rest size out h calm fits = absurd (h.0 refl)
read_all-append (got (b ∷ bytes) ∷ answers) rest size out h calm fits =
    let both = length-append (b ∷ bytes) (bytes_of answers) in
    let w : size - length (b ∷ bytes) - length (bytes_of answers)
        ≡ size - length ((b ∷ bytes) ++ bytes_of answers) =
      omega (arith, both) in
    rw (ne→==_false (size - length (b ∷ bytes)) 0 (λ e. omega (arith, e, both, fits))) (
      read_all-append answers rest (size - length (b ∷ bytes)) (out ++ (b ∷ bytes)) h.1 calm
        (omega (arith, both, fits))
      ∙ rw (w, append_assoc out (b ∷ bytes) (bytes_of answers)) refl)
read_all-append (ReadAnswer.retry ∷ answers) rest size out h calm fits =
    absurd (omega (arith, calm))
read_all-append (ReadAnswer.broken ∷ answers) rest size out h calm fits = elim h [ ]

read_all-whole :
    (answers rest : List ReadAnswer) (size : ℕ) (out : List ℕ)
    → GoesOn answers
    → retries answers ≡ 0
    → 0 < size
    → length (bytes_of answers) ≡ size
    → read_all (answers ++ rest) size out
      ≡ some (record { done = true; bytes = out ++ bytes_of answers })
unfolding read_all
read_all-whole [] rest size out h calm some_left all = absurd (omega (arith, some_left, all))
read_all-whole (got [] ∷ answers) rest size out h calm some_left all = absurd (h.0 refl)
read_all-whole (got (b ∷ bytes) ∷ answers) rest size out h calm some_left all =
    let both = length-append (b ∷ bytes) (bytes_of answers) in
    elim (Bool-cases (size - length (b ∷ bytes) == 0)) [
      | inl z ↦
          let over : size - length (b ∷ bytes) ≡ 0 = (==_iff (size - length (b ∷ bytes)) 0).0 z in
          rw
            (z, nil_of_length (bytes_of answers) (omega (arith, over, both, all)), append-nil bytes)
            refl
      | inr more ↦
          let left : 0 < size - length (b ∷ bytes) = ground (arith, more) in
          rw more (
            read_all-whole answers rest (size - length (b ∷ bytes)) (out ++ (b ∷ bytes)) h.1 calm
              left (omega (arith, both, all))
            ∙ rw (append_assoc out (b ∷ bytes) (bytes_of answers)) refl)
    ]
read_all-whole (ReadAnswer.retry ∷ answers) rest size out h calm some_left all =
    absurd (omega (arith, calm))
read_all-whole (ReadAnswer.broken ∷ answers) rest size out h calm some_left all = elim h [ ]

-- Where reads give bytes without an error: once they are `size`, which is not 0, the call succeeds
-- with them in order; before, the end of the file and any error, one to retry too, make it fail.
pub read_lem :
    (answers rest : List ReadAnswer) (size : ℕ)
    → GoesOn answers
    → retries answers ≡ 0
    → 0 < size
    → (length (bytes_of answers) ≡ size
        → read (answers ++ rest) size ≡ some (record { done = true; bytes = bytes_of answers }))
      × (length (bytes_of answers) < size
          → (read (answers ++ got [] ∷ rest) size
              ≡ some (record { done = false; bytes = bytes_of answers }))
            × (read (answers ++ ReadAnswer.broken ∷ rest) size
                ≡ some (record { done = false; bytes = bytes_of answers }))
            × (read (answers ++ ReadAnswer.retry ∷ rest) size
                ≡ some (record { done = false; bytes = bytes_of answers })))
unfolding read read_all
read_lem answers rest size h calm some_left =
    let bs = bytes_of answers in
    (
      read_all-whole answers rest size [] h calm some_left,
      λ lt.
          let wants : (size - length bs == 0) ≡ false =
            ne→==_false (size - length bs) 0 (λ e. omega (arith, e, lt)) in
          let front = λ (r : List ReadAnswer). read_all-append answers r size [] h calm lt in
          (
            front (got [] ∷ rest) ∙ rw wants refl,
            front (ReadAnswer.broken ∷ rest),
            front (ReadAnswer.retry ∷ rest) ∙ rw wants refl,
          ),
    )

-- What a limit leaves of a file.
abbrev pub limited : ℕ → List ℕ → List ℕ
limited limit buf = if ltb 0 limit then take limit buf else buf
