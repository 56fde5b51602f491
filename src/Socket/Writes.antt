-- ===== src/Socket/Writes.antt =====
-- What `tfnet_write` of tflib/tf_socket.c writes, whatever the system answers.
use tflib.Common.{
  ne→==_false, ℕ, ◌+◌, ◌≤◌, ◌<◌, ◌≡◌, ◌≢◌, refl, sym, ap, ◌∙◌, arith, ltb, ◌==◌, Bool-cases, inl,
  inr, true, false,
}
use tflib.Common.{
  none, some, List, [], ◌∷◌, ◌++◌, length, take, drop, append_assoc, take_add, drop_add, append-nil,
}
use tflib.Common.{==_iff, lt→ltb, length-drop, take-all}
use tflib.Socket.{WriteAnswer, took}
use tflib.Socket.{write_loop, tfnet_write}

-- Answers to writes that go on, each of some of what is left of `buf`.
abbrev pub total_taken : List WriteAnswer → ℕ
total_taken [] = 0
total_taken (took n ∷ answers) = n + total_taken answers
total_taken (WriteAnswer.retry ∷ answers) = total_taken answers
total_taken (WriteAnswer.broken ∷ answers) = total_taken answers

abbrev pub write_retries : List WriteAnswer → ℕ
write_retries [] = 0
write_retries (WriteAnswer.retry ∷ answers) = 1 + write_retries answers
write_retries (took n ∷ answers) = write_retries answers
write_retries (WriteAnswer.broken ∷ answers) = write_retries answers

abbrev pub WriteGoesOn : List WriteAnswer → Type 0
WriteGoesOn [] = Unit {0}
WriteGoesOn (took n ∷ answers) = (n ≢ 0) × WriteGoesOn answers
WriteGoesOn (WriteAnswer.retry ∷ answers) = WriteGoesOn answers
WriteGoesOn (WriteAnswer.broken ∷ answers) = ⊥

write_loop-done :
    (rest : List WriteAnswer) (buf : List ℕ) (loop : ℕ) (out : List ℕ)
    → length buf ≡ 0
    → write_loop rest buf loop out ≡ some (record { done = some (length out); sent = out })
unfolding write_loop
write_loop-done [] buf loop out e = rw e refl
write_loop-done (took n ∷ rest) buf loop out e = rw e refl
write_loop-done (WriteAnswer.retry ∷ rest) buf loop out e = rw e refl
write_loop-done (WriteAnswer.broken ∷ rest) buf loop out e = rw e refl

write_loop-append :
    (answers rest : List WriteAnswer) (buf : List ℕ) (loop : ℕ) (out : List ℕ)
    → WriteGoesOn answers
    → loop + write_retries answers ≤ 20
    → total_taken answers ≤ length buf
    → write_loop (answers ++ rest) buf loop out
      ≡ write_loop rest
          (drop (total_taken answers) buf)
          (loop + write_retries answers)
          (out ++ take (total_taken answers) buf)
unfolding write_loop
write_loop-append [] rest buf loop out h few fits =
    let l : loop + 0 ≡ loop = omega arith in rw (l, append-nil out) refl
write_loop-append (took n ∷ answers) rest buf loop out h few fits =
    rw (ne→==_false (length buf) 0 (λ e. h.0 (omega (arith, e))), ne→==_false n 0 h.0)
      (write_loop-append answers rest (drop n buf) loop (out ++ take n buf) h.1 few
          (omega (arith, length-drop n buf))
        ∙ rw
            (
              drop_add n (total_taken answers) buf,
              append_assoc out (take n buf) (take (total_taken answers) (drop n buf)),
              take_add n (total_taken answers) buf,
            )
            refl)
write_loop-append (WriteAnswer.retry ∷ answers) rest buf loop out h few fits =
    let l : loop + (1 + write_retries answers) ≡ loop + 1 + write_retries answers = omega arith in
    let under : ltb 20 (loop + 1) ≡ false = ground (arith, few) in
    elim (Bool-cases (length buf == 0)) [
      | inl z ↦
          let none_left : length buf ≡ 0 = (==_iff (length buf) 0).0 z in
          let taken : total_taken answers ≡ 0 = omega (arith, none_left) in
          rw z (
            sym (
              rw (taken, append-nil out)
                (write_loop-done rest buf (loop + (1 + write_retries answers)) out none_left)))
      | inr nz ↦
          rw (nz, under)
            (write_loop-append answers rest buf (loop + 1) out h (omega arith) fits ∙ rw l refl)
    ]
write_loop-append (WriteAnswer.broken ∷ answers) rest buf loop out h few fits = elim h [ ]

-- Where the answers go on, with at most 20 to retry: once they took all of `buf`, it was sent whole and
-- in order, and its length is returned; before, what was sent is the beginning of `buf`, and an
-- error or an answer of 0 is a failure, and so is one more to retry after 20.
pub tfnet_write_lem :
    (answers rest : List WriteAnswer) (buf : List ℕ)
    → WriteGoesOn answers
    → write_retries answers ≤ 20
    → (total_taken answers ≡ length buf
        → tfnet_write (answers ++ rest) buf
          ≡ some (record { done = some (length buf); sent = buf }))
      × (total_taken answers < length buf
          → (tfnet_write answers buf ≡ none)
            × (tfnet_write (answers ++ took 0 ∷ rest) buf
                ≡ some (record { done = none; sent = take (total_taken answers) buf }))
            × (tfnet_write (answers ++ WriteAnswer.broken ∷ rest) buf
                ≡ some (record { done = none; sent = take (total_taken answers) buf }))
            × (write_retries answers ≡ 20
                → tfnet_write (answers ++ WriteAnswer.retry ∷ rest) buf
                  ≡ some (record { done = none; sent = take (total_taken answers) buf })))
unfolding tfnet_write write_loop
tfnet_write_lem answers rest buf h few =
    let t = total_taken answers in
    let front = λ (r : List WriteAnswer).
      λ (fits : t ≤ length buf). write_loop-append answers r buf 0 [] h (omega (arith, few)) fits in
    (
      λ e.
          let over : length (drop t buf) ≡ 0 = omega (arith, length-drop t buf, e) in
          let all : take t buf ≡ buf = take-all t buf (omega (arith, e)) in
          front rest (omega (arith, e))
          ∙ write_loop-done rest (drop t buf) (0 + write_retries answers) (take t buf) over
          ∙ rw all refl,
      λ lt.
          let wants : (length (drop t buf) == 0) ≡ false =
            ne→==_false (length (drop t buf)) 0 (λ e. omega (arith, length-drop t buf, e, lt)) in
          (
            ap (λ r. write_loop r buf 0 []) (sym (append-nil answers))
                ∙ front [] (omega (arith, lt))
                ∙ rw wants refl,
            front (took 0 ∷ rest) (omega (arith, lt)) ∙ rw wants refl,
            front (WriteAnswer.broken ∷ rest) (omega (arith, lt)) ∙ rw wants refl,
            λ all.
                let over : ltb 20 (0 + write_retries answers + 1) ≡ true =
                  lt→ltb 20 _ (omega (arith, all)) in
                front (WriteAnswer.retry ∷ rest) (omega (arith, lt)) ∙ rw (wants, over) refl,
          ),
    )
