-- ===== src/Files/Copies.antt =====
-- What `tf_copyfile` of tflib/tf_file.c copies, whatever the system answers.
use tflib.Common.{
  ℕ, ◌<◌, ◌≡◌, ◌≢◌, refl, sym, ap, ◌∙◌, arith, Bool, true, false, ◌&&◌, some, List, [], ◌∷◌, ◌++◌,
  length, take, append_assoc, append-nil,
}
use tflib.Socket.{ReadAnswer, got, WriteAnswer}
use tflib.Socket.Writes.{total_taken, WriteGoesOn}
use tflib.Files.{Handles, write, copy_loop, copyfile}
use tflib.Files.Transfers.{write-whole, write-broken}

-- The bytes that the reads give, in order.
abbrev pub source : List (ReadAnswer × List WriteAnswer) → List ℕ
source [] = []
source ((got bytes, writes) ∷ answers) = bytes ++ source answers
source ((ReadAnswer.retry, writes) ∷ answers) = source answers
source ((ReadAnswer.broken, writes) ∷ answers) = source answers

-- Reads that give bytes or are to retry, and writes that go on and take each piece.
abbrev pub CopyGoesOn : List (ReadAnswer × List WriteAnswer) → Type 0
CopyGoesOn [] = Unit {0}
CopyGoesOn ((got bytes, writes) ∷ answers) =
    (length bytes ≢ 0)
    × WriteGoesOn writes
    × (total_taken writes ≡ length bytes)
    × CopyGoesOn answers
CopyGoesOn ((ReadAnswer.retry, writes) ∷ answers) = CopyGoesOn answers
CopyGoesOn ((ReadAnswer.broken, writes) ∷ answers) = ⊥

copy_loop-append :
    (answers rest : List (ReadAnswer × List WriteAnswer)) (out : List ℕ)
    → CopyGoesOn answers
    → copy_loop (answers ++ rest) out ≡ copy_loop rest (out ++ source answers)
unfolding copy_loop
copy_loop-append [] rest out h = rw (append-nil out) refl
copy_loop-append ((got [], writes) ∷ answers) rest out h = absurd (h.0 refl)
copy_loop-append ((got (b ∷ bytes), writes) ∷ answers) rest out h =
    let whole : write writes (b ∷ bytes) ≡ some (record { done = true; bytes = b ∷ bytes }) =
      ap (λ w. write w (b ∷ bytes)) (sym (append-nil writes))
      ∙ write-whole writes [] (b ∷ bytes) h.1 h.0 h.2 in
    rw whole (
      copy_loop-append answers rest (out ++ (b ∷ bytes)) h.3
      ∙ rw (append_assoc out (b ∷ bytes) (source answers)) refl)
copy_loop-append ((ReadAnswer.retry, writes) ∷ answers) rest out h =
    copy_loop-append answers rest out h
copy_loop-append ((ReadAnswer.broken, writes) ∷ answers) rest out h = elim h [ ]

copy_loop-broken :
    (rest : List (ReadAnswer × List WriteAnswer)) (writes more : List WriteAnswer)
    (piece out : List ℕ)
    → WriteGoesOn writes
    → total_taken writes < length piece
    → copy_loop ((got piece, writes ++ WriteAnswer.broken ∷ more) ∷ rest) out
      ≡ some (record { done = false; bytes = out ++ take (total_taken writes) piece })
unfolding copy_loop
copy_loop-broken rest writes more [] out goes part = absurd (omega (arith, part))
copy_loop-broken rest writes more (b ∷ piece) out goes part =
    rw (write-broken writes more (b ∷ piece) goes part) refl

-- Both files open.
abbrev pub opened : Bool → Bool → Handles
opened out in' = record { opens_in = true; opens_out = true; closes_out = out; closes_in = in' }

-- Where the files open, the reads give bytes or are to retry, and the writes take each piece in as
-- many parts as they like: at the end of the file the target is the source, and the copy succeeds
-- where both files close; at an error of a read, or of a write of which a part of the piece is left,
-- it fails, and the target is the bytes before the error.
pub copyfile_lem :
    (out in' : Bool) (answers rest : List (ReadAnswer × List WriteAnswer))
    (writes more : List WriteAnswer) (piece : List ℕ)
    → CopyGoesOn answers
    → WriteGoesOn writes
    → total_taken writes < length piece
    → (copyfile (opened out in') (answers ++ (got [], writes) ∷ rest)
        ≡ some (record { done = out && in'; target = some (source answers) }))
      × (copyfile (opened out in') (answers ++ (ReadAnswer.broken, writes) ∷ rest)
          ≡ some (record { done = false; target = some (source answers) }))
      × (copyfile
            (opened out in')
            (answers ++ (got piece, writes ++ WriteAnswer.broken ∷ more) ∷ rest)
          ≡ some (record {
            done = false;
            target = some (source answers ++ take (total_taken writes) piece);
          }))
unfolding copyfile copy_loop
copyfile_lem out in' answers rest writes more piece h goes part = (
  rw (copy_loop-append answers ((got [], writes) ∷ rest) [] h) refl,
  rw (copy_loop-append answers ((ReadAnswer.broken, writes) ∷ rest) [] h) refl,
  rw
      (
        copy_loop-append answers ((got piece, writes ++ WriteAnswer.broken ∷ more) ∷ rest) [] h,
        copy_loop-broken rest writes more piece (source answers) goes part,
      )
      refl,
)
