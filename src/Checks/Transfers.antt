-- ===== src/Checks/Transfers.antt =====
-- Inputs of the theorems on tflib/tf_file.c.
use tflib.Common.{
  ℕ, List, ◌∷◌, [], ◌++◌, some, true, false, ◌&&◌, length, take, ◌≡◌, ◌<◌, refl, arith,
}
use tflib.Socket.{ReadAnswer, got, WriteAnswer, took}
use tflib.Socket.Reads.{bytes_of}
use tflib.Socket.Writes.{total_taken}
use tflib.Files.{read, copyfile}
use tflib.Files.Transfers.{read_lem}
use tflib.Files.Copies.{source, opened, CopyGoesOn, copyfile_lem}

abbrev text : List ℕ
text = 7 ∷ 8 ∷ 9 ∷ []

abbrev pieces : List ReadAnswer
pieces = got (7 ∷ 8 ∷ []) ∷ got (9 ∷ []) ∷ []

abbrev parts : List WriteAnswer
parts = took 1 ∷ WriteAnswer.retry ∷ took 2 ∷ []

read_example :
    (length (bytes_of pieces) ≡ 3
      → read (pieces ++ got (4 ∷ []) ∷ []) 3
        ≡ some (record { done = true; bytes = bytes_of pieces }))
    × (length (bytes_of pieces) < 3
        → (read (pieces ++ got [] ∷ got (4 ∷ []) ∷ []) 3
            ≡ some (record { done = false; bytes = bytes_of pieces }))
          × (read (pieces ++ ReadAnswer.broken ∷ got (4 ∷ []) ∷ []) 3
              ≡ some (record { done = false; bytes = bytes_of pieces }))
          × (read (pieces ++ ReadAnswer.retry ∷ got (4 ∷ []) ∷ []) 3
              ≡ some (record { done = false; bytes = bytes_of pieces })))
read_example =
    read_lem pieces (got (4 ∷ []) ∷ []) 3 (λ e. omega (arith, e), (λ e. omega (arith, e), tt)) refl
      (omega arith)

-- Two pieces, the first written in two parts, with a read to retry between them.
abbrev rounds : List (ReadAnswer × List WriteAnswer)
rounds = (got (7 ∷ 8 ∷ 9 ∷ []), parts) ∷ (ReadAnswer.retry, []) ∷ (got (4 ∷ []), took 1 ∷ []) ∷ []

rounds-CopyGoesOn : CopyGoesOn rounds
rounds-CopyGoesOn = (
  λ e. omega (arith, e),
  (λ e. omega (arith, e), (λ e. omega (arith, e), tt)),
  refl,
  (λ e. omega (arith, e), (λ e. omega (arith, e), tt), refl, tt),
)

copyfile_example :
    (copyfile (opened true false) (rounds ++ (got [], took 1 ∷ []) ∷ [])
      ≡ some (record { done = true && false; target = some (source rounds) }))
    × (copyfile (opened true false) (rounds ++ (ReadAnswer.broken, took 1 ∷ []) ∷ [])
        ≡ some (record { done = false; target = some (source rounds) }))
    × (copyfile
          (opened true false)
          (rounds ++ (got (5 ∷ 6 ∷ []), (took 1 ∷ []) ++ WriteAnswer.broken ∷ []) ∷ [])
        ≡ some (record {
          done = false;
          target = some (source rounds ++ take (total_taken (took 1 ∷ [])) (5 ∷ 6 ∷ []));
        }))
copyfile_example =
    copyfile_lem true false rounds [] (took 1 ∷ []) [] (5 ∷ 6 ∷ []) rounds-CopyGoesOn
      (λ e. omega (arith, e), tt) (omega arith)
