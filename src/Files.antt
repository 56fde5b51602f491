-- ===== src/Files.antt =====
-- The reads, writes and copies of whole files of tflib/tf_file.c. What the system's calls answer is a list,
-- as in Socket; of the errors only `EINTR` is `retry` here. Where the answers end, the call waits: `none`.
pub mod Transfers
pub mod Copies
use tflib.Common.{ℕ, ◌+◌, ◌-◌, ◌^◌, ◌==◌, ltb, leb, if◌then◌else◌, ◌>>=◌, min}
use tflib.Common.{
  Bool, true, false, not, ◌&&◌, ◌||◌, Option, none, some, List, [], ◌∷◌, ◌++◌, length, take, drop,
}
use tflib.Socket.{ReadAnswer, got, WriteAnswer, took}
use tflib.Vnum.{to_int}

-- What a transfer returns, and the bytes that it moved.
pub record Moved : Type 0 where
  pub done : Bool
  pub bytes : List ℕ

-- The loop of `tf_write`, which writes once where there is nothing to write too.
unfoldable pub write_all : List WriteAnswer → List ℕ → List ℕ → Option Moved
write_all [] rp out = none
write_all (took n ∷ answers) rp out =
    let rest = write_all answers (drop n rp) (out ++ take n rp) in
    if length (drop n rp) == 0
    then some (record { done = true; bytes = out ++ take n rp })
    else rest
write_all (WriteAnswer.retry ∷ answers) rp out =
    let rest = write_all answers rp out in
    if length rp == 0 then some (record { done = true; bytes = out }) else rest
write_all (WriteAnswer.broken ∷ answers) rp out = some (record { done = false; bytes = out })

unfoldable pub write : List WriteAnswer → List ℕ → Option Moved
write answers buf = write_all answers buf []

-- The loop of `tf_read`. The case of an error goes on into that of the end of the file.
unfoldable pub read_all : List ReadAnswer → ℕ → List ℕ → Option Moved
read_all [] size out = none
read_all (got [] ∷ answers) size out = some (record { done = size == 0; bytes = out })
read_all (got (b ∷ bytes) ∷ answers) size out =
    let rest = read_all answers (size - length (b ∷ bytes)) (out ++ (b ∷ bytes)) in
    if size - length (b ∷ bytes) == 0
    then some (record { done = true; bytes = out ++ (b ∷ bytes) })
    else rest
read_all (ReadAnswer.retry ∷ answers) size out = some (record { done = size == 0; bytes = out })
read_all (ReadAnswer.broken ∷ answers) size out = some (record { done = false; bytes = out })

unfoldable pub read : List ReadAnswer → ℕ → Option Moved
read answers size = read_all answers size []

-- The loop of `tf_copyfile`: each answer to a read with those to the writes of what it gave.
unfoldable pub copy_loop : List (ReadAnswer × List WriteAnswer) → List ℕ → Option Moved
copy_loop [] out = none
copy_loop ((got [], writes) ∷ answers) out = some (record { done = true; bytes = out })
copy_loop ((got (b ∷ bytes), writes) ∷ answers) out = do
  w ← write writes (b ∷ bytes)
  let rest = copy_loop answers (out ++ w.bytes)
  if w.done then rest else some (record { done = false; bytes = out ++ w.bytes })
copy_loop ((ReadAnswer.retry, writes) ∷ answers) out = copy_loop answers out
copy_loop ((ReadAnswer.broken, writes) ∷ answers) out = some (record { done = false; bytes = out })

-- What the copy returns, and what the target then contains, `none` where it is not touched.
pub record Copied : Type 0 where
  pub done : Bool
  pub target : Option (List ℕ)

-- Whether the two files open, and whether they close.
pub record Handles : Type 0 where
  pub opens_in : Bool
  pub opens_out : Bool
  pub closes_out : Bool
  pub closes_in : Bool

unfoldable pub copyfile : Handles → List (ReadAnswer × List WriteAnswer) → Option Copied
copyfile h answers =
    let copied = copy_loop answers [] in
    if not h.opens_in || not h.opens_out then some (record { done = false; target = none }) else (do
      m ← copied
      some (record { done = m.done && h.closes_out && h.closes_in; target = some m.bytes }))

-- `tf_writefile` with a path; whether the file opens and closes.
unfoldable pub writefile : Bool → Bool → List WriteAnswer → List ℕ → Option Copied
writefile opens closes answers ptr =
    let written = write answers ptr in
    if not opens
    then some (record { done = false; target = none })
    else (do m ← written; some (record { done = m.done && closes; target = some m.bytes }))

-- The loop of `tf_readfile` over a file, into a region of `size` bytes and one more. An error ends it as
-- the end of the file does.
unfoldable pub file_loop : List ReadAnswer → ℕ → List ℕ → Option (List ℕ)
file_loop [] size buf = none
file_loop (got [] ∷ answers) size buf = some buf
file_loop (got (b ∷ bytes) ∷ answers) size buf =
    let rest = file_loop answers size (buf ++ (b ∷ bytes)) in
    if ltb size (length (buf ++ (b ∷ bytes))) then none else rest
file_loop (ReadAnswer.retry ∷ answers) size buf = some buf
file_loop (ReadAnswer.broken ∷ answers) size buf = some buf

-- The region that `tf_readfile` returns for a regular file of `size` bytes, with the NUL behind it, and
-- the size that it stores. A `limit` that is not positive is 0: there is none.
unfoldable pub readfile : List ReadAnswer → ℕ → ℕ → Option (List ℕ × ℕ)
readfile answers limit size = do
  whole ← to_int size
  buf ← file_loop answers (if ltb 0 limit then min whole limit else whole) []
  some (buf ++ (0 ∷ []), length buf)
