-- ===== src/Socket.antt =====
-- tflib/tf_socket.c: numbers in network order, and the reads and writes that go on until a count is
-- reached. The answers of the system's `read` and `write` are a list; where it ends, the call waits.
pub mod Opening
pub mod Orders
pub mod Reads
pub mod Writes
use tflib.Common.{ℕ, ◌+◌, ◌-◌, ◌*◌, ◌/◌, ◌%◌, ◌^◌, ltb, ◌==◌, if◌then◌else◌}
use tflib.Common.{Option, none, some, List, [], ◌∷◌, ◌++◌, length, take, drop}

-- `net16cpy`: the number that two bytes are, the highest first; a fault where there are fewer.
unfoldable pub net16cpy : List ℕ → Option ℕ
net16cpy (a ∷ b ∷ _) = some (a * 256 + b)
net16cpy _ = none

unfoldable pub net32cpy : List ℕ → Option ℕ
net32cpy (a ∷ b ∷ c ∷ d ∷ _) = some (((a * 256 + b) * 256 + c) * 256 + d)
net32cpy _ = none

-- `host16cpy`: the two bytes that are written.
unfoldable pub host16cpy : ℕ → List ℕ
host16cpy src = src / 256 % 256 ∷ src % 256 ∷ []

unfoldable pub host32cpy : ℕ → List ℕ
host32cpy src = src / 2 ^ 24 % 256 ∷ src / 2 ^ 16 % 256 ∷ src / 256 % 256 ∷ src % 256 ∷ []

-- What a call of `read` answers: bytes, none at the end of the file; -1 with `EAGAIN` or `EINTR`; or
-- -1 with another error.
pub data ReadAnswer : Type 0 where
  got : List ℕ → ReadAnswer
  retry : ReadAnswer
  broken : ReadAnswer

-- What a call of `write` answers: how many bytes it took, or an error as above.
pub data WriteAnswer : Type 0 where
  took : ℕ → WriteAnswer
  retry : WriteAnswer
  broken : WriteAnswer

-- What `tfnet_read` returns: -1, or the bytes that it read.
pub data ReadResult : Type 0 where
  failed : ReadResult
  received : List ℕ → ReadResult

-- `want` is `count - totlen`, and `out` what was read; `none` waits for the next answer.
unfoldable pub read_loop : List ReadAnswer → ℕ → ℕ → List ℕ → Option ReadResult
read_loop [] want loop out = if want == 0 then some (received out) else none
read_loop (got bytes ∷ answers) want loop out =
    let rest = read_loop answers (want - length bytes) loop (out ++ bytes) in
    if want == 0 then some (received out) else if length bytes == 0 then some failed else rest
read_loop (ReadAnswer.retry ∷ answers) want loop out =
    let rest = read_loop answers want (loop + 1) out in
    if want == 0 then some (received out) else if ltb 20 (loop + 1) then some failed else rest
read_loop (ReadAnswer.broken ∷ answers) want loop out =
    if want == 0 then some (received out) else some failed

unfoldable pub tfnet_read : List ReadAnswer → ℕ → Option ReadResult
tfnet_read answers count = read_loop answers count 0 []

-- What `tfnet_write` returns: whether it is not -1, and the bytes that the system took.
pub record WriteResult : Type 0 where
  pub done : Option ℕ
  pub sent : List ℕ

-- `buf` is what is left to write, and `out` what was taken.
unfoldable pub write_loop : List WriteAnswer → List ℕ → ℕ → List ℕ → Option WriteResult
write_loop [] buf loop out =
    if length buf == 0 then some (record { done = some (length out); sent = out }) else none
write_loop (took n ∷ answers) buf loop out =
    let rest = write_loop answers (drop n buf) loop (out ++ take n buf) in
    if length buf == 0
    then some (record { done = some (length out); sent = out })
    else if n == 0
    then some (record { done = none; sent = out })
    else rest
write_loop (WriteAnswer.retry ∷ answers) buf loop out =
    let rest = write_loop answers buf (loop + 1) out in
    if length buf == 0
    then some (record { done = some (length out); sent = out })
    else if ltb 20 (loop + 1)
    then some (record { done = none; sent = out })
    else rest
write_loop (WriteAnswer.broken ∷ answers) buf loop out =
    if length buf == 0
    then some (record { done = some (length out); sent = out })
    else some (record { done = none; sent = out })

unfoldable pub tfnet_write : List WriteAnswer → List ℕ → Option WriteResult
tfnet_write answers buf = write_loop answers buf 0 []
