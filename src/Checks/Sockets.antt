-- ===== src/Checks/Sockets.antt =====
-- Inputs of the theorems on tflib/tf_socket.c.
use tflib.Common.{ℕ, List, ◌∷◌, [], ◌++◌, some, none, length, take, ◌≡◌, ◌<◌, arith}
use tflib.Socket.{ReadAnswer, got, WriteAnswer, took, failed, received, tfnet_read, tfnet_write}
use tflib.Socket.Opening.{
  SystemAnswers, in_progress, Net, inet, local, tcp_generic_connect, tcp_generic_connect2,
  unix_generic_connect, tcp_server, tcp_server2, unix_server,
}
use tflib.Socket.Opening.Keeping.{
  Keeps, Faults, asks, reaches, joins, serves, blocked,
  tcp_generic_connect-unix_generic_connect-Keeps, tcp_server-tcp_server2-unix_server-Keeps,
}
use tflib.Common.{leb, ◌%◌, ◌^◌, true, false, not, ◌&&◌, ◌||◌}
use tflib.Socket.Reads.{GoesOn, retries, bytes_of, tfnet_read_lem}
use tflib.Socket.Writes.{WriteGoesOn, write_retries, total_taken, tfnet_write_lem}

-- Three bytes in two pieces, with a call to be retried between them.
abbrev pieces : List ReadAnswer
pieces = got (1 ∷ 2 ∷ []) ∷ ReadAnswer.retry ∷ got (3 ∷ []) ∷ []

pieces-GoesOn : GoesOn pieces
pieces-GoesOn = (λ e. omega (arith, e), (λ e. omega (arith, e), tt))

tfnet_read_example :
    (length (bytes_of pieces) ≡ 3
      → tfnet_read (pieces ++ got (4 ∷ []) ∷ []) 3 ≡ some (received (bytes_of pieces)))
    × (length (bytes_of pieces) < 3
        → (tfnet_read pieces 3 ≡ none)
          × (tfnet_read (pieces ++ got [] ∷ got (4 ∷ []) ∷ []) 3 ≡ some failed)
          × (tfnet_read (pieces ++ ReadAnswer.broken ∷ got (4 ∷ []) ∷ []) 3 ≡ some failed)
          × (retries pieces ≡ 20
              → tfnet_read (pieces ++ ReadAnswer.retry ∷ got (4 ∷ []) ∷ []) 3 ≡ some failed))
tfnet_read_example = tfnet_read_lem pieces (got (4 ∷ []) ∷ []) 3 pieces-GoesOn (omega arith)

abbrev takes : List WriteAnswer
takes = took 2 ∷ WriteAnswer.retry ∷ took 1 ∷ []

abbrev text : List ℕ
text = 7 ∷ 8 ∷ 9 ∷ []

takes-WriteGoesOn : WriteGoesOn takes
takes-WriteGoesOn = (λ e. omega (arith, e), (λ e. omega (arith, e), tt))

tfnet_write_example :
    (total_taken takes ≡ length text
      → tfnet_write (takes ++ []) text ≡ some (record { done = some (length text); sent = text }))
    × (total_taken takes < length text
        → (tfnet_write takes text ≡ none)
          × (tfnet_write (takes ++ took 0 ∷ []) text
              ≡ some (record { done = none; sent = take (total_taken takes) text }))
          × (tfnet_write (takes ++ WriteAnswer.broken ∷ []) text
              ≡ some (record { done = none; sent = take (total_taken takes) text }))
          × (write_retries takes ≡ 20
              → tfnet_write (takes ++ WriteAnswer.retry ∷ []) text
                ≡ some (record { done = none; sent = take (total_taken takes) text })))
tfnet_write_example = tfnet_write_lem takes [] text takes-WriteGoesOn (omega arith)

-- A socket that does not block, and a connection in progress.
abbrev slow : SystemAnswers
slow = record {
  socket = some 5;
  reuses = true;
  gets_flags = true;
  sets_flags = true;
  connects = in_progress;
  binds = true;
  listens = true;
}

abbrev before : Net
before = record { held = 3 ∷ []; asked = [] }

tcp_generic_connect-unix_generic_connect-Keeps_example :
    Keeps
      (some 5)
      (joins slow true)
      (not slow.reuses || blocked slow true)
      (inet 16909060 (80 % 2 ^ 16))
      before
      (tcp_generic_connect slow (some 16909060) 80 true before)
    × Keeps
        (some 5)
        (slow.reuses && false)
        (not slow.reuses || false)
        (inet 16909060 (80 % 2 ^ 16))
        before
        (tcp_generic_connect slow none 80 true before)
    × Faults
        (asks slow (some 5) true && not (reaches in_progress true))
        (Keeps
          (some 5)
          (joins slow true)
          (not slow.reuses || blocked slow true)
          (inet (16909060 % 2 ^ 32) (80 % 2 ^ 16))
          before)
        (tcp_generic_connect2 slow 16909060 80 true before)
    × Faults
        (asks slow (some 5) true && leb 107 (length text))
        (Keeps
          (some 5)
          (joins slow true)
          (not slow.reuses || blocked slow true)
          (local text)
          before)
        (unix_generic_connect slow text true before)
tcp_generic_connect-unix_generic_connect-Keeps_example =
    tcp_generic_connect-unix_generic_connect-Keeps slow 16909060 80 text true before

tcp_server-tcp_server2-unix_server-Keeps_example :
    Keeps
      (some 5)
      (serves slow)
      (not slow.reuses || false)
      (inet 0 (80 % 2 ^ 16))
      before
      (tcp_server slow 80 none before)
    × Keeps
        (some 5)
        (serves slow)
        (not slow.reuses || false)
        (inet 16909060 (80 % 2 ^ 16))
        before
        (tcp_server slow 80 (some (some 16909060)) before)
    × Keeps
        (some 5)
        (slow.reuses && false)
        (not slow.reuses || false)
        (inet 16909060 (80 % 2 ^ 16))
        before
        (tcp_server slow 80 (some none) before)
    × Keeps
        (some 5)
        (serves slow)
        (not slow.reuses || false)
        (inet (16909060 % 2 ^ 32) (80 % 2 ^ 16))
        before
        (tcp_server2 slow 80 16909060 before)
    × Keeps
        (some 5)
        (serves slow)
        (not slow.reuses || false)
        (local (take 107 text))
        before
        (unix_server slow text before)
tcp_server-tcp_server2-unix_server-Keeps_example =
    tcp_server-tcp_server2-unix_server-Keeps slow 16909060 80 text before
