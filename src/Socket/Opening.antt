-- ===== src/Socket/Opening.antt =====
-- tflib/tf_socket.c: the calls that connect, listen and accept. What the system answers is an argument.
-- The descriptors that the process holds are recorded, and what each socket is connected or bound to, the
-- last one first; a flag for a socket that does not block is a truth value.
pub mod Keeping
use tflib.Common.{ℕ, ◌+◌, ◌%◌, ◌^◌, ◌==◌, leb, if◌then◌else◌, length}
use tflib.Common.{Bool, true, false, not, ◌&&◌, Option, none, some, List, [], ◌∷◌, take}

pub data Address : Type 0 where
  inet : ℕ → ℕ → Address
  local : List ℕ → Address

pub record Net : Type 0 where
  pub held : List ℕ
  pub asked : List (ℕ × Address)

-- A result, none for an error, and what it left.
pub record Opened : Type 0 where
  pub result : Option ℕ
  pub net : Net

-- What `connect` answers: 0, -1 with `EINPROGRESS`, or -1 with another error.
pub data ConnectAnswer : Type 0 where
  connected : ConnectAnswer
  in_progress : ConnectAnswer
  refused : ConnectAnswer

-- What the calls answer, where they are made: the descriptor of `socket`; whether `setsockopt`, the two
-- calls of `fcntl`, `bind` and `listen` succeed; and the answer of `connect`.
pub record SystemAnswers : Type 0 where
  pub socket : Option ℕ
  pub reuses : Bool
  pub gets_flags : Bool
  pub sets_flags : Bool
  pub connects : ConnectAnswer
  pub binds : Bool
  pub listens : Bool

unfoldable pub without : ℕ → List ℕ → List ℕ
without s [] = []
without s (fd ∷ fds) = let rest = without s fds in if fd == s then fds else fd ∷ rest

-- The end of a call that closes its socket and fails.
unfoldable pub give_up : ℕ → Net → Opened
give_up s net = record { result = none; net = record net { held = without s net.held } }

unfoldable pub with_result : Option ℕ → Net → (ℕ → Net → Opened) → Opened
with_result none net f = record { result = none; net = net }
with_result (some s) net f = f s net

-- A call that goes on with the socket that was made.
unfoldable pub with_socket : Opened → (ℕ → Net → Opened) → Opened
with_socket o f = with_result o.result o.net f

-- An address that was found for a name, or none.
unfoldable pub at_host : Option ℕ → (ℕ → ℕ → Net → Opened) → ℕ → Net → Opened
at_host none f s net = give_up s net
at_host (some address) f s net = f address s net

-- What follows the call of `connect`.
unfoldable pub finish_connect : ConnectAnswer → Bool → ℕ → Net → Opened
finish_connect connected nonblock s net = record { result = some s; net = net }
finish_connect in_progress true s net = record { result = some s; net = net }
finish_connect in_progress false s net = give_up s net
finish_connect refused nonblock s net = give_up s net

unfoldable pub is_made : Option ℕ → Bool
is_made none = false
is_made (some s) = true

-- `connect` fails, and the call does not go on without the connection.
unfoldable pub gives_up : ConnectAnswer → Bool → Bool
gives_up connected nonblock = false
gives_up in_progress nonblock = not nonblock
gives_up refused nonblock = true

module _ (answers : SystemAnswers) where
  -- A socket without the option to reuse its address stays open.
  unfoldable pub made_socket : Option ℕ → Net → Opened
  made_socket none net = record { result = none; net = net }
  made_socket (some s) net = record {
    result = if answers.reuses then some s else none;
    net = record net { held = s ∷ net.held };
  }

  unfoldable pub create_socket : Net → Opened
  create_socket net = made_socket answers.socket net

  unfoldable pub sets_nonblock : Bool
  sets_nonblock = if not answers.gets_flags then false else answers.sets_flags

  -- The last part of the three connects.
  unfoldable pub connect_socket : Bool → Address → ℕ → Net → Opened
  connect_socket nonblock address s net =
      if nonblock && not sets_nonblock
      then record { result = none; net = net }
      else finish_connect answers.connects nonblock s
          (record net { asked = (s, address) ∷ net.asked })

  -- `host` is what `inet_aton` or `gethostbyname` finds for the name, if anything.
  unfoldable pub tcp_generic_connect : Option ℕ → ℕ → Bool → Net → Opened
  tcp_generic_connect host port nonblock net =
      with_socket (create_socket net)
        (at_host host (λ address. connect_socket nonblock (inet address (port % 2 ^ 16))))

  -- A call with this socket comes to call `connect`.
  unfoldable pub attempts : Bool → Option ℕ → Bool
  attempts nonblock made = is_made made && not (nonblock && not sets_nonblock)

  -- Where the connection fails, the address is printed as if it were a string, which is `none`.
  unfoldable pub tcp_generic_connect2 : ℕ → ℕ → Bool → Net → Option Opened
  tcp_generic_connect2 address port nonblock net =
      let made = create_socket net in
      if attempts nonblock made.result && gives_up answers.connects nonblock
      then none
      else some
          (with_socket made (connect_socket nonblock (inet (address % 2 ^ 32) (port % 2 ^ 16))))

  -- The path has room for 107 bytes. Where they are used up, the byte behind them, which nothing sets, is
  -- taken for its end, which is `none`.
  unfoldable pub unix_generic_connect : List ℕ → Bool → Net → Option Opened
  unix_generic_connect path nonblock net =
      let made = create_socket net in
      if attempts nonblock made.result && leb 107 (length path)
      then none
      else some (with_socket made (connect_socket nonblock (local path)))

  unfoldable pub tcp_connect : Option ℕ → ℕ → Net → Opened
  tcp_connect host port = tcp_generic_connect host port false

  unfoldable pub tcp_nonblock_connect : Option ℕ → ℕ → Net → Opened
  tcp_nonblock_connect host port = tcp_generic_connect host port true

  unfoldable pub tcp_connect2 : ℕ → ℕ → Net → Option Opened
  tcp_connect2 address port = tcp_generic_connect2 address port false

  unfoldable pub tcp_nonblock_connect2 : ℕ → ℕ → Net → Option Opened
  tcp_nonblock_connect2 address port = tcp_generic_connect2 address port true

  unfoldable pub unix_connect : List ℕ → Net → Option Opened
  unix_connect path = unix_generic_connect path false

  unfoldable pub unix_nonblock_connect : List ℕ → Net → Option Opened
  unix_nonblock_connect path = unix_generic_connect path true

  unfoldable pub listen_socket : Address → ℕ → Net → Opened
  listen_socket address s net =
      let net' = record net { asked = (s, address) ∷ net.asked } in
      if not answers.binds
      then give_up s net'
      else if not answers.listens
      then give_up s net'
      else record { result = some s; net = net' }

  -- Without an address to bind to, any one, which is 0; an address is what `inet_aton` finds.
  unfoldable pub tcp_server : ℕ → Option (Option ℕ) → Net → Opened
  tcp_server port bindaddr net = with_socket (create_socket net) (
      at_host (elim bindaddr [ none ↦ some 0 | some host ↦ host ])
        (λ address. listen_socket (inet address (port % 2 ^ 16))))

  unfoldable pub tcp_server2 : ℕ → ℕ → Net → Opened
  tcp_server2 port ip net =
      with_socket (create_socket net) (listen_socket (inet (ip % 2 ^ 32) (port % 2 ^ 16)))

  unfoldable pub unix_server : List ℕ → Net → Opened
  unix_server path net = with_socket (create_socket net) (listen_socket (local (take 107 path)))

-- What `accept` answers: a descriptor with the peer's address and port, -1 with `EINTR`, or -1 with
-- another error.
pub data AcceptAnswer : Type 0 where
  accepted : ℕ → ℕ → ℕ → AcceptAnswer
  interrupted : AcceptAnswer
  broken : AcceptAnswer

-- Where the answers end, the call waits: `none`. `some none` is an error.
unfoldable pub generic_accept : List AcceptAnswer → Option (Option (ℕ × ℕ × ℕ))
generic_accept [] = none
generic_accept (accepted fd ip port ∷ answers) = some (some (fd, ip, port))
generic_accept (interrupted ∷ answers) = generic_accept answers
generic_accept (broken ∷ answers) = some none

-- The address and the port are given in the order of the machine.
unfoldable pub tcp_accept2 : List AcceptAnswer → Option (Option (ℕ × ℕ × ℕ))
tcp_accept2 answers = generic_accept answers
