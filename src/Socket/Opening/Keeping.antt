-- ===== src/Socket/Opening/Keeping.antt =====
-- Which descriptors the calls of tflib/tf_socket.c that connect and listen leave open.
use tflib.Common.{ℕ, ◌%◌, ◌^◌, ◌≡◌, refl, ==_iff, leb, if◌then◌else◌, Bool-cases, inl, inr}
use tflib.Common.{length, Returns}
use tflib.Common.{Bool, true, false, not, ◌&&◌, ◌||◌, Option, none, some, List, ◌∷◌, take}
use tflib.Socket.Opening.{
  Address, inet, local, Net, Opened, ConnectAnswer, connected, in_progress, refused, SystemAnswers,
  without, give_up, with_socket, made_socket, create_socket, finish_connect, with_result, at_host,
  is_made, gives_up, attempts, sets_nonblock, connect_socket,
}
use tflib.Socket.Opening.{
  tcp_generic_connect, tcp_generic_connect2, unix_generic_connect, listen_socket, tcp_server,
  tcp_server2, unix_server,
}
use tflib.Socket.Opening.{}

-- A call that made the socket `s` for `address`, with `net` before: where it succeeds it gives `s`, which is
-- held; else `s` is closed again, but where it leaks.
abbrev pub Settled : Bool → Bool → ℕ → Address → Net → Opened → Type 0
Settled true leaks s address net o =
    (o.result ≡ some s) × (o.net.held ≡ s ∷ net.held) × (o.net.asked ≡ (s, address) ∷ net.asked)
Settled false leaks s address net o =
    (o.result ≡ none) × (o.net.held ≡ (if leaks then s ∷ net.held else net.held))

-- Without a socket the call fails and changes nothing.
abbrev pub Keeps : Option ℕ → Bool → Bool → Address → Net → Opened → Type 0
Keeps none succeeds leaks address net o = o ≡ record { result = none; net = net }
Keeps (some s) succeeds leaks address net o = Settled succeeds leaks s address net o

abbrev pub reaches : ConnectAnswer → Bool → Bool
reaches connected nonblock = true
reaches in_progress nonblock = nonblock
reaches refused nonblock = false

-- Where it faults it gives nothing, and else what it gives is so.
abbrev pub Faults : Bool → (Opened → Type 0) → Option Opened → Type 0
Faults true P o = o ≡ none
Faults false P o = Returns o P

Faults-if :
    (P : Opened → Type 0) (b : Bool) (o : Opened) → P o → Faults b P (if b then none else some o)
Faults-if P true o p = refl
Faults-if P false o p = p

gives_up-reaches :
    (answer : ConnectAnswer) (nonblock : Bool)
    → gives_up answer nonblock ≡ not (reaches answer nonblock)
unfolding gives_up
gives_up-reaches connected nonblock = refl
gives_up-reaches in_progress nonblock = refl
gives_up-reaches refused nonblock = refl

without-same : (s : ℕ) (fds : List ℕ) → without s (s ∷ fds) ≡ fds
unfolding without
without-same s fds = rw ((==_iff s s).1 refl) refl

abbrev with_held : ℕ → Net → Net
with_held s net = record net { held = s ∷ net.held }

give_up-Settled :
    (s : ℕ) (address : Address) (asked : List (ℕ × Address)) (net : Net)
    → Settled false false s address net
        (give_up s (record net { held = s ∷ net.held; asked = asked }))
unfolding give_up
give_up-Settled s address asked net = (refl, without-same s net.held)

finish_connect-Settled :
    (answer : ConnectAnswer) (nonblock : Bool) (s : ℕ) (address : Address) (net : Net)
    → Settled (reaches answer nonblock) false s address net (
        finish_connect answer nonblock s
          (record net { held = s ∷ net.held; asked = (s, address) ∷ net.asked }))
unfolding finish_connect
finish_connect-Settled connected nonblock s address net = (refl, refl, refl)
finish_connect-Settled in_progress true s address net = (refl, refl, refl)
finish_connect-Settled in_progress false s address net = give_up-Settled s address _ net
finish_connect-Settled refused nonblock s address net = give_up-Settled s address _ net

module _ (answers : SystemAnswers) where
  abbrev pub blocked : Bool → Bool
  blocked nonblock = nonblock && not (sets_nonblock answers)

  abbrev pub joins : Bool → Bool
  joins nonblock = answers.reuses && (not (blocked nonblock) && reaches answers.connects nonblock)

  abbrev pub serves : Bool
  serves = answers.reuses && (answers.binds && answers.listens)

  connect_socket-Settled :
      (nonblock : Bool) (address : Address) (s : ℕ) (net : Net)
      → Settled
          (not (blocked nonblock) && reaches answers.connects nonblock)
          (blocked nonblock)
          s
          address
          net
          (connect_socket answers nonblock address s (with_held s net))
  unfolding connect_socket
  connect_socket-Settled nonblock address s net =
      elim (Bool-cases (nonblock && not (sets_nonblock answers))) [
        | inl e ↦ rw e ((refl, refl))
        | inr e ↦ rw e (finish_connect-Settled answers.connects nonblock s address net)
      ]

  listen_socket-Settled :
      (address : Address) (s : ℕ) (net : Net)
      → Settled
          (answers.binds && answers.listens)
          false
          s
          address
          net
          (listen_socket answers address s (with_held s net))
  unfolding listen_socket
  listen_socket-Settled address s net = elim (Bool-cases answers.binds) [
    | inl b ↦ elim (Bool-cases answers.listens) [
      | inl l ↦ rw (b, l) ((refl, refl, refl))
      | inr l ↦ rw (b, l) (give_up-Settled s address _ net)
    ]
    | inr b ↦ rw b (give_up-Settled s address _ net)
  ]

  -- A call that goes on from the socket that was made.
  made-Keeps :
      (made : Option ℕ) (address : Address) (succeeds leaks : Bool) (net : Net)
      (f : ℕ → Net → Opened)
      → ((s : ℕ) → Settled succeeds leaks s address net (f s (with_held s net)))
      → Keeps made
          (answers.reuses && succeeds)
          (not answers.reuses || leaks)
          address
          net
          (with_socket (made_socket answers made net) f)
  unfolding with_socket with_result made_socket
  made-Keeps none address succeeds leaks net f h = refl
  made-Keeps (some s) address succeeds leaks net f h = elim (Bool-cases answers.reuses) [
    | inl r ↦ rw r (h s)
    | inr r ↦ rw r (refl, refl)
  ]

  -- The call with this socket comes to call `connect`.
  abbrev pub asks : Option ℕ → Bool → Bool
  asks none nonblock = false
  asks (some s) nonblock = answers.reuses && not (blocked nonblock)

  attempts-made_socket :
      (nonblock : Bool) (made : Option ℕ) (net : Net)
      → attempts answers nonblock (made_socket answers made net).result ≡ asks made nonblock
  unfolding attempts made_socket is_made
  attempts-made_socket nonblock none net = refl
  attempts-made_socket nonblock (some s) net = elim (Bool-cases answers.reuses) [
    | inl r ↦ rw r refl
    | inr r ↦ rw r refl
  ]

  -- Each connect fails and changes nothing without a socket. It succeeds where the socket may reuse its
  -- address, a name has an address, the socket is set not to block where it is to, and the connection is
  -- made or, without blocking, in progress: it gives the socket, held, and connected to the address and
  -- the port, or to the path. Where the socket may not reuse its address, or is not set not to block, it
  -- fails and the socket stays held; else it fails and holds what it held before. But where `connect` fails,
  -- `tfnet_tcp_generic_connect2` does not come back, as it prints the address as a string; nor does, where
  -- `connect` is called, `tfnet_unix_generic_connect` with a path of 107 bytes or more, which has no end.
  pub tcp_generic_connect-unix_generic_connect-Keeps :
      (address port : ℕ) (path : List ℕ) (nonblock : Bool) (net : Net)
      → Keeps answers.socket
          (joins nonblock)
          (not answers.reuses || blocked nonblock)
          (inet address (port % 2 ^ 16))
          net
          (tcp_generic_connect answers (some address) port nonblock net)
        × Keeps answers.socket
            (answers.reuses && false)
            (not answers.reuses || false)
            (inet address (port % 2 ^ 16))
            net
            (tcp_generic_connect answers none port nonblock net)
        × Faults
            (asks answers.socket nonblock && not (reaches answers.connects nonblock))
            (Keeps answers.socket
              (joins nonblock)
              (not answers.reuses || blocked nonblock)
              (inet (address % 2 ^ 32) (port % 2 ^ 16))
              net)
            (tcp_generic_connect2 answers address port nonblock net)
        × Faults
            (asks answers.socket nonblock && leb 107 (length path))
            (Keeps answers.socket
              (joins nonblock)
              (not answers.reuses || blocked nonblock)
              (local path)
              net)
            (unix_generic_connect answers path nonblock net)
  unfolding tcp_generic_connect tcp_generic_connect2 unix_generic_connect create_socket at_host
  tcp_generic_connect-unix_generic_connect-Keeps address port path nonblock net =
      let connects = λ (a : Address).
        made-Keeps answers.socket a _ _ net (connect_socket answers nonblock a)
          (λ s. connect_socket-Settled nonblock a s net) in
      (
        connects (inet address (port % 2 ^ 16)),
        made-Keeps answers.socket (inet address (port % 2 ^ 16)) false false net give_up
            (λ s. give_up-Settled s (inet address (port % 2 ^ 16)) net.asked net),
        rw
            (
              attempts-made_socket nonblock answers.socket net,
              gives_up-reaches answers.connects nonblock,
            )
            (Faults-if
              (Keeps answers.socket (joins nonblock) (not answers.reuses || blocked nonblock)
                (inet (address % 2 ^ 32) (port % 2 ^ 16)) net)
              (asks answers.socket nonblock && not (reaches answers.connects nonblock))
              (with_socket (made_socket answers answers.socket net)
                (connect_socket answers nonblock (inet (address % 2 ^ 32) (port % 2 ^ 16))))
              (connects (inet (address % 2 ^ 32) (port % 2 ^ 16)))),
        rw (attempts-made_socket nonblock answers.socket net) (
            Faults-if
              (Keeps answers.socket (joins nonblock) (not answers.reuses || blocked nonblock)
                (local path) net)
              (asks answers.socket nonblock && leb 107 (length path))
              (with_socket (made_socket answers answers.socket net)
                (connect_socket answers nonblock (local path)))
              (connects (local path))),
      )

  -- Each server fails and changes nothing without a socket. It succeeds where the socket may reuse its
  -- address, an address to bind to is valid, and the socket is bound and listens: it gives the socket, held,
  -- and bound to the address and the port, to any address, or to the path. Where the socket may not reuse
  -- its address it fails and the socket stays held; else it fails and holds what it held before.
  pub tcp_server-tcp_server2-unix_server-Keeps :
      (address port : ℕ) (path : List ℕ) (net : Net)
      → Keeps answers.socket serves
          (not answers.reuses || false)
          (inet 0 (port % 2 ^ 16))
          net
          (tcp_server answers port none net)
        × Keeps answers.socket serves
            (not answers.reuses || false)
            (inet address (port % 2 ^ 16))
            net
            (tcp_server answers port (some (some address)) net)
        × Keeps answers.socket
            (answers.reuses && false)
            (not answers.reuses || false)
            (inet address (port % 2 ^ 16))
            net
            (tcp_server answers port (some none) net)
        × Keeps answers.socket serves
            (not answers.reuses || false)
            (inet (address % 2 ^ 32) (port % 2 ^ 16))
            net
            (tcp_server2 answers port address net)
        × Keeps answers.socket serves
            (not answers.reuses || false)
            (local (take 107 path))
            net
            (unix_server answers path net)
  unfolding tcp_server tcp_server2 unix_server create_socket at_host
  tcp_server-tcp_server2-unix_server-Keeps address port path net =
      let listens = λ (a : Address).
        made-Keeps answers.socket a _ _ net (listen_socket answers a)
          (λ s. listen_socket-Settled a s net) in
      (
        listens (inet 0 (port % 2 ^ 16)),
        listens (inet address (port % 2 ^ 16)),
        made-Keeps answers.socket (inet address (port % 2 ^ 16)) false false net give_up
            (λ s. give_up-Settled s (inet address (port % 2 ^ 16)) net.asked net),
        listens (inet (address % 2 ^ 32) (port % 2 ^ 16)),
        listens (local (take 107 path)),
      )
