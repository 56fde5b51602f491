-- ===== src/Nac/Launch/Starting.antt =====
-- What the start of tfnac hands to the event loop.
use tflib.Common.{
  ne→==_false, ℕ, Bool-cases, inl, inr, ◌+◌, ◌<◌, ◌≡◌, ◌≢◌, refl, sym, ◌∙◌, arith, if◌then◌else◌,
  Returns, Returns-bind, subst,
}
use tflib.Common.{Bool, true, false, Option, none, some, []}
use tflib.Common.Int.{pos}
use tflib.EventLoop.{EventLoop, ae_readable, create_event_loop, create_file_event}
use tflib.EventLoop.MaxFd.{IsValid}
use tflib.EventLoop.Registering.{
  Registers, registration, create_event_loop-IsValid, create_time_event-IsValid,
}
use tflib.Socket.Opening.Keeping.{Keeps, serves, tcp_server-tcp_server2-unix_server-Keeps}
use tflib.Socket.Opening.{Address, Net, Opened, tcp_server2}
use tflib.Nac.{ProcessMgr, max_peer_nums}
use tflib.Nac.Startup.{Initialized}
use tflib.Nac.Launch.{
  LaunchAnswers, Served, open_server, serve_on, serve_loop, start_events, pair_events, manager,
  launch, accept_tcp_proc, message_response_proc, life_cycle_proc,
}

-- Every call succeeds, and the descriptors are within the loop's array.
pub record Succeeds (answers : LaunchAnswers) : Type 0 where
  pub server_fd : ℕ
  pub mqueue_read : ℕ
  pub mqueue_write : ℕ
  pub socket : answers.sockets.socket ≡ some server_fd
  pub listens : serves answers.sockets ≡ true
  pub loop : answers.makes_loop ≡ true
  pub polls : (l : EventLoop) (fd mask : ℕ) → answers.added l fd mask ≡ true
  pub paired : answers.pair ≡ some (mqueue_read, mqueue_write)
  pub server_fits : server_fd < max_peer_nums + 1024
  pub pair_fits : mqueue_read < max_peer_nums + 1024

-- The process comes to `aeMain` with the slots that it has, and no connections; where all calls succeed it
-- does come there.
abbrev pub Enters : LaunchAnswers → Initialized → Option ProcessMgr → Type 0
Enters answers i none = ¬ Succeeds answers
Enters answers i (some m) = IsValid m.el × (m.slots ≡ i.slots) × (m.connections ≡ 0)

abbrev Serving : LaunchAnswers → Option EventLoop → Bool → Type 0
Serving answers none quitting = (quitting ≡ true) × (¬ Succeeds answers)
Serving answers (some l) quitting =
    (quitting ≡ false) × IsValid l × (l.setsize ≡ max_peer_nums + 1024)

Keeps-result :
    (made : Option ℕ) (succeeds leaks : Bool) (address : Address) (net : Net) (o : Opened) (fd : ℕ)
    → Keeps made succeeds leaks address net o
    → made ≡ some fd
    → succeeds ≡ true
    → o.result ≡ some fd
Keeps-result none succeeds leaks address net o fd k made ok = cc
Keeps-result (some s) true leaks address net o fd k made ok = k.0 ∙ made
Keeps-result (some s) false leaks address net o fd k made ok = cc

module _ (answers : LaunchAnswers) where
  served-Serving :
      (server_fd : ℕ) (l : EventLoop) (ok : Bool)
      → IsValid l
      → Registers
          (create_event_loop (max_peer_nums + 1024) answers.now)
          server_fd
          (answers.added
            (create_event_loop (max_peer_nums + 1024) answers.now)
            server_fd
            ae_readable)
          (l, ok)
      → (Succeeds answers → server_fd < max_peer_nums + 1024)
      → Returns {A = Served}
          (some (
            if ok
            then record { el = some l; quitting = false }
            else record { el = none; quitting = true }))
          (λ s. Serving answers s.el s.quitting)
  unfolding create_event_loop
  served-Serving server_fd l true v r fits = (refl, v, r.0)
  served-Serving server_fd l false v r fits = (
    refl,
    λ s.
        let taken : false ≡ true =
          r.1 (fits s) (
            s.polls (create_event_loop (max_peer_nums + 1024) answers.now) server_fd ae_readable) in
        cc,
  )

  serve_loop-Serving :
      (makes_loop : Bool) (server_fd : ℕ)
      → (Succeeds answers → makes_loop ≡ true)
      → (Succeeds answers → server_fd < max_peer_nums + 1024)
      → Returns (serve_loop answers makes_loop server_fd) (λ s. Serving answers s.el s.quitting)
  unfolding serve_loop
  serve_loop-Serving false server_fd made fits = (refl, λ s. let e = made s in cc)
  serve_loop-Serving true server_fd made fits =
      let l = create_event_loop (max_peer_nums + 1024) answers.now in
      Returns-bind (create_file_event answers.added l server_fd ae_readable accept_tcp_proc 0) _ _ _
        (registration answers.added l server_fd accept_tcp_proc
          (create_event_loop-IsValid (max_peer_nums + 1024) answers.now))
        (λ r h. served-Serving server_fd r.0 r.1 h.0 h.1 fits)

  serve_on-Serving :
      (result : Option ℕ)
      → ((s : Succeeds answers) → result ≡ some s.server_fd)
      → Returns (serve_on answers result) (λ s. Serving answers s.el s.quitting)
  unfolding serve_on
  serve_on-Serving none same = (refl, λ s. let e = same s in cc)
  serve_on-Serving (some server_fd) same =
      serve_loop-Serving answers.makes_loop server_fd (λ s. s.loop)
        (λ s.
          let same_fd : server_fd ≡ s.server_fd = (let e = same s in cc) in
          subst (λ fd. fd < max_peer_nums + 1024) (sym same_fd) s.server_fits)

  -- The server's socket, where all calls succeed.
  server-Succeeds :
      (port ip : ℕ) (net : Net) (s : Succeeds answers)
      → (tcp_server2 answers.sockets port ip net).result ≡ some s.server_fd
  server-Succeeds port ip net s =
      let keeps = (tcp_server-tcp_server2-unix_server-Keeps answers.sockets ip port [] net).3 in
      Keeps-result answers.sockets.socket (serves answers.sockets) _ _ net _ s.server_fd keeps
        s.socket s.listens

  open_server-Serving :
      (port ip : ℕ) (net : Net)
      → port ≢ 0
      → Returns (open_server answers port ip net) (λ s. Serving answers s.el s.quitting)
  unfolding open_server
  open_server-Serving port ip net ne = rw (ne→==_false port 0 ne) (
      serve_on-Serving (tcp_server2 answers.sockets port ip net).result
        (server-Succeeds port ip net))

  module _ (i : Initialized) (app_id : ℕ) where
    start_events-Enters :
        (l : EventLoop) (mqueue_read mqueue_write : ℕ)
        → IsValid l
        → l.setsize ≡ max_peer_nums + 1024
        → i.settings.app_id ≡ pos app_id
        → (Succeeds answers → mqueue_read < max_peer_nums + 1024)
        → Returns (start_events answers i l (mqueue_read, mqueue_write)) (Enters answers i)
    unfolding start_events manager
    start_events-Enters l mqueue_read mqueue_write v size app fits =
        Returns-bind
          (create_file_event answers.added l mqueue_read ae_readable message_response_proc 0) _ _ _
          (registration answers.added l mqueue_read message_response_proc v)
          (λ r h. elim (Bool-cases r.1) [
            | inl ok ↦
                rw (ok, app)
                  (
                    create_time_event-IsValid answers.cur_sec answers.cur_ms r.0
                        i.settings.cycle_step life_cycle_proc 0 0 h.0,
                    refl,
                    refl,
                  )
            | inr off ↦ rw off (λ s.
                let taken : r.1 ≡ true =
                  h.1.1 (omega (arith, fits s, size)) (s.polls l mqueue_read ae_readable) in
                cc)
          ])

    pair_events-Enters :
        (l : EventLoop) (pair : Option (ℕ × ℕ))
        → IsValid l
        → l.setsize ≡ max_peer_nums + 1024
        → i.settings.app_id ≡ pos app_id
        → ((s : Succeeds answers) → pair ≡ some (s.mqueue_read, s.mqueue_write))
        → Returns (pair_events answers i (some l) pair) (Enters answers i)
    unfolding pair_events
    pair_events-Enters l none v size app same = λ s. let e = same s in cc
    pair_events-Enters l (some (mqueue_read, mqueue_write)) v size app same =
        start_events-Enters l mqueue_read mqueue_write v size app (λ s.
          let same_fd : mqueue_read ≡ s.mqueue_read = (let e = same s in cc) in
          subst (λ fd. fd < max_peer_nums + 1024) (sym same_fd) s.pair_fits)

    served-Enters :
        (el : Option EventLoop) (quitting : Bool)
        → Serving answers el quitting
        → i.settings.app_id ≡ pos app_id
        → Returns
            (if quitting then some none else pair_events answers i el answers.pair)
            (Enters answers i)
    served-Enters none quitting h app = rw h.0 h.1
    served-Enters (some l) quitting h app =
        rw h.0 (pair_events-Enters l answers.pair h.1 h.2 app (λ s. s.paired))

    pub launch-Enters :
        (net : Net)
        → i.settings.app_id ≡ pos app_id
        → i.settings.server_port ≢ 0
        → Returns (launch answers i net) (Enters answers i)
    unfolding launch
    launch-Enters net app port =
        Returns-bind (open_server answers i.settings.server_port i.settings.server_ip net) _ _ _
          (open_server-Serving i.settings.server_port i.settings.server_ip net port)
          (λ served h. served-Enters served.el served.quitting h app)
