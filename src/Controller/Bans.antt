-- ===== src/Controller/Bans.antt =====
-- The banned addresses of lib/common.cpp while a controller of lib/controller.cpp runs.
use shadowsocks_qt.Prelude.{
  ℕ, ◌≡◌, refl, List, [], ◌∷◌, ◌++◌, Bool, Bool-cases, inl, inr, true, false, not, ltb, length,
  if◌then◌else◌, if_elim, ok, ◌>>=◌, Ensures, Ensures-bind, Ensures-bind_of, Ensures-ok,
}
use shadowsocks_qt.Qt.{Qt}
use shadowsocks_qt.Crypto.{Crypto}
use shadowsocks_qt.Common.Ban.{is_address_banned}
use shadowsocks_qt.EncryptorPrivate
use shadowsocks_qt.EncryptorPrivate.{EncryptorPrivate}
use shadowsocks_qt.Address.{found, failed, get_first_ip}
use shadowsocks_qt.TcpServer
use shadowsocks_qt.TcpServer.{TcpServer, Connection, refused, incoming_connection, server_step}
use shadowsocks_qt.TcpServer.Bans as Server
use shadowsocks_qt.UdpRelay
use shadowsocks_qt.UdpRelay.{
  remote_recv_size, on_server_udp_socket_ready_read, on_client_udp_socket_ready_read,
}
use shadowsocks_qt.UdpRelay.Bans as Udp
use shadowsocks_qt.Profile.{Profile}
use shadowsocks_qt.Controller.{
  Controller, Network, Effect, info, refer, close_udp, close_tcp, stop, start, listen, setup,
  server_of, get_local_addr, on_server_address_looked_up,
}
use shadowsocks_qt.Controller.Loop.{
  ProgramEvent, to_server, datagram, answer, disconnected, looked_up, stopping, starting, setting,
  program_step, program_run,
}

module _ {Host Pipe : Type 0} (q : Qt Host) (h : Host) where
  -- A server that bans by itself, and has banned the host.
  abbrev pub IsBarred : Controller Host Pipe → Type 0
  IsBarred s = Server.IsBarred q h s.udp_relay.banned s.tcp_server × Udp.IsBarred q h s.udp_relay

  close_udp-IsBarred :
      (drawn : List ℕ) (s : Controller Host Pipe)
      → IsBarred s
      → Ensures IsBarred (close_udp drawn s)
  unfolding close_udp
  close_udp-IsBarred drawn s b =
      Ensures-bind_of (λ r. Udp.IsBarred q h r.0) IsBarred (UdpRelay.close drawn s.udp_relay) _
        (Udp.close-IsBarred q h drawn s.udp_relay b.1) (λ r u. ((b.0.0, b.0.1, u.2), u))

  stop-IsBarred :
      (drawn : List ℕ) (s : Controller Host Pipe)
      → IsBarred s
      → Ensures (λ r. IsBarred r.0) (stop drawn s)
  unfolding stop close_tcp TcpServer.close
  stop-IsBarred drawn s b =
      Ensures-bind_of IsBarred (λ r. IsBarred r.0) (close_udp drawn (close_tcp s)) _
        (close_udp-IsBarred drawn (close_tcp s) b) (λ r k. k)

  closed_if-IsBarred :
      (drawn : List ℕ) (es : List (Effect Host)) (s : Controller Host Pipe)
      → IsBarred s
      → Ensures {A = Controller Host Pipe × List (Effect Host)}
          (λ r. IsBarred r.0)
          ((if s.udp_listening then close_udp drawn s else ok s) >>= λ s'. ok (s', es))
  closed_if-IsBarred drawn es s b =
      Ensures-bind_of IsBarred (λ r. IsBarred r.0)
        (if s.udp_listening then close_udp drawn s else ok s) _
        (if_elim (Ensures IsBarred) s.udp_listening (λ _. close_udp-IsBarred drawn s b) (λ _. b))
        (λ r k. k)

  module _ (n : Network Host) where
    listen-IsBarred :
        (k : Host) (port : ℕ) (again : List (Effect Host)) (s : Controller Host Pipe)
        → IsBarred s
        → IsBarred (listen q n k port again s).0
    unfolding listen TcpServer.listen
    listen-IsBarred k port again s b = elim (Bool-cases (n.tcp_binds k port)) [
      | inl binds ↦ rw binds b
      | inr busy ↦ rw busy b
    ]

    start-IsBarred : (s : Controller Host Pipe) → IsBarred s → IsBarred (start q n s).0
    unfolding start
    start-IsBarred s b =
        let local = get_local_addr q n s.profile in
        if_elim (λ (r : Controller Host Pipe × Bool × List (Effect Host)). IsBarred r.0)
          (not s.valid) (λ _. b)
          (λ _.
            listen-IsBarred (if s.is_local then local.0 else get_first_ip q s.server_address)
              (if s.is_local then s.profile.local_port else s.profile.server_port)
              (if s.is_local then local.1 else []) s b)

  module _ (n : Network Host) (crypto : Crypto Pipe) where
    setup-IsBarred :
        (p : Profile) (drawn : List ℕ) (s : Controller Host Pipe)
        → IsBarred s
        → Ensures (λ r. IsBarred r.0) (setup q n crypto p drawn s)
    unfolding setup refer close_tcp TcpServer.close
    setup-IsBarred p drawn s b =
        let (a, looks) = server_of q n p s.server_address in
        Ensures-bind (λ r. IsBarred r.0) (EncryptorPrivate.create crypto q p.method p.password) _
          (λ ep.
            let s1 = refer a ep (record s { profile = p; valid = ep.valid }) in
            let s2 = if s1.tcp_server.is_listening then close_tcp s1 else s1 in
            closed_if-IsBarred drawn (looks ++ info ∷ info ∷ []) s2
              (if_elim IsBarred s.tcp_server.is_listening (λ _. b) (λ _. b)))

  module _ (n : Network Host) (crypto : Crypto Pipe) (from_name : List ℕ → List Host) where
    step-IsBarred :
        (e : ProgramEvent Host) (s : Controller Host Pipe)
        → IsBarred s
        → Ensures IsBarred (program_step q n crypto from_name e s)
    unfolding program_step on_server_address_looked_up refer
    step-IsBarred (to_server e) s b =
        Ensures-bind_of (λ r. Server.IsBarred q h r.1 r.0) IsBarred
          (server_step q crypto e s.udp_relay.banned s.tcp_server) _
          (Server.server-IsBarred q h crypto e s.udp_relay.banned s.tcp_server b.0)
          (λ r k. (k, (b.1.0, b.1.1, k.2)))
    step-IsBarred (datagram drawn input k p) s b =
        Ensures-bind_of (λ r. Udp.IsBarred q h r.0) IsBarred
          (on_server_udp_socket_ready_read q crypto from_name drawn input k p s.udp_relay) _
          (Udp.datagram-IsBarred q h crypto from_name drawn input k p s.udp_relay b.1)
          (λ r u. ((b.0.0, b.0.1, u.2), u))
    step-IsBarred (answer id drawn input k p) s b =
        Ensures-bind_of (λ r. Udp.IsBarred q h r.0) IsBarred
          (on_client_udp_socket_ready_read q crypto from_name id drawn input k p s.udp_relay) _
          (Udp.answer-IsBarred q h crypto from_name id drawn input k p s.udp_relay b.1)
          (λ r u. ((b.0.0, b.0.1, u.2), u))
    step-IsBarred (disconnected id) s b =
        let u = Udp.disconnected-IsBarred q h id s.udp_relay b.1 in ((b.0.0, b.0.1, u.2), u)
    step-IsBarred (looked_up failed) s b = b
    step-IsBarred (looked_up (found hosts)) s b = b
    step-IsBarred (stopping drawn) s b =
        Ensures-bind_of (λ r. IsBarred r.0) IsBarred (stop drawn s) _ (stop-IsBarred drawn s b)
          (λ r k. k)
    step-IsBarred starting s b = start-IsBarred n s b
    step-IsBarred (setting p drawn) s b =
        Ensures-bind_of (λ r. IsBarred r.0) IsBarred (setup q n crypto p drawn s) _
          (setup-IsBarred n crypto p drawn s b) (λ r k. k)

    run-IsBarred :
        (events : List (ProgramEvent Host)) (s : Controller Host Pipe)
        → IsBarred s
        → Ensures IsBarred (program_run q n crypto from_name events s)
    unfolding program_run
    run-IsBarred [] s b = b
    run-IsBarred (e ∷ events) s b =
        Ensures-bind_of IsBarred IsBarred (program_step q n crypto from_name e s) _
          (step-IsBarred e s b) (run-IsBarred events)

    refused_now :
        (c : Connection Host) (banned : List Host) (s : TcpServer Host Pipe)
        → Server.IsBarred q h banned s
        → c.peer_host ≡ h
        → incoming_connection q c banned s ≡ ok (s, banned, refused ∷ [])
    unfolding incoming_connection
    refused_now c banned s b peer = rw (b.0, b.1, peer, b.2) refl

    -- Once a server that bans by itself has banned a host, nothing lets it in again: after any run
    -- that returns, of connections, signals and datagrams from anyone, stops, starts and new
    -- settings, the TCP server refuses each connection from that host, and the UDP relay drops each
    -- datagram from it, and nothing else changes.
    pub program_run-banned :
        (events : List (ProgramEvent Host)) (s s' : Controller Host Pipe) (c : Connection Host)
        (drawn input : List ℕ) (p : ℕ)
        → s.tcp_server.is_local ≡ false
        → s.tcp_server.auto_ban ≡ true
        → s.udp_relay.is_local ≡ false
        → s.udp_relay.auto_ban ≡ true
        → is_address_banned q h s.udp_relay.banned ≡ true
        → program_run q n crypto from_name events s ≡ ok s'
        → c.peer_host ≡ h
        → (incoming_connection q c s'.udp_relay.banned s'.tcp_server
            ≡ ok (s'.tcp_server, s'.udp_relay.banned, refused ∷ []))
          × (on_server_udp_socket_ready_read q crypto from_name drawn input h p s'.udp_relay
              ≡ ok (
                s'.udp_relay,
                if ltb remote_recv_size (length input)
                    then UdpRelay.info ∷ []
                    else UdpRelay.bytes_read (length input) ∷ UdpRelay.debug ∷ [],
              ))
    program_run-banned events s s' c drawn input p tcp tcp_bans udp udp_bans banned ran peer =
        let b =
          Ensures-ok IsBarred (program_run q n crypto from_name events s)
            (run-IsBarred events s ((tcp, tcp_bans, banned), (udp, udp_bans, banned))) ran in
        (
          refused_now c s'.udp_relay.banned s'.tcp_server b.0 peer,
          Udp.datagram_dropped q h crypto from_name drawn input p s'.udp_relay b.1,
        )
