-- ===== src/Controller/Start.antt =====
-- `start` of lib/controller.cpp: where it listens, and what it says of it.
use shadowsocks_qt.Prelude.{
  ℕ, ◌≡◌, refl, sym, subst, List, [], ◌∷◌, ◌++◌, Bool, true, false, not, ◌&&◌, ◌||◌, Bool-cases,
  inl, inr, if_elim, if◌then◌else◌,
}
use shadowsocks_qt.Qt.{Qt}
use shadowsocks_qt.Address.{get_first_ip}
use shadowsocks_qt.TcpServer
use shadowsocks_qt.Controller.{
  Controller, Network, Effect, info, running_state_changed, get_local_addr, listen, start,
}

or_false : (b : Bool) → b ≡ (b || false)
or_false true = refl
or_false false = refl

or_true : (b : Bool) → true ≡ (b || true)
or_true true = refl
or_true false = refl

of_not : (a b : Bool) → not a ≡ b → a ≡ not b
of_not true b h = rw (← h) refl
of_not false b h = rw (← h) refl

module _ {Host Pipe : Type 0} (q : Qt Host) (n : Network Host) where
  -- Where a controller is to listen.
  unfoldable pub listen_host : Controller Host Pipe → Host
  listen_host s =
      if s.is_local then (get_local_addr q n s.profile).0 else get_first_ip q s.server_address

  unfoldable pub listen_port : Controller Host Pipe → ℕ
  listen_port s = if s.is_local then s.profile.local_port else s.profile.server_port

  -- What `start` answers and what then listens, when its two sockets are bound or not.
  abbrev Listens :
      Bool → Bool → Controller Host Pipe → Controller Host Pipe × Bool × List (Effect Host) → Type 0
  Listens tcp udp s r =
      (r.1 ≡ tcp && udp)
      × (r.0.tcp_server.is_listening ≡ s.tcp_server.is_listening || tcp)
      × (r.0.udp_listening ≡ s.udp_listening || (tcp && udp))

  listen-Listens :
      (h : Host) (port : ℕ) (says : List (Effect Host)) (s : Controller Host Pipe)
      → Listens (n.tcp_binds h port) (n.udp_binds h port) s (listen q n h port says s)
  unfolding listen TcpServer.listen
  listen-Listens h port says s = elim (Bool-cases (n.tcp_binds h port)) [
    | inl tcp ↦ rw tcp (refl, or_true s.tcp_server.is_listening, refl)
    | inr fails ↦ rw fails (refl, or_false s.tcp_server.is_listening, or_false s.udp_listening)
  ]

  -- A valid controller answers true to `start` exactly if the TCP server and the UDP relay can both
  -- listen at the host and the port of its mode: its local address, or the local host, as a client,
  -- and the first address of its server, which is the null address before the name is looked up, as a
  -- server. The TCP server then listens if it can, also when the answer is false since the UDP relay
  -- cannot. An invalid controller answers false and changes nothing that listens.
  pub start-listens :
      (s : Controller Host Pipe)
      → let tcp = s.valid && n.tcp_binds (listen_host s) (listen_port s) in
        let udp = n.udp_binds (listen_host s) (listen_port s) in
        ((start q n s).1 ≡ tcp && udp)
        × ((start q n s).0.tcp_server.is_listening ≡ s.tcp_server.is_listening || tcp)
        × ((start q n s).0.udp_listening ≡ s.udp_listening || (tcp && udp))
  unfolding start listen listen_host listen_port
  start-listens s =
      let t = n.tcp_binds (listen_host s) (listen_port s) in
      let u = n.udp_binds (listen_host s) (listen_port s) in
      let says = if s.is_local then (get_local_addr q n s.profile).1 else [] in
      let r = listen q n (listen_host s) (listen_port s) says s in
      if_elim (Listens (s.valid && t) u s) (not s.valid) {x = (s, false, info ∷ [])}
        {y = (
          r.0,
          r.1,
          info ∷ says ++ r.2 ++ (if r.1 then info ∷ running_state_changed true ∷ [] else info ∷ []),
        )}
        (λ h.
          subst (λ b. Listens (b && t) u s (s, false, info ∷ [])) (sym (of_not s.valid true h))
            (refl, or_false s.tcp_server.is_listening, or_false s.udp_listening))
        (λ h.
          subst (λ b. Listens (b && t) u s r) (sym (of_not s.valid false h))
            (listen-Listens (listen_host s) (listen_port s) says s))
