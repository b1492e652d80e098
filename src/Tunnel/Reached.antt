-- ===== src/Tunnel/Reached.antt =====
-- Where the relays of a connection connect to, in lib/tcprelay.cpp.
use shadowsocks_qt.Prelude.{
  ℕ, ◌≤◌, ◌<◌, ◌≡◌, refl, ap, subst, ◌∙◌, List, [], ◌∷◌, ◌++◌, true, false, length, ok, Ensures-ok,
  arith,
}
use shadowsocks_qt.Qt.{Qt, QtLaws}
use shadowsocks_qt.Crypto.{Crypto}
use shadowsocks_qt.Address.{of_host, set_ip_address, of_name, set_address}
use shadowsocks_qt.Encryptor.{Encryptor, decrypt}
use shadowsocks_qt.TcpRelay.{
  init, addr, TcpRelay, Effect, Event, Which, the_server, the_remote, local_ready_read, run, info,
}
use shadowsocks_qt.TcpRelay.Requests.{request_effects}
use shadowsocks_qt.TcpRelay.Connections.{
  connections, questions, answered, port_of, Begins, first-Begins, IsPast,
}
use shadowsocks_qt.TcpRelay.Lookups.{answers, asked, answered_none, answered_remote}
use shadowsocks_qt.Tunnel.Destination.{
  Destination, at_host, at_name, begins_at, reaches, target, header_of, IsReachable, opened,
}
use shadowsocks_qt.Tunnel.Begun.{requested, opened_to, client_asked}

abbrev pub port : {Host : Type 0} → Destination Host → ℕ
port (at_host h p) = p
port (at_name text p) = p

-- What a relay of a server asks the resolver.
abbrev pub asks_for : {Host : Type 0} → Destination Host → List (Which × List ℕ)
asks_for (at_host h p) = []
asks_for (at_name text p) = (the_remote, text) ∷ []

-- Where it connects to: at once to an address, for a name to the first host of the answer.
module _ {Host : Type 0} (q : Qt Host) where
  abbrev pub reached : Destination Host → List (Event Host) → List (Host × ℕ)
  reached (at_host h p) events = (h, p) ∷ []
  reached (at_name text p) events = answered q (λ which. p) events

pub begins-IsPast : {Host : Type 0} (d : Destination Host) → IsPast (begins_at d)
begins-IsPast (at_host h p) = tt
begins-IsPast (at_name text p) = tt

asks-reaches :
    {Host : Type 0} (d : Destination Host) → questions (info ∷ reaches d ∷ []) ≡ asks_for d
unfolding questions
asks-reaches (at_host h p) = refl
asks-reaches (at_name text p) = refl

module _ {Host : Type 0} (q : Qt Host) where
  connections-reaches :
      (d : Destination Host) (ports : Which → ℕ) (events : List (Event Host))
      → ports the_remote ≡ port d
      → answers the_server events ≤ asked the_server (asks_for d)
      → answers the_remote events ≤ asked the_remote (asks_for d)
      → connections (info ∷ reaches d ∷ []) ++ answered q ports events ≡ reached q d events
  unfolding connections
  connections-reaches (at_host h p) ports events same no_server no_remote =
      ap (◌∷◌ (h, p))
        (answered_none q ports events (omega (arith, no_server)) (omega (arith, no_remote)))
  connections-reaches (at_name text p) ports events same no_server one_remote =
      answered_remote q ports events (omega (arith, no_server))
      ∙ ap (λ n. answered q (λ which. n) events) same

  target-port : (d : Destination Host) → (target q d).port ≡ port d
  unfolding of_host set_ip_address of_name set_address
  target-port (at_host h p) = refl
  target-port (at_name text p) = refl

module _ {Host Pipe : Type 0} (q : Qt Host) (laws : QtLaws q) (crypto : Crypto Pipe) where
  server_connects :
      (v v' : TcpRelay Host Pipe) (es : List (Effect Host)) (piece payload : List ℕ)
      (e : Encryptor Pipe) (events : List (Event Host)) (d : Destination Host)
      → v.is_local ≡ false
      → v.stage ≡ init
      → IsReachable q d
      → 0 < length piece
      → decrypt crypto v.encryptor piece ≡ ok (e, header_of q d ++ payload)
      → run q crypto (local_ready_read piece ∷ events) v ≡ ok (v', es)
      → ((which : Which) → answers which events ≤ asked which (questions es))
      → (questions es ≡ asks_for d) × (connections es ≡ reached q d events)
  server_connects v v' es [] payload e events d server fresh r some_bytes opens ran answer =
      absurd (omega arith)
  server_connects v v' es (b ∷ bs) payload e events d server fresh r some_bytes opens ran answer =
      let s1 = opened_to q v d e payload in
      let did = info ∷ reaches d ∷ [] in
      let begins =
        Ensures-ok
          (Begins q crypto (connections did ++ answered q (port_of s1) events) (questions did))
          (run q crypto (local_ready_read (b ∷ bs) ∷ events) v)
          (first-Begins q crypto v s1 did (b ∷ bs) events
            (opened q laws crypto v b bs payload d e server fresh r opens) (begins-IsPast d))
          ran in
      let asks : questions es ≡ asks_for d = begins.1 ∙ asks-reaches d in
      let few : (which : Which) → answers which events ≤ asked which (asks_for d) =
        subst (λ l. (which : Which) → answers which events ≤ asked which l) asks answer in
      (
        asks,
        begins.0
            ∙ connections-reaches q d (port_of s1) events (target-port q d) (few the_server)
                (few the_remote),
      )

  client_connects :
      (c c' : TcpRelay Host Pipe) (es : List (Effect Host)) (first : List ℕ)
      (events : List (Event Host)) (d : Destination Host) (ip : Host) (ips : List Host)
      → c.is_local ≡ true
      → c.stage ≡ addr
      → c.server_address.ip_addr_list ≡ ip ∷ ips
      → IsReachable q d
      → run q crypto (local_ready_read (5 ∷ 1 ∷ 0 ∷ header_of q d ++ first) ∷ events) c
        ≡ ok (c', es)
      → ((which : Which) → answers which events ≤ asked which (questions es))
      → (questions es ≡ []) × (connections es ≡ (ip, c.server_address.port) ∷ [])
  unfolding connections questions
  client_connects c c' es first events d ip ips client waits knows reachable ran answer =
      let (r, _, done) =
        client_asked q laws crypto c c' es first events d ip ips client waits knows reachable ran in
      let s1 = requested q c d r in
      let did = request_effects ip c.server_address.port in
      let begins =
        Ensures-ok
          (Begins q crypto (connections did ++ answered q (port_of s1) events) (questions did))
          (run q crypto (local_ready_read (5 ∷ 1 ∷ 0 ∷ header_of q d ++ first) ∷ events) c)
          (first-Begins q crypto c s1 did (5 ∷ 1 ∷ 0 ∷ header_of q d ++ first) events done tt)
          ran in
      let few : (which : Which) → answers which events ≤ asked which [] =
        subst (λ l. (which : Which) → answers which events ≤ asked which l) begins.1 answer in
      (
        begins.1,
        begins.0
            ∙ ap (◌∷◌ (ip, c.server_address.port)) (
                answered_none q (port_of s1) events (omega (arith, few the_server))
                  (omega (arith, few the_remote))),
      )

  -- The request of a SOCKS client for a reachable destination with a port below 2 ^ 16 (an IPv4
  -- address; one that is not null and is made again of its sixteen bytes; or a host name that is no
  -- IP address, has no spaces around it, is at most 255 bytes long in the local encoding and is
  -- made again of these bytes) comes to a local relay that knows an IP address of its server, and
  -- the first piece for a fresh relay of a server opens to the header. Whatever comes to both
  -- later, errors and ends included, as long as the runs return and the resolver answers each of
  -- them no more often than it was asked: the local relay asks the resolver nothing and connects
  -- only to the first IP address of its server, once. The relay of the server connects only to the
  -- address asked for, once and without a question; or, asked for a name, it asks only for that
  -- name, once, and connects only to the first host of the answer (the null address when it has
  -- none), with the port asked for.
  pub both_connect :
      (c c' v v' : TcpRelay Host Pipe) (es_c es_v : List (Effect Host))
      (first piece payload : List ℕ) (e : Encryptor Pipe) (events_c events_v : List (Event Host))
      (d : Destination Host) (ip : Host) (ips : List Host)
      → c.is_local ≡ true
      → c.stage ≡ addr
      → c.server_address.ip_addr_list ≡ ip ∷ ips
      → v.is_local ≡ false
      → v.stage ≡ init
      → IsReachable q d
      → 0 < length piece
      → decrypt crypto v.encryptor piece ≡ ok (e, header_of q d ++ payload)
      → run q crypto (local_ready_read (5 ∷ 1 ∷ 0 ∷ header_of q d ++ first) ∷ events_c) c
        ≡ ok (c', es_c)
      → run q crypto (local_ready_read piece ∷ events_v) v ≡ ok (v', es_v)
      → ((which : Which) → answers which events_c ≤ asked which (questions es_c))
      → ((which : Which) → answers which events_v ≤ asked which (questions es_v))
      → ((questions es_c ≡ []) × (connections es_c ≡ (ip, c.server_address.port) ∷ []))
        × ((questions es_v ≡ asks_for d) × (connections es_v ≡ reached q d events_v))
  both_connect c c' v v' es_c es_v first piece payload e events_c events_v d ip ips client waits
        knows server fresh reachable some_bytes opens ran_c ran_v few_c few_v =
      (
        client_connects c c' es_c first events_c d ip ips client waits knows reachable ran_c few_c,
        server_connects v v' es_v piece payload e events_v d server fresh reachable some_bytes opens
            ran_v few_v,
      )
