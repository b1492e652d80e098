-- ===== src/TcpRelay/Revived.antt =====
-- An answer of the resolver that comes to a closed relay, in lib/tcprelay.cpp.
use shadowsocks_qt.Prelude.{
  ℕ, ◌≡◌, refl, ap, ◌∙◌, List, [], ◌∷◌, ◌++◌, true, false, Bool, Never, Returns, arith,
}
use shadowsocks_qt.Qt.{Qt}
use shadowsocks_qt.Crypto.{Crypto}
use shadowsocks_qt.Address.{found, get_first_ip, on_look_up_finished}
use shadowsocks_qt.TcpRelay.{
  TcpRelay, Effect, Event, dns, connecting, local_error, local_disconnected, timeout, looked_up,
  the_remote, close, closing, this_closing, on_socket_error, on_timeout, on_answer, on_dns_resolved,
  step, run, connect_to,
}
use shadowsocks_qt.TcpRelay.Balances.{finishes, finishes-append, emissions, closing-emissions}
use shadowsocks_qt.TcpRelay.Connections.{connections, connections-append, closing_begins}

-- What ends a relay while it looks a name up: its client, or the timer.
abbrev pub IsEnding : {Host : Type 0} → Event Host → Type 0
IsEnding local_disconnected = Unit
IsEnding (local_error is_error) = Unit
IsEnding timeout = Unit
IsEnding _ = Never

module _ {Host Pipe : Type 0} (q : Qt Host) (crypto : Crypto Pipe) where
  -- It is closed, and then it connects.
  abbrev IsRevived :
      List Host → TcpRelay Host Pipe → TcpRelay Host Pipe × List (Effect Host) → Type 0
  IsRevived hosts s r =
      (r.0.stage ≡ connecting)
      × (connections r.1
          ≡ (
            get_first_ip q (record { name = []; port = 0; ip_addr_list = hosts }),
            s.remote_address.port,
          )
            ∷ [])
      × (finishes r.1 ≡ emissions (this_closing s.closings))

  behind_closing :
      (c : Bool × Bool) (h : Host) (p : ℕ)
      → (connections (closing c ++ connect_to h p ∷ []) ≡ (h, p) ∷ [])
        × (finishes (closing c ++ connect_to h p ∷ []) ≡ emissions c)
  unfolding connections finishes
  behind_closing c h p = (
    connections-append (closing c) (connect_to h p ∷ [])
        ∙ ap (λ l. l ++ (h, p) ∷ []) (closing_begins Host c).0,
    omega (arith, finishes-append (closing c) (connect_to h p ∷ []), closing-emissions Host c),
  )

  -- A relay that its client or its timer ends while it looks a name up emits `finished`, and then,
  -- if the resolver finds the name before the relay is deleted, it is no longer destroyed: it
  -- connects to the first host of the answer (the null address when it has none), with the port that
  -- was asked for.
  pub run-looked_up :
      (e : Event Host) (hosts : List Host) (s : TcpRelay Host Pipe)
      → IsEnding e
      → s.stage ≡ dns
      → Returns (IsRevived hosts s) (run q crypto (e ∷ looked_up the_remote (found hosts) ∷ []) s)
  unfolding run step close on_socket_error on_timeout on_answer on_dns_resolved on_look_up_finished
      get_first_ip connections finishes
  run-looked_up local_disconnected hosts s ending is =
      let b = behind_closing (this_closing s.closings) _ s.remote_address.port in
      rw is (refl, b.0, b.1)
  run-looked_up (local_error true) hosts s ending is =
      let b = behind_closing (this_closing s.closings) _ s.remote_address.port in
      rw is (refl, b.0, b.1)
  run-looked_up (local_error false) hosts s ending is =
      let b = behind_closing (this_closing s.closings) _ s.remote_address.port in
      rw is (refl, b.0, b.1)
  run-looked_up timeout hosts s ending is =
      let b = behind_closing (this_closing s.closings) _ s.remote_address.port in
      rw is (refl, b.0, b.1)
  run-looked_up _ hosts s ending is = elim ending [ ]
