-- ===== src/TcpRelay/Lookups.antt =====
-- The answers of the resolver that come to a relay of lib/tcprelay.cpp, and what it asked.
use shadowsocks_qt.Prelude.{
  ℕ, ◌+◌, ◌≡◌, refl, ap, List, [], ◌∷◌, Bool, true, false, if◌then◌else◌, arith,
}
use shadowsocks_qt.Qt.{Qt}
use shadowsocks_qt.Address.{found, failed, get_first_ip}
use shadowsocks_qt.TcpRelay.{
  Event, Which, the_server, the_remote, local_ready_read, remote_ready_read, looked_up,
  remote_connected, local_error, remote_error, local_disconnected, remote_disconnected, timeout,
}
use shadowsocks_qt.TcpRelay.Connections.{answered}

abbrev is_same : Which → Which → Bool
is_same the_server the_server = true
is_same the_remote the_remote = true
is_same the_server the_remote = false
is_same the_remote the_server = false

-- How many answers for one of the addresses come, and how often it is asked for.
abbrev pub answers : {Host : Type 0} → Which → List (Event Host) → ℕ
answers which [] = 0
answers which (looked_up other info ∷ events) =
    (if is_same which other then 1 else 0) + answers which events
answers which (_ ∷ events) = answers which events

abbrev pub asked : Which → List (Which × List ℕ) → ℕ
asked which [] = 0
asked which ((other, name) ∷ questions) =
    (if is_same which other then 1 else 0) + asked which questions

module _ {Host : Type 0} (q : Qt Host) where
  pub answered_none :
      (ports : Which → ℕ) (events : List (Event Host))
      → answers the_server events ≡ 0
      → answers the_remote events ≡ 0
      → answered q ports events ≡ []
  answered_none ports [] h k = refl
  answered_none ports (looked_up the_server info ∷ events) h k = absurd (omega (arith, h))
  answered_none ports (looked_up the_remote info ∷ events) h k = absurd (omega (arith, k))
  answered_none ports (local_ready_read bytes ∷ events) h k = answered_none ports events h k
  answered_none ports (remote_ready_read bytes ∷ events) h k = answered_none ports events h k
  answered_none ports (remote_connected ∷ events) h k = answered_none ports events h k
  answered_none ports (local_error e ∷ events) h k = answered_none ports events h k
  answered_none ports (remote_error e ∷ events) h k = answered_none ports events h k
  answered_none ports (local_disconnected ∷ events) h k = answered_none ports events h k
  answered_none ports (remote_disconnected ∷ events) h k = answered_none ports events h k
  answered_none ports (timeout ∷ events) h k = answered_none ports events h k

  -- Without an answer for the server's address only the port of the other matters.
  pub answered_remote :
      (ports : Which → ℕ) (events : List (Event Host))
      → answers the_server events ≡ 0
      → answered q ports events ≡ answered q (λ which. ports the_remote) events
  answered_remote ports [] h = refl
  answered_remote ports (looked_up the_server info ∷ events) h = absurd (omega (arith, h))
  answered_remote ports (looked_up the_remote failed ∷ events) h =
      answered_remote ports events (omega (arith, h))
  answered_remote ports (looked_up the_remote (found hosts) ∷ events) h =
      ap
        (◌∷◌
          (get_first_ip q (record { name = []; port = 0; ip_addr_list = hosts }), ports the_remote))
        (answered_remote ports events (omega (arith, h)))
  answered_remote ports (local_ready_read bytes ∷ events) h = answered_remote ports events h
  answered_remote ports (remote_ready_read bytes ∷ events) h = answered_remote ports events h
  answered_remote ports (remote_connected ∷ events) h = answered_remote ports events h
  answered_remote ports (local_error e ∷ events) h = answered_remote ports events h
  answered_remote ports (remote_error e ∷ events) h = answered_remote ports events h
  answered_remote ports (local_disconnected ∷ events) h = answered_remote ports events h
  answered_remote ports (remote_disconnected ∷ events) h = answered_remote ports events h
  answered_remote ports (timeout ∷ events) h = answered_remote ports events h
