-- ===== src/Controller/Loop.antt =====
-- What comes to a running controller of lib/controller.cpp, its TCP server and its UDP relay. The
-- vector of banned addresses of lib/common.cpp is one for the whole program: the relays of the server
-- and the UDP relay write the same, which stands in the state of the UDP relay.
use shadowsocks_qt.Prelude.{ℕ, List, [], ◌∷◌, Result, ok, ◌>>=◌}
use shadowsocks_qt.Qt.{Qt}
use shadowsocks_qt.Crypto.{Crypto}
use shadowsocks_qt.Address.{HostInfo}
use shadowsocks_qt.Profile.{Profile}
use shadowsocks_qt.TcpServer.{ServerEvent, State, server_step}
use shadowsocks_qt.UdpRelay.{
  UdpRelay, on_server_udp_socket_ready_read, on_client_udp_socket_ready_read,
  on_client_disconnected,
}
use shadowsocks_qt.Controller.{Controller, Network, stop, start, setup, on_server_address_looked_up}

pub data ProgramEvent (Host : Type 0) : Type 0 where
  to_server : ServerEvent Host → ProgramEvent Host
  -- A datagram of a client, with the random bytes that are drawn for it.
  datagram : List ℕ → List ℕ → Host → ℕ → ProgramEvent Host
  -- A datagram that comes to a client socket.
  answer : ℕ → List ℕ → List ℕ → Host → ℕ → ProgramEvent Host
  disconnected : ℕ → ProgramEvent Host
  looked_up : HostInfo Host → ProgramEvent Host
  stopping : List ℕ → ProgramEvent Host
  starting : ProgramEvent Host
  setting : Profile → List ℕ → ProgramEvent Host

module _ {Host Pipe : Type 0} where
  -- The vector after the server, and the server.
  abbrev pub with_server : Controller Host Pipe → State Host Pipe → Controller Host Pipe
  with_server s r = record s { tcp_server = r.0; udp_relay = record s.udp_relay { banned = r.1 } }

  abbrev pub with_udp : Controller Host Pipe → UdpRelay Host Pipe → Controller Host Pipe
  with_udp s u = record s { udp_relay = u }

module _ {Host Pipe : Type 0} (q : Qt Host) (n : Network Host) (crypto : Crypto Pipe)
    (from_name : List ℕ → List Host) where
  -- One event, and the controller after it; what it does to the outside is in the parts.
  unfoldable pub program_step :
      ProgramEvent Host → Controller Host Pipe → Result (Controller Host Pipe)
  unfolding server_step on_server_udp_socket_ready_read on_client_udp_socket_ready_read
      on_client_disconnected stop start setup on_server_address_looked_up
  program_step (to_server e) s =
      server_step q crypto e s.udp_relay.banned s.tcp_server >>= λ r. ok (with_server s r)
  program_step (datagram drawn input h p) s =
      on_server_udp_socket_ready_read q crypto from_name drawn input h p s.udp_relay >>= λ r.
      ok (with_udp s r.0)
  program_step (answer id drawn input h p) s =
      on_client_udp_socket_ready_read q crypto from_name id drawn input h p s.udp_relay >>= λ r.
      ok (with_udp s r.0)
  program_step (disconnected id) s = ok (with_udp s (on_client_disconnected id s.udp_relay).0)
  program_step (looked_up info) s = ok (on_server_address_looked_up info s).0
  program_step (stopping drawn) s = stop drawn s >>= λ r. ok r.0
  program_step starting s = ok (start q n s).0
  program_step (setting p drawn) s = setup q n crypto p drawn s >>= λ r. ok r.0

  unfoldable pub program_run :
      List (ProgramEvent Host) → Controller Host Pipe → Result (Controller Host Pipe)
  unfolding program_step
  program_run [] s = ok s
  program_run (e ∷ events) s = program_step e s >>= λ s'. program_run events s'
