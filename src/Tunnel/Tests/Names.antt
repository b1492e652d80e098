-- ===== src/Tunnel/Tests/Names.antt =====
-- A run of a whole connection to a host name.
use shadowsocks_qt.Prelude.{ℕ, ◌≡◌, refl, List, [], ◌∷◌, ◌++◌, ok, ◌≤◌, length, flatten, arith}
use shadowsocks_qt.Tests.{SmallHost, v4, small_qt, small_qt_laws, small_crypto, small_crypto_laws}
use shadowsocks_qt.Cipher
use shadowsocks_qt.Address.{
  of_name, set_address, look_up, get_first_ip, found, on_look_up_finished, address_type,
}
use shadowsocks_qt.Common.Header.{pack_address, parse_header, parse_name, read_port}
use shadowsocks_qt.Encryptor.{create, encrypt, decrypt}
use shadowsocks_qt.Encryptor.Tests.{settings, drawn}
use shadowsocks_qt.TcpRelay.{
  init, addr, stream, TcpRelay, Effect, Event, local_ready_read, remote_ready_read, looked_up,
  Which, the_server, the_remote, remote_connected, run, info, local_write, remote_write, connect_to,
  timer_start, resolve, latency_available, bytes_read, flushed,
}
use shadowsocks_qt.TcpRelay.Upstream.{upstream}
use shadowsocks_qt.TcpRelay.Tests.{client_at, server_at, rest, opened_by}
use shadowsocks_qt.Tunnel.Streams.{local_pieces}
use shadowsocks_qt.Tunnel.Destination.{at_name}
use shadowsocks_qt.TcpRelay.Connections.{connections, questions}
use shadowsocks_qt.TcpRelay.Lookups.{answers, asked}
use shadowsocks_qt.Tunnel.Reached.{both_connect}
use shadowsocks_qt.Tunnel.Session.{session_delivers}
use shadowsocks_qt.Tunnel.Answers.{socks_reply}
use shadowsocks_qt.Tunnel.Tests.{both_ways, events_c}

abbrev name : List ℕ
name = 104 ∷ 105 ∷ []

abbrev request : Event SmallHost
request = local_ready_read (5 ∷ 1 ∷ 0 ∷ pack_address small_qt (of_name small_qt name 443) ++ rest)

-- The IV and the header.
abbrev piece : List ℕ
piece = 10 ∷ 20 ∷ 30 ∷ 6 ∷ 7 ∷ 109 ∷ 108 ∷ 4 ∷ 190 ∷ []

-- The name is found, the relay connects, and the rest of the stream arrives.
abbrev events_v : List (Event SmallHost)
events_v =
    looked_up the_remote (found (v4 7 ∷ []))
    ∷ remote_connected
    ∷ remote_ready_read (1 ∷ 2 ∷ [])
    ∷ local_ready_read (13 ∷ 3 ∷ [])
    ∷ []

abbrev client_after : TcpRelay SmallHost ℕ
client_after = record (client_at stream) {
  remote_address = record { name = name; port = 443; ip_addr_list = [] };
  encryptor = both_ways;
}

abbrev server_after : TcpRelay SmallHost ℕ
server_after = record (server_at stream) {
  remote_address = record { name = name; port = 443; ip_addr_list = v4 7 ∷ [] };
  encryptor = both_ways;
}

abbrev effects_c : List (Effect SmallHost)
effects_c =
    info
    ∷ local_write socks_reply
    ∷ connect_to (v4 9) 8388
    ∷ timer_start
    ∷ latency_available
    ∷ remote_write (10 ∷ 20 ∷ 30 ∷ 6 ∷ 7 ∷ 109 ∷ 108 ∷ 4 ∷ 190 ∷ 13 ∷ [])
    ∷ remote_write (3 ∷ [])
    ∷ timer_start
    ∷ bytes_read 4
    ∷ local_write (1 ∷ [])
    ∷ timer_start
    ∷ bytes_read 1
    ∷ local_write (2 ∷ [])
    ∷ timer_start
    ∷ []

abbrev effects_v : List (Effect SmallHost)
effects_v =
    info
    ∷ resolve the_remote name
    ∷ timer_start
    ∷ connect_to (v4 7) 443
    ∷ latency_available
    ∷ bytes_read 2
    ∷ local_write (10 ∷ 20 ∷ 30 ∷ 4 ∷ 7 ∷ [])
    ∷ timer_start
    ∷ remote_write (8 ∷ 6 ∷ [])
    ∷ timer_start
    ∷ []

ran_c :
    run small_qt small_crypto (request ∷ events_c) (client_at addr) ≡ ok (client_after, effects_c)
unfolding run pack_address of_name set_address address_type look_up get_first_ip flushed
    parse_header parse_name read_port create encrypt decrypt Cipher.create Cipher.update
    Cipher.random_iv
ran_c = refl

ran_v :
    run small_qt small_crypto (local_ready_read piece ∷ events_v) (server_at init)
    ≡ ok (server_after, effects_v)
unfolding run pack_address of_name set_address address_type look_up on_look_up_finished get_first_ip
    flushed parse_header parse_name read_port create encrypt decrypt Cipher.create Cipher.update
    Cipher.random_iv
ran_v = refl

opens :
    decrypt small_crypto (create settings drawn) piece
    ≡ ok (opened_by, pack_address small_qt (of_name small_qt name 443) ++ [])
unfolding create decrypt pack_address of_name set_address address_type Cipher.create Cipher.update
    Cipher.random_iv
opens = refl

header_long :
    length (pack_address small_qt (of_name small_qt name 443))
    ≤ length (pack_address small_qt (of_name small_qt name 443) ++ [])
unfolding pack_address of_name set_address address_type
header_long = omega arith

arrived : flatten (piece ∷ local_pieces events_v) ≡ upstream effects_c
unfolding flatten upstream
arrived = refl

session_delivers_example :
    (upstream effects_v ++ [] ≡ flatten (rest ∷ local_pieces events_c))
    × ((later : List (Effect SmallHost)) × (effects_v
          ≡ info ∷ resolve the_remote name ∷ timer_start ∷ later))
session_delivers_example =
    session_delivers small_qt small_qt_laws small_crypto small_crypto_laws (client_at addr)
      (server_at init) client_after server_after effects_c effects_v settings drawn drawn rest piece
      (pack_address small_qt (of_name small_qt name 443) ++ []) opened_by events_c events_v
      (at_name name 443) (v4 9) [] refl refl refl refl refl refl refl refl refl (omega arith)
      (omega arith, (refl, refl, refl, omega arith)) (tt, (tt, (tt, (tt, tt))))
      (tt, (tt, (tt, (tt, tt)))) ran_c ran_v (omega arith) (omega arith) opens header_long arrived
      refl

questions_c : questions effects_c ≡ []
unfolding questions
questions_c = refl

questions_v : questions effects_v ≡ (the_remote, name) ∷ []
unfolding questions
questions_v = refl

few_c : (which : Which) → answers which events_c ≤ asked which (questions effects_c)
few_c the_server = rw questions_c (omega arith)
few_c the_remote = rw questions_c (omega arith)

few_v : (which : Which) → answers which events_v ≤ asked which (questions effects_v)
few_v the_server = rw questions_v (omega arith)
few_v the_remote = rw questions_v (omega arith)

both_connect_example :
    ((questions effects_c ≡ []) × (connections effects_c ≡ (v4 9, 8388) ∷ []))
    × ((questions effects_v ≡ (the_remote, name) ∷ []) × (connections effects_v ≡ (v4 7, 443) ∷ []))
unfolding get_first_ip
both_connect_example =
    both_connect small_qt small_qt_laws small_crypto (client_at addr) client_after (server_at init)
      server_after effects_c effects_v rest piece [] opened_by events_c events_v (at_name name 443)
      (v4 9) [] refl refl refl refl refl (omega arith, (refl, refl, refl, omega arith))
      (omega arith) opens ran_c ran_v few_c few_v
