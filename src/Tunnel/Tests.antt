-- ===== src/Tunnel/Tests.antt =====
-- Runs of a whole connection with small hosts and a small pipe.
mod Names
mod Total
use shadowsocks_qt.Prelude.{ℕ, ◌≡◌, refl, inl, List, [], ◌∷◌, ◌++◌, ok, ◌≤◌, length, flatten, arith}
use shadowsocks_qt.Tests.{SmallHost, v4, small_qt, small_qt_laws, small_crypto, small_crypto_laws}
use shadowsocks_qt.Cipher
use shadowsocks_qt.Address.{of_host, look_up, get_first_ip}
use shadowsocks_qt.Common.Header.{pack_host, parse_header, parse_ipv4, read_ipv4, read_port}
use shadowsocks_qt.Encryptor.{Encryptor, live, create, encrypt, decrypt}
use shadowsocks_qt.Encryptor.Tests.{settings, drawn, masking, sender}
use shadowsocks_qt.TcpRelay.{
  init, addr, stream, TcpRelay, Effect, Event, local_ready_read, remote_ready_read,
  remote_connected, run, info, local_write, remote_write, connect_to, timer_start,
  latency_available, bytes_read, flushed,
}
use shadowsocks_qt.TcpRelay.Upstream.{upstream}
use shadowsocks_qt.TcpRelay.Downstream.{downstream}
use shadowsocks_qt.TcpRelay.Tests.{client_at, server_at, rest, opened_by}
use shadowsocks_qt.Tunnel.Streams.{local_pieces}
use shadowsocks_qt.Tunnel.Destination.{at_host}
use shadowsocks_qt.Tunnel.Session.{session_so_far}
use shadowsocks_qt.Tunnel.Answers.{remote_pieces, socks_reply, answers_delivered, answers_so_far}

abbrev request : Event SmallHost
request = local_ready_read (5 ∷ 1 ∷ 0 ∷ pack_host small_qt (v4 7) 443 ++ rest)

-- The client sends one more byte, and two pieces come back.
abbrev pub events_c : List (Event SmallHost)
events_c =
    remote_connected
    ∷ local_ready_read (6 ∷ [])
    ∷ remote_ready_read (10 ∷ 20 ∷ 30 ∷ 4 ∷ [])
    ∷ remote_ready_read (7 ∷ [])
    ∷ []

-- The IV and the header.
abbrev piece : List ℕ
piece = 10 ∷ 20 ∷ 30 ∷ 4 ∷ 5 ∷ 5 ∷ 5 ∷ 2 ∷ 4 ∷ 190 ∷ []

-- The destination answers, and the rest of the stream arrives.
abbrev events_v : List (Event SmallHost)
events_v = remote_connected ∷ remote_ready_read (1 ∷ 2 ∷ []) ∷ local_ready_read (13 ∷ 3 ∷ []) ∷ []

abbrev pub both_ways : Encryptor ℕ
both_ways = record sender { de_cipher = live masking }

abbrev streaming : TcpRelay SmallHost ℕ → TcpRelay SmallHost ℕ
streaming s = record s { remote_address = of_host small_qt (v4 7) 443; encryptor = both_ways }

abbrev effects_c : List (Effect SmallHost)
effects_c =
    info
    ∷ local_write socks_reply
    ∷ connect_to (v4 9) 8388
    ∷ timer_start
    ∷ latency_available
    ∷ remote_write (10 ∷ 20 ∷ 30 ∷ 4 ∷ 5 ∷ 5 ∷ 5 ∷ 2 ∷ 4 ∷ 190 ∷ 13 ∷ [])
    ∷ remote_write (3 ∷ [])
    ∷ timer_start
    ∷ bytes_read 4
    ∷ local_write (1 ∷ [])
    ∷ timer_start
    ∷ bytes_read 1
    ∷ local_write (2 ∷ [])
    ∷ timer_start
    ∷ []

abbrev effects_v : List (Effect SmallHost)
effects_v =
    info
    ∷ connect_to (v4 7) 443
    ∷ timer_start
    ∷ latency_available
    ∷ bytes_read 2
    ∷ local_write (10 ∷ 20 ∷ 30 ∷ 4 ∷ 7 ∷ [])
    ∷ timer_start
    ∷ remote_write (8 ∷ 6 ∷ [])
    ∷ timer_start
    ∷ []

ran_c :
    run small_qt small_crypto (request ∷ events_c) (client_at addr)
    ≡ ok (streaming (client_at stream), effects_c)
unfolding run pack_host of_host look_up get_first_ip flushed parse_header parse_ipv4 read_ipv4
    read_port create encrypt decrypt Cipher.create Cipher.update Cipher.random_iv
ran_c = refl

ran_v :
    run small_qt small_crypto (local_ready_read piece ∷ events_v) (server_at init)
    ≡ ok (streaming (server_at stream), effects_v)
unfolding run pack_host of_host look_up get_first_ip flushed parse_header parse_ipv4 read_ipv4
    read_port create encrypt decrypt Cipher.create Cipher.update Cipher.random_iv
ran_v = refl

opens :
    decrypt small_crypto (create settings drawn) piece
    ≡ ok (opened_by, pack_host small_qt (v4 7) 443 ++ [])
unfolding create decrypt pack_host Cipher.create Cipher.update Cipher.random_iv
opens = refl

header_long : length (pack_host small_qt (v4 7) 443) ≤ length (pack_host small_qt (v4 7) 443 ++ [])
unfolding pack_host
header_long = omega arith

-- The relay of the server before the rest of the stream has arrived.
abbrev early_v : List (Event SmallHost)
early_v = remote_connected ∷ []

abbrev early_effects_v : List (Effect SmallHost)
early_effects_v = info ∷ connect_to (v4 7) 443 ∷ timer_start ∷ latency_available ∷ []

ran_early_v :
    run small_qt small_crypto (local_ready_read piece ∷ early_v) (server_at init)
    ≡ ok (record (streaming (server_at stream)) { encryptor = opened_by }, early_effects_v)
unfolding run pack_host of_host look_up get_first_ip flushed parse_header parse_ipv4 read_ipv4
    read_port create encrypt decrypt Cipher.create Cipher.update Cipher.random_iv
ran_early_v = refl

arrived_early : flatten (piece ∷ local_pieces early_v) ++ 13 ∷ 3 ∷ [] ≡ upstream effects_c ++ []
unfolding flatten upstream
arrived_early = refl

session_so_far_example :
    (late : List ℕ) × ((upstream early_effects_v ++ []) ++ late
      ≡ flatten (rest ∷ local_pieces events_c))
session_so_far_example =
    session_so_far small_qt small_qt_laws small_crypto small_crypto_laws (client_at addr)
      (server_at init) (streaming (client_at stream))
      (record (streaming (server_at stream)) { encryptor = opened_by }) effects_c early_effects_v
      settings drawn drawn rest piece (pack_host small_qt (v4 7) 443 ++ []) opened_by events_c
      early_v (at_host (v4 7) 443) (v4 9) [] refl refl refl refl refl refl refl refl refl
      (omega arith) (omega arith, inl refl) (tt, (tt, (tt, (tt, tt)))) (tt, tt) ran_c ran_early_v
      (omega arith) (omega arith) opens header_long (13 ∷ 3 ∷ []) arrived_early

came_back : flatten ((10 ∷ 20 ∷ 30 ∷ 4 ∷ []) ∷ (7 ∷ []) ∷ []) ≡ downstream effects_v
unfolding flatten downstream
came_back = refl

answers_delivered_example : downstream effects_c ≡ socks_reply ++ flatten (remote_pieces events_v)
answers_delivered_example =
    answers_delivered small_qt small_qt_laws small_crypto small_crypto_laws (client_at addr)
      (server_at init) (streaming (client_at stream)) (streaming (server_at stream)) effects_c
      effects_v settings drawn drawn rest piece [] (1 ∷ 2 ∷ []) (10 ∷ 20 ∷ 30 ∷ 4 ∷ []) []
      ((7 ∷ []) ∷ []) opened_by events_c events_v (at_host (v4 7) 443) (v4 9) [] refl refl refl refl
      refl refl refl (omega arith) (omega arith, inl refl) (tt, (tt, (tt, (tt, tt))))
      (tt, (tt, (tt, tt))) ran_c ran_v (omega arith) opens refl refl (omega arith) came_back

-- The same before the last piece has come back.
abbrev early_c : List (Event SmallHost)
early_c =
    remote_connected ∷ local_ready_read (6 ∷ []) ∷ remote_ready_read (10 ∷ 20 ∷ 30 ∷ 4 ∷ []) ∷ []

abbrev early_effects_c : List (Effect SmallHost)
early_effects_c =
    info
    ∷ local_write socks_reply
    ∷ connect_to (v4 9) 8388
    ∷ timer_start
    ∷ latency_available
    ∷ remote_write (10 ∷ 20 ∷ 30 ∷ 4 ∷ 5 ∷ 5 ∷ 5 ∷ 2 ∷ 4 ∷ 190 ∷ 13 ∷ [])
    ∷ remote_write (3 ∷ [])
    ∷ timer_start
    ∷ bytes_read 4
    ∷ local_write (1 ∷ [])
    ∷ timer_start
    ∷ []

ran_early_c :
    run small_qt small_crypto (request ∷ early_c) (client_at addr)
    ≡ ok (streaming (client_at stream), early_effects_c)
unfolding run pack_host of_host look_up get_first_ip flushed parse_header parse_ipv4 read_ipv4
    read_port create encrypt decrypt Cipher.create Cipher.update Cipher.random_iv
ran_early_c = refl

came_back_early : flatten ((10 ∷ 20 ∷ 30 ∷ 4 ∷ []) ∷ []) ++ 7 ∷ [] ≡ downstream effects_v
unfolding flatten downstream
came_back_early = refl

answers_so_far_example :
    (late : List ℕ) × (downstream early_effects_c ++ late
      ≡ socks_reply ++ flatten (remote_pieces events_v))
answers_so_far_example =
    answers_so_far small_qt small_qt_laws small_crypto small_crypto_laws (client_at addr)
      (server_at init) (streaming (client_at stream)) (streaming (server_at stream)) early_effects_c
      effects_v settings drawn drawn rest piece [] (1 ∷ 2 ∷ []) (10 ∷ 20 ∷ 30 ∷ 4 ∷ []) [] []
      opened_by early_c events_v (at_host (v4 7) 443) (v4 9) [] refl refl refl refl refl refl refl
      (omega arith) (omega arith, inl refl) (tt, (tt, (tt, tt))) (tt, (tt, (tt, tt))) ran_early_c
      ran_v (omega arith) opens refl refl (omega arith) (7 ∷ []) came_back_early
