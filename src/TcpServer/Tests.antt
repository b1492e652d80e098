-- ===== src/TcpServer/Tests.antt =====
-- Runs of a server with small hosts and a small pipe.
use shadowsocks_qt.Prelude.{
  ℕ, ◌≡◌, refl, List, [], ◌∷◌, ◌++◌, ltb, if◌then◌else◌, length, true, false, Returns, Ensures, ok,
  arith,
}
use shadowsocks_qt.Tests.{SmallHost, v4, small_qt, small_crypto}
use shadowsocks_qt.Address.{no_address}
use shadowsocks_qt.Encryptor
use shadowsocks_qt.Encryptor.{null, live, decrypt}
use shadowsocks_qt.Encryptor.Tests.{settings, drawn}
use shadowsocks_qt.TcpRelay.{TcpRelay, init, timeout, local_ready_read}
use shadowsocks_qt.TcpRelay.Tests.{server_at, opened_by}
use shadowsocks_qt.Cipher
use shadowsocks_qt.Common.Header.{parse_header}
use shadowsocks_qt.TcpServer.{
  TcpServer, Connection, ServerEvent, incoming, signalled, finished_handled, listened, refused,
  create, incoming_connection, relay_event, server_run, destroy,
}
use shadowsocks_qt.TcpServer.Relays.{IsSound, server_run-create}
use shadowsocks_qt.TcpServer.Life.{deletions, server_run-destroy}
use shadowsocks_qt.TcpServer.Turns.{assigned, around}
use shadowsocks_qt.TcpServer.Threads.{server_run-assigned}
use shadowsocks_qt.TcpServer.Endings.{relay_event-banned}

abbrev from_host : ℕ → Connection SmallHost
from_host n = record {
  local_host = v4 1;
  local_port = 8388;
  peer_host = v4 n;
  drawn = drawn;
  closings = (true, true) ∷ [];
}

abbrev some_events : List (ServerEvent SmallHost)
some_events =
    listened true
    ∷ incoming (from_host 5)
    ∷ incoming (from_host 6)
    ∷ signalled 0 timeout
    ∷ finished_handled
    ∷ finished_handled
    ∷ incoming (from_host 7)
    ∷ []

abbrev fresh : TcpServer SmallHost ℕ
fresh = create settings false true no_address 2

abbrev relay_of : ℕ → TcpRelay SmallHost ℕ
relay_of n = record (server_at init) { auto_ban = true; peer_host = v4 n }

-- Two relays, the next worker being the first thread.
abbrev busy : TcpServer SmallHost ℕ
busy = record {
  is_local = false;
  auto_ban = true;
  server_address = no_address;
  ep = settings;
  con_list = (0, relay_of 5) ∷ (1, relay_of 6) ∷ [];
  next_relay = 2;
  thread_list = true ∷ true ∷ [];
  worker_thread_id = 0;
  total_workers = 2;
  is_listening = true;
  posted = [];
}

busy-IsSound : IsSound busy
busy-IsSound =
    (omega arith, omega arith, refl, (omega arith, (omega arith, omega arith)), (refl, (refl, tt)))

server_run-create_example :
    Ensures (λ r. IsSound r.0) (server_run small_qt small_crypto some_events [] fresh)
server_run-create_example =
    server_run-create small_qt small_crypto settings false true no_address 2 some_events []
      (omega arith)

server_run-assigned_example :
    Ensures
      (λ r. assigned r.2 ≡ around 2 0 (length (assigned r.2)))
      (server_run small_qt small_crypto some_events [] busy)
server_run-assigned_example =
    server_run-assigned small_qt small_crypto some_events [] busy busy-IsSound

-- The IV, and a header of a type that there is none of.
abbrev malformed : List ℕ
malformed = 10 ∷ 20 ∷ 30 ∷ 12 ∷ 5 ∷ []

opens : decrypt small_crypto (relay_of 5).encryptor malformed ≡ ok (opened_by, 9 ∷ 0 ∷ [])
unfolding Encryptor.create decrypt Cipher.create Cipher.update Cipher.random_iv
opens = refl

fails :
    parse_header small_qt (9 ∷ 0 ∷ []) (relay_of 5).remote_address
    ≡ ok ((relay_of 5).remote_address, 0)
unfolding parse_header
fails = refl

relay_event-banned_example :
    Returns
      (λ r. incoming_connection small_qt (from_host 5) r.1 r.0 ≡ ok (r.0, r.1, refused ∷ []))
      (relay_event small_qt small_crypto 0 (local_ready_read malformed) [] busy)
relay_event-banned_example =
    relay_event-banned small_qt small_crypto 0 (relay_of 5) 10 (20 ∷ 30 ∷ 12 ∷ 5 ∷ []) opened_by 9
      (0 ∷ []) (relay_of 5).remote_address (from_host 5) [] busy refl refl refl refl opens fails
      refl refl refl refl

server_run-destroy_example :
    Ensures
      (λ r. deletions 0 (r.2 ++ (destroy r.0).1) ≡ (if ltb 0 r.0.next_relay then 1 else 0))
      (server_run small_qt small_crypto some_events [] fresh)
server_run-destroy_example =
    server_run-destroy 0 small_qt small_crypto settings false true no_address 2 some_events []
