-- ===== src/TcpRelay/Tests.antt =====
-- Runs of relays with small hosts and a small pipe.
use shadowsocks_qt.Prelude.{
  ℕ, ◌≡◌, refl, ◌∙◌, inl, List, [], ◌∷◌, ◌++◌, true, false, Result, ok, ◌>>=◌, Returns, Ensures,
  if◌then◌else◌, joined, arith,
}
use shadowsocks_qt.Tests.{SmallHost, v4, small_qt, small_qt_laws, small_crypto}
use shadowsocks_qt.Cipher
use shadowsocks_qt.Address.{Address, get_first_ip, found, of_host, set_ip_address}
use shadowsocks_qt.Common.Header.{pack_host}
use shadowsocks_qt.Encryptor.{Encryptor, null, live, create, encrypt}
use shadowsocks_qt.Encryptor.Tests.{settings, drawn, masking, sender}
use shadowsocks_qt.TcpRelay.{
  is_destroyed, this_closing, Stage, init, addr, dns, connecting, TcpRelay, Effect, info,
  local_write, connect_to, the_server, the_remote, local_disconnected, Event, local_ready_read,
  looked_up, remote_connected, on_local_ready_read, run, step,
}
use shadowsocks_qt.TcpRelay.Upstream.{all_carried, passed_on}
use shadowsocks_qt.TcpRelay.Transport.{run-carried}
use shadowsocks_qt.TcpRelay.Requests.{on_local_ready_read-connect}
use shadowsocks_qt.TcpRelay.Balances.{finishes, emissions}
use shadowsocks_qt.TcpRelay.Connections.{connections}
use shadowsocks_qt.TcpRelay.Revived.{run-looked_up}
use shadowsocks_qt.TcpRelay.Finished.{step-finished}

abbrev blank : Address SmallHost
blank = record { name = []; port = 0; ip_addr_list = [] }

abbrev server : Address SmallHost
server = record { name = 0 ∷ 9 ∷ []; port = 8388; ip_addr_list = v4 9 ∷ [] }

abbrev pub client_at : Stage → TcpRelay SmallHost ℕ
client_at stage = record {
  stage = stage;
  remote_address = blank;
  server_address = server;
  data_to_write = [];
  is_local = true;
  auto_ban = false;
  encryptor = create settings drawn;
  local_host = v4 1;
  local_port = 1080;
  peer_host = v4 2;
  closings = (true, true) ∷ [];
}

abbrev pub server_at : Stage → TcpRelay SmallHost ℕ
server_at stage = record (client_at stage) { is_local = false; server_address = blank }

abbrev some_events : List (Event SmallHost)
some_events =
    local_ready_read (1 ∷ [])
    ∷ looked_up the_server (found (v4 9 ∷ []))
    ∷ local_ready_read (2 ∷ 3 ∷ [])
    ∷ remote_connected
    ∷ []

run-carried_example :
    (run small_qt small_crypto some_events (client_at dns) >>= passed_on)
    ≡ (all_carried small_crypto true some_events (create settings drawn) >>= joined [])
run-carried_example =
    run-carried small_qt small_crypto (client_at dns) some_events tt (tt, (tt, (tt, (tt, tt))))

abbrev pub rest : List ℕ
rest = 8 ∷ []

abbrev answers : List (Effect SmallHost)
answers =
    info ∷ local_write (5 ∷ 0 ∷ 0 ∷ 1 ∷ 0 ∷ 0 ∷ 0 ∷ 0 ∷ 16 ∷ 16 ∷ []) ∷ connect_to (v4 9) 8388 ∷ []

abbrev waits_with : Encryptor ℕ × List ℕ → Result (TcpRelay SmallHost ℕ × List (Effect SmallHost))
waits_with r = ok (
  record (client_at connecting) {
    remote_address = of_host small_qt (v4 7) 443;
    encryptor = r.0;
    data_to_write = r.1;
  },
  answers,
)

-- The bytes of the request and one more, behind the IV and masked.
abbrev pub request_bytes : List ℕ
request_bytes = 4 ∷ 5 ∷ 5 ∷ 5 ∷ 2 ∷ 4 ∷ 190 ∷ 13 ∷ []

abbrev pub opened_by : Encryptor ℕ
opened_by = record sender { en_cipher = null; de_cipher = live masking }

abbrev connected : TcpRelay SmallHost ℕ
connected = record (client_at connecting) {
  remote_address = record { name = 0 ∷ 7 ∷ []; port = 443; ip_addr_list = v4 7 ∷ [] };
  encryptor = sender;
  data_to_write = 10 ∷ 20 ∷ 30 ∷ request_bytes;
}

encrypts :
    (encrypt small_crypto (create settings drawn) (pack_host small_qt (v4 7) 443 ++ rest) >>= λ r.
    waits_with r)
    ≡ ok (connected, answers)
unfolding create encrypt pack_host of_host set_ip_address Cipher.create Cipher.update
    Cipher.random_iv
encrypts = refl

requests :
    on_local_ready_read small_qt small_crypto
      (5 ∷ 1 ∷ 0 ∷ pack_host small_qt (v4 7) 443 ++ rest)
      (client_at addr)
    ≡ ok (connected, answers)
requests =
    on_local_ready_read-connect small_qt small_qt_laws small_crypto (client_at addr) rest (v4 7) 443
      (v4 9) [] refl refl refl (omega arith) (inl refl)
    ∙ encrypts

step-finished_example :
    Ensures
      (λ r. finishes r.1 ≡ (
        if is_destroyed r.0.stage then emissions (this_closing (server_at init).closings) else 0))
      (step small_qt small_crypto (local_ready_read (10 ∷ 20 ∷ 30 ∷ 12 ∷ [])) (server_at init))
step-finished_example =
    step-finished small_qt small_crypto (local_ready_read (10 ∷ 20 ∷ 30 ∷ 12 ∷ [])) (server_at init)
      refl

-- The client leaves while the name is looked up.
run-looked_up_example :
    Returns
      (λ r.
        (r.0.stage ≡ connecting) × (connections r.1 ≡ (v4 7, blank.port) ∷ []) × (finishes r.1 ≡ 3))
      (run small_qt small_crypto
        (local_disconnected ∷ looked_up the_remote (found (v4 7 ∷ [])) ∷ [])
        (server_at dns))
unfolding get_first_ip
run-looked_up_example =
    run-looked_up small_qt small_crypto local_disconnected (v4 7 ∷ []) (server_at dns) tt refl
