-- ===== src/Controller/Tests.antt =====
-- Runs of a controller with small hosts and a small pipe.
use shadowsocks_qt.Prelude.{
  ℕ, ◌≡◌, refl, List, [], ◌∷◌, flatten, true, false, ◌&&◌, ◌||◌, ok, err, length_error,
}
use shadowsocks_qt.Tests.{SmallHost, no_host, v4, small_qt, small_crypto, small_crypto_laws}
use shadowsocks_qt.Address.{no_address, assign, of_name, set_address, look_up, is_ip_valid}
use shadowsocks_qt.Cipher
use shadowsocks_qt.Cipher.{codes}
use shadowsocks_qt.EncryptorPrivate
use shadowsocks_qt.EncryptorPrivate.{null_private, at, evp_loop, evp_bytes_to_key}
use shadowsocks_qt.EncryptorPrivate.Tests.{settings}
use shadowsocks_qt.Encryptor
use shadowsocks_qt.Encryptor.{encrypt_all}
use shadowsocks_qt.TcpRelay
use shadowsocks_qt.Common.Ban.{contains, is_address_banned}
use shadowsocks_qt.TcpServer
use shadowsocks_qt.TcpServer.{Connection, incoming, refused, incoming_connection}
use shadowsocks_qt.UdpRelay
use shadowsocks_qt.UdpRelay.{on_server_udp_socket_ready_read}
use shadowsocks_qt.Controller.Loop.{ProgramEvent, to_server, stopping, starting, program_run}
use shadowsocks_qt.Controller.Bans.{program_run-banned}
use shadowsocks_qt.Profile.{Profile, default_profile}
use shadowsocks_qt.Controller.{
  Controller, Network, Effect, info, resolve, create, create_with, setup, refer, start,
}
use shadowsocks_qt.Controller.Setup.{encrypt_all_first}
use shadowsocks_qt.Controller.Start.{listen_host, listen_port, start-listens}

-- A machine on which the UDP port 1080 is taken.
abbrev network : Network SmallHost
network = record {
  any_host = no_host;
  local_host = v4 127;
  tcp_binds = λ h p. true;
  udp_binds = λ h p. false;
}

abbrev client : Controller SmallHost ℕ
client = create true false 2 [] [] 5 7

start-listens_example :
    let tcp =
      client.valid
      && network.tcp_binds
          (listen_host small_qt network client)
          (listen_port small_qt network client) in
    let udp =
      network.udp_binds
        (listen_host small_qt network client)
        (listen_port small_qt network client) in
    ((start small_qt network client).1 ≡ tcp && udp)
    × ((start small_qt network client).0.tcp_server.is_listening
        ≡ client.tcp_server.is_listening || tcp)
    × ((start small_qt network client).0.udp_listening ≡ client.udp_listening || (tcp && udp))
start-listens_example = start-listens small_qt network client

abbrev chacha_profile : Profile
chacha_profile = record default_profile {
  server = 97 ∷ [];
  method = codes "chacha20-ietf";
  password = 1 ∷ [];
}

abbrev set_up : Controller SmallHost ℕ × List (Effect SmallHost)
set_up = (
  refer (record { name = 97 ∷ []; port = 8388; ip_addr_list = [] }) settings
      (record (create true false 2 [] [] 5 7) { profile = chacha_profile; valid = true }),
  resolve (97 ∷ []) ∷ info ∷ info ∷ [],
)

sets_up :
    create_with small_qt network small_crypto chacha_profile true false 2 [] [] 5 7 ≡ ok set_up
unfolding create_with setup create refer TcpServer.create UdpRelay.create assign of_name set_address
    look_up is_ip_valid EncryptorPrivate.create at evp_loop evp_bytes_to_key flatten Cipher.md5_hash
    Cipher.is_supported
sets_up = refl

own_cipher : Cipher.is_chacha set_up.0.ep.method ≡ true
unfolding refer
own_cipher = refl

encrypt_all_first_example :
    encrypt_all small_crypto set_up.0.udp_relay.encryptor [] (1 ∷ 2 ∷ []) ≡ err length_error
encrypt_all_first_example =
    encrypt_all_first small_qt network small_crypto small_crypto_laws chacha_profile true false 2 []
      [] [] (1 ∷ 2 ∷ []) 5 7 set_up sets_up own_cipher

-- A server that has banned a host, and then serves another one, stops and starts again.
abbrev guarded : Controller SmallHost ℕ
guarded = create false true 2 (v4 3 ∷ []) [] 5 7

abbrev came_from : SmallHost → Connection SmallHost
came_from peer = record {
  local_host = v4 1;
  local_port = 8388;
  peer_host = peer;
  drawn = 10 ∷ [];
  closings = [];
}

abbrev day : List (ProgramEvent SmallHost)
day = to_server (incoming (came_from (v4 4))) ∷ stopping [] ∷ starting ∷ []

abbrev evening : Controller SmallHost ℕ
evening = record guarded {
  tcp_server = record guarded.tcp_server {
    con_list =
        (0, TcpRelay.create false true no_address null_private (10 ∷ []) [] (v4 1) 8388 (v4 4))
        ∷ [];
    next_relay = 1;
    worker_thread_id = 1;
    thread_list = true ∷ true ∷ [];
    is_listening = true;
  };
}

abbrev no_names : List ℕ → List SmallHost
no_names name = []

server : guarded.tcp_server.is_local ≡ false
unfolding create TcpServer.create
server = refl

bans : guarded.tcp_server.auto_ban ≡ true
unfolding create TcpServer.create
bans = refl

udp_server : guarded.udp_relay.is_local ≡ false
unfolding create UdpRelay.create
udp_server = refl

udp_bans : guarded.udp_relay.auto_ban ≡ true
unfolding create UdpRelay.create
udp_bans = refl

barred : is_address_banned small_qt (v4 3) guarded.udp_relay.banned ≡ true
unfolding create UdpRelay.create is_address_banned contains
barred = refl

day_passes : program_run small_qt network small_crypto no_names day guarded ≡ ok evening
unfolding program_run create TcpServer.create UdpRelay.create is_address_banned Encryptor.create
day_passes = refl

program_run-banned_example :
    (incoming_connection small_qt (came_from (v4 3)) evening.udp_relay.banned evening.tcp_server
      ≡ ok (evening.tcp_server, evening.udp_relay.banned, refused ∷ []))
    × (on_server_udp_socket_ready_read small_qt small_crypto no_names []
          (9 ∷ [])
          (v4 3)
          7
          evening.udp_relay
        ≡ ok (evening.udp_relay, UdpRelay.bytes_read 1 ∷ UdpRelay.debug ∷ []))
program_run-banned_example =
    program_run-banned small_qt (v4 3) network small_crypto no_names day guarded evening
      (came_from (v4 3)) [] (9 ∷ []) 7 server bans udp_server udp_bans barred day_passes refl
