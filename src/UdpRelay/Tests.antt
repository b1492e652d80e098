-- ===== src/UdpRelay/Tests.antt =====
-- Runs of a relay of datagrams with small hosts and a small pipe.
use shadowsocks_qt.Prelude.{
  ℕ, ◌≡◌, refl, inl, List, [], ◌∷◌, ◌++◌, ◌≤◌, ◌==◌, length, true, false, ok, arith,
}
use shadowsocks_qt.Tests.{SmallHost, v4, small_qt, small_qt_laws, small_crypto, small_crypto_laws}
use shadowsocks_qt.Cipher
use shadowsocks_qt.Address.{
  Address, no_address, of_host, same_address, get_first_ip, blocking_look_up,
}
use shadowsocks_qt.Address.Tests.{less_text, text_order, first, second}
use shadowsocks_qt.Common.Header.{pack_host, parse_header, parse_ipv4, read_ipv4, read_port}
use shadowsocks_qt.Common.Ban.{contains, is_address_banned}
use shadowsocks_qt.Encryptor.{Encryptor, null, live, create, encrypt_all, decrypt_all, delete_later}
use shadowsocks_qt.Encryptor.Tests.{settings, drawn, masking, sender}
use shadowsocks_qt.UdpRelay.{
  UdpRelay, debug, bytes_read, client_write, cached, client_of, key_of,
  on_server_udp_socket_ready_read, on_client_udp_socket_ready_read, listen_write, remote_recv_size,
}
use shadowsocks_qt.UdpRelay.Answered.{answered_datagram}
use shadowsocks_qt.UdpRelay.Relayed.{relayed_datagram}
use shadowsocks_qt.UdpRelay.Ordered.{find_ordered, in_order, find_ordered-in_order}
use shadowsocks_qt.UdpRelay.Replies.{IsAbsent, IsSound, IsSoundCache, key_of-client_of}

abbrev seven : Address SmallHost
seven = record { name = 7 ∷ []; port = 53; ip_addr_list = [] }

abbrev with_encryptor : Encryptor ℕ → UdpRelay SmallHost ℕ
with_encryptor e = record {
  is_local = false;
  auto_ban = true;
  server_address = no_address;
  encryptor = e;
  cache = (seven, 0) ∷ [];
  next_socket = 1;
  banned = [];
}

abbrev fresh : Encryptor ℕ
fresh = create settings drawn

abbrev opened_by : Encryptor ℕ
opened_by = record sender { en_cipher = null; de_cipher = live masking }

-- A header of port 53 and eleven bytes, behind the IV and masked.
abbrev datagram : List ℕ
datagram =
    10 ∷ 20 ∷ 30 ∷ 4 ∷ 5 ∷ 5 ∷ 5 ∷ 2 ∷ 5 ∷ 48 ∷ 5 ∷ 4 ∷ 7 ∷ 6 ∷ 1 ∷ 0 ∷ 3 ∷ 2 ∷ 13 ∷ 12 ∷ 15 ∷ []

abbrev payload : List ℕ
payload = 0 ∷ 1 ∷ 2 ∷ 3 ∷ 4 ∷ 5 ∷ 6 ∷ 7 ∷ 8 ∷ 9 ∷ 10 ∷ []

opens :
    decrypt_all small_crypto fresh datagram
    ≡ ok (opened_by, pack_host small_qt (v4 7) 53 ++ payload)
unfolding create decrypt_all pack_host Cipher.create Cipher.update Cipher.random_iv
opens = refl

not_banned : is_address_banned small_qt (v4 3) [] ≡ false
unfolding is_address_banned contains
not_banned = refl

abbrev no_names : List ℕ → List SmallHost
no_names name = []

abbrev client : ℕ × UdpRelay SmallHost ℕ
client = client_of (of_host small_qt (v4 3) 4000) (with_encryptor opened_by)

sound : IsSound (with_encryptor opened_by)
unfolding IsSoundCache IsAbsent
sound = (omega arith, (tt, tt))

key_of-client_of_example :
    (same_address (key_of client.1.cache client.0) (of_host small_qt (v4 3) 4000) ≡ true)
    × IsSound client.1
key_of-client_of_example =
    key_of-client_of (with_encryptor opened_by) (of_host small_qt (v4 3) 4000) sound

abbrev server : Address SmallHost
server = record { name = []; port = 8388; ip_addr_list = v4 9 ∷ [] }

abbrev at_client : Encryptor ℕ → UdpRelay SmallHost ℕ
at_client e = record (with_encryptor e) { is_local = true; server_address = server }

abbrev request : List ℕ
request = 0 ∷ 0 ∷ 0 ∷ pack_host small_qt (v4 7) 53 ++ payload

abbrev known : ℕ × UdpRelay SmallHost ℕ
known = client_of (of_host small_qt (v4 5) 5000) (at_client sender)

leaves :
    on_server_udp_socket_ready_read small_qt small_crypto no_names drawn request
      (v4 5)
      5000
      (at_client fresh)
    ≡ ok (known.1, bytes_read 21 ∷ debug ∷ client_write known.0 datagram (v4 9) 8388 ∷ [])
unfolding on_server_udp_socket_ready_read client_of of_host get_first_ip blocking_look_up
    same_address parse_header parse_ipv4 read_ipv4 read_port create encrypt_all pack_host
    Cipher.create Cipher.update Cipher.random_iv
leaves = refl

iv_size : length fresh.en_cipher_iv ≡ fresh.ep.iv_len
unfolding create Cipher.random_iv
iv_size = refl

same : fresh.ep ≡ fresh.ep
same = refl

alive : delete_later fresh.de_cipher ≡ ok null
unfolding create
alive = refl

request_fits : length request ≤ remote_recv_size
unfolding pack_host
request_fits = omega arith

relayed_datagram_example :
    (v' : UdpRelay SmallHost ℕ) × (id' : ℕ) × (on_server_udp_socket_ready_read small_qt small_crypto
        no_names drawn datagram
        (v4 3)
        4000
        (with_encryptor fresh)
      ≡ ok (v', bytes_read 21 ∷ debug ∷ client_write id' (0 ∷ []) (v4 7) 53 ∷ []))
relayed_datagram_example =
    relayed_datagram small_qt small_qt_laws small_crypto small_crypto_laws no_names
      (at_client fresh) (with_encryptor fresh) known.1 drawn drawn payload datagram 0 0 (v4 7)
      (v4 5) (v4 9) (v4 3) 53 5000 8388 4000 21 known.0 null refl refl not_banned iv_size same alive
      request_fits (omega arith) (omega arith) (inl refl) leaves

abbrev serving : UdpRelay SmallHost ℕ
serving = record (with_encryptor fresh) { cache = (of_host small_qt (v4 3) 4000, 0) ∷ [] }

abbrev asking : UdpRelay SmallHost ℕ
asking = record (at_client fresh) { cache = (of_host small_qt (v4 5) 5000, 0) ∷ [] }

answers :
    on_client_udp_socket_ready_read small_qt small_crypto no_names 0 drawn payload (v4 7) 53 serving
    ≡ ok (record serving { encryptor = sender }, listen_write datagram (v4 3) 4000 ∷ [])
unfolding on_client_udp_socket_ready_read key_of of_host get_first_ip create encrypt_all pack_host
    Cipher.create Cipher.update Cipher.random_iv
answers = refl

knows_server : ((key_of serving.cache 0).port == 0) ≡ false
unfolding key_of of_host
knows_server = refl

knows_client : ((key_of asking.cache 0).port == 0) ≡ false
unfolding key_of of_host
knows_client = refl

answered_datagram_example :
    (c' : UdpRelay SmallHost ℕ) × (on_client_udp_socket_ready_read small_qt small_crypto no_names 0
        drawn datagram
        (v4 9)
        8388
        asking
      ≡ ok (
        c',
        listen_write
              (0 ∷ 0 ∷ 0 ∷ pack_host small_qt (v4 7) 53 ++ payload)
              (get_first_ip small_qt (key_of asking.cache 0))
              (key_of asking.cache 0).port
            ∷ [],
      ))
answered_datagram_example =
    answered_datagram small_qt small_qt_laws small_crypto small_crypto_laws no_names serving asking
      (record serving { encryptor = sender }) drawn drawn payload datagram (v4 7) (v4 3) (v4 9) 53
      4000 8388 0 0 null refl refl knows_server knows_client iv_size same alive (omega arith)
      (omega arith) (omega arith) (inl refl) answers

abbrev cache : List (Address SmallHost × ℕ)
cache = (second, 4) ∷ (first, 7) ∷ (seven, 0) ∷ []

find_ordered-in_order_example :
    find_ordered less_text (in_order less_text cache) first 9 ≡ cached cache first 9
find_ordered-in_order_example = find_ordered-in_order less_text text_order cache first 9
