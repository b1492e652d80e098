-- ===== src/UdpRelay/Answered.antt =====
-- An answer to a datagram of a SOCKS client on its way back: the relay of the server and the local
-- relay, in lib/udprelay.cpp.
use shadowsocks_qt.Prelude.{
  ℕ, ◌^◌, ◌≤◌, ◌<◌, ◌≡◌, refl, sym, ap, ◌∙◌, List, [], ◌∷◌, ◌++◌, true, false, le→not-ltb, length,
  ok, ◌>>=◌, ◌==◌, >>=-eq-ok, ok_injective,
}
use shadowsocks_qt.Qt.{Qt, QtLaws}
use shadowsocks_qt.Crypto.{Crypto, CryptoLaws}
use shadowsocks_qt.Address.{no_address, get_first_ip}
use shadowsocks_qt.Common.Header.{pack_host}
use shadowsocks_qt.Common.Header.Hosts.{IsPlainHost, parse_header-pack_host}
use shadowsocks_qt.Encryptor.{Encryptor, Handle, delete_later, encrypt_all, decrypt_all}
use shadowsocks_qt.Encryptor.Udp.{decrypt_all-encrypt_all}
use shadowsocks_qt.UdpRelay.{
  UdpRelay, Effect, listen_write, remote_recv_size, key_of, on_client_udp_socket_ready_read,
}
use shadowsocks_qt.UdpRelay.Payload.{packed_some}

-- The bytes that the first effect writes to the listening socket.
abbrev answered : {Host : Type 0} → List (Effect Host) → List ℕ
answered (listen_write bytes h p ∷ es) = bytes
answered _ = []

module _ {Host Pipe : Type 0} (q : Qt Host) (laws : QtLaws q) (crypto : Crypto Pipe)
    (from_name : List ℕ → List Host) where
  server_answer :
      (v : UdpRelay Host Pipe) (id : ℕ) (drawn input : List ℕ) (h : Host) (p : ℕ)
      → v.is_local ≡ false
      → length input ≤ remote_recv_size
      → ((key_of v.cache id).port == 0) ≡ false
      → on_client_udp_socket_ready_read q crypto from_name id drawn input h p v ≡ (
          encrypt_all crypto v.encryptor drawn (pack_host q h p ++ input) >>= λ r. ok (
            record v { encryptor = r.0 },
            listen_write r.1 (get_first_ip q (key_of v.cache id)) (key_of v.cache id).port ∷ [],
          ))
  unfolding on_client_udp_socket_ready_read
  server_answer v id drawn input h p server fits known =
      rw (le→not-ltb remote_recv_size (length input) fits, server, known) refl

  local_answer :
      (c : UdpRelay Host Pipe) (id : ℕ) (drawn out input : List ℕ) (r_addr h : Host) (r_port p : ℕ)
      (e : Encryptor Pipe)
      → c.is_local ≡ true
      → length out ≤ remote_recv_size
      → p < 2 ^ 16
      → IsPlainHost q h
      → ((key_of c.cache id).port == 0) ≡ false
      → decrypt_all crypto c.encryptor out ≡ ok (e, pack_host q h p ++ input)
      → on_client_udp_socket_ready_read q crypto from_name id drawn out r_addr r_port c
        ≡ ok (
          record c { encryptor = e },
          listen_write
                (0 ∷ 0 ∷ 0 ∷ pack_host q h p ++ input)
                (get_first_ip q (key_of c.cache id))
                (key_of c.cache id).port
              ∷ [],
        )
  unfolding on_client_udp_socket_ready_read
  local_answer c id drawn out input r_addr h r_port p e client fits bound plain known opened =
      rw (le→not-ltb remote_recv_size (length out) fits, client, opened)
        (rw (parse_header-pack_host q laws h p input no_address bound plain)
          (rw (packed_some q laws crypto from_name h p, known) refl))

module _ {Host Pipe : Type 0} (q : Qt Host) (laws : QtLaws q) (crypto : Crypto Pipe)
    (crypto_laws : CryptoLaws crypto) (from_name : List ℕ → List Host) where
  -- A datagram of at most 65536 bytes comes to a socket of the server that is known for a client,
  -- from an IP address (an IPv4 address, or one that is not null and is made again of its sixteen
  -- bytes), and the IV of the server has its length. If the server writes a datagram for it, and
  -- that has at most 65536 bytes, a local relay with the same settings, whose old cipher is not a
  -- deleted object, and which knows a client for the socket that it comes to, gives that client
  -- exactly the three zero bytes of SOCKS, the header of the IP address and port that the datagram
  -- came from, and all its bytes.
  pub answered_datagram :
      (v c v' : UdpRelay Host Pipe) (drawn drawn' input out : List ℕ) (h home relay : Host)
      (p home_port relay_port id id' : ℕ) (left : Handle Pipe)
      → v.is_local ≡ false
      → c.is_local ≡ true
      → ((key_of v.cache id).port == 0) ≡ false
      → ((key_of c.cache id').port == 0) ≡ false
      → length v.encryptor.en_cipher_iv ≡ v.encryptor.ep.iv_len
      → v.encryptor.ep ≡ c.encryptor.ep
      → delete_later c.encryptor.de_cipher ≡ ok left
      → length input ≤ remote_recv_size
      → length out ≤ remote_recv_size
      → p < 2 ^ 16
      → IsPlainHost q h
      → on_client_udp_socket_ready_read q crypto from_name id drawn input h p v
        ≡ ok (v', listen_write out home home_port ∷ [])
      → (c' : UdpRelay Host Pipe) × (on_client_udp_socket_ready_read q crypto from_name id' drawn'
            out relay relay_port c
          ≡ ok (
            c',
            listen_write
                  (0 ∷ 0 ∷ 0 ∷ pack_host q h p ++ input)
                  (get_first_ip q (key_of c.cache id'))
                  (key_of c.cache id').port
                ∷ [],
          ))
  answered_datagram v c v' drawn drawn' input out h home relay p home_port relay_port id id' left
        server client known known' size same alive fits fits' bound plain ran =
      let (r, sent, is) =
        >>=-eq-ok (encrypt_all crypto v.encryptor drawn (pack_host q h p ++ input)) _ (
          sym (server_answer q laws crypto from_name v id drawn input h p server fits known)
          ∙ ran) in
      let is_out : r.1 ≡ out =
        ap (λ (t : UdpRelay Host Pipe × List (Effect Host)). answered t.1) (ok_injective is) in
      let (e, opened) =
        decrypt_all-encrypt_all crypto crypto_laws v.encryptor r.0 c.encryptor drawn
          (pack_host q h p ++ input) out left size same alive
          (sent ∙ ap (λ o. ok (r.0, o)) is_out) in
      (
        record c { encryptor = e },
        local_answer q laws crypto from_name c id' drawn' out input relay h relay_port p e client
            fits' bound plain known' opened,
      )
