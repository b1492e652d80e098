-- ===== src/UdpRelay/Relayed.antt =====
-- Both sides of a datagram of a SOCKS client: the local relay and the relay of the server, in
-- lib/udprelay.cpp.
use shadowsocks_qt.Prelude.{
  ℕ, ◌^◌, ◌≤◌, ◌<◌, ◌≡◌, refl, sym, ap, ◌∙◌, List, [], ◌∷◌, ◌++◌, true, false, ◌&&◌, Bool-cases,
  inl, inr, le→not-ltb, length, Result, ok, ◌==◌, ◌>>=◌, >>=-eq-ok, >>=_assoc, ok_injective,
  if_true, if_false,
}
use shadowsocks_qt.Qt.{Qt, QtLaws}
use shadowsocks_qt.Crypto.{Crypto, CryptoLaws}
use shadowsocks_qt.Address.{Address, no_address, of_host}
use shadowsocks_qt.Common.Header.{parse_header, pack_host}
use shadowsocks_qt.Common.Header.Hosts.{IsPlainHost, parse_header-pack_host}
use shadowsocks_qt.Common.Ban.{is_address_banned}
use shadowsocks_qt.Encryptor.{Handle, delete_later, encrypt_all}
use shadowsocks_qt.Encryptor.Udp.{decrypt_all-encrypt_all}
use shadowsocks_qt.UdpRelay.{
  UdpRelay, Effect, debug, bytes_read, client_write, remote_recv_size, client_of, cached,
  on_request, send, on_server_udp_socket_ready_read,
}
use shadowsocks_qt.UdpRelay.Payload.{
  shortened, packed_some, on_server_udp_socket_ready_read-pack_host,
}

-- The bytes that the last of three effects writes to a client socket.
abbrev written : {Host : Type 0} → List (Effect Host) → List ℕ
written (a ∷ b ∷ client_write id bytes h p ∷ es) = bytes
written _ = []

module _ {Host Pipe : Type 0} where
  same_encryptor :
      (a : Address Host) (s : UdpRelay Host Pipe) → (client_of a s).1.encryptor ≡ s.encryptor
  unfolding client_of
  same_encryptor a s = elim (Bool-cases (cached s.cache a s.next_socket).1) [
    | inl hit ↦ rw hit refl
    | inr miss ↦ rw miss refl
  ]

module _ {Host Pipe : Type 0} (q : Qt Host) (laws : QtLaws q) (crypto : Crypto Pipe)
    (from_name : List ℕ → List Host) where
  local_request :
      (c : UdpRelay Host Pipe) (drawn input : List ℕ) (r_addr : Host) (r_port : ℕ)
      (parsed : Address Host × ℕ)
      → c.is_local ≡ true
      → parse_header q input no_address ≡ ok parsed
      → (parsed.1 == 0) ≡ false
      → let client = client_of (of_host q r_addr r_port) c in
        on_request q crypto from_name drawn input r_addr r_port c ≡ (
          encrypt_all crypto client.1.encryptor drawn input >>= λ r. ok (
            record client.1 { encryptor = r.0 },
            debug ∷ send q crypto from_name client.0 r.1 c.server_address ∷ [],
          ))
  unfolding on_request
  local_request c drawn input r_addr r_port parsed client header some =
      rw (header, some) (if_true client _ _)

  -- What the local side makes of a SOCKS datagram.
  local_side :
      (c : UdpRelay Host Pipe) (drawn payload : List ℕ) (x y : ℕ) (h sender : Host)
      (p sender_port : ℕ)
      → c.is_local ≡ true
      → length (x ∷ y ∷ 0 ∷ pack_host q h p ++ payload) ≤ remote_recv_size
      → p < 2 ^ 16
      → IsPlainHost q h
      → let client = client_of (of_host q sender sender_port) c in
        on_server_udp_socket_ready_read q crypto from_name drawn
          (x ∷ y ∷ 0 ∷ pack_host q h p ++ payload)
          sender
          sender_port
          c
        ≡ (encrypt_all crypto client.1.encryptor drawn (pack_host q h p ++ payload) >>= λ r. ok (
          record client.1 { encryptor = r.0 },
          bytes_read (length (x ∷ y ∷ 0 ∷ pack_host q h p ++ payload))
              ∷ debug
              ∷ send q crypto from_name client.0 r.1 c.server_address
              ∷ [],
        ))
  unfolding on_server_udp_socket_ready_read
  local_side c drawn payload x y h sender p sender_port client fits bound plain =
      let there = client_of (of_host q sender sender_port) c in
      let read = λ (r : UdpRelay Host Pipe × List (Effect Host)).
        ok (r.0, bytes_read (length (x ∷ y ∷ 0 ∷ pack_host q h p ++ payload)) ∷ r.1) in
      if_false (le→not-ltb remote_recv_size _ fits) _ _
      ∙ ap (λ (m : Result (UdpRelay Host Pipe × List (Effect Host))). m >>= read)
          (if_true client _ _
            ∙ local_request c drawn (pack_host q h p ++ payload) sender sender_port _ client
                (parse_header-pack_host q laws h p payload no_address bound plain)
                (packed_some q laws crypto from_name h p))
      ∙ >>=_assoc (encrypt_all crypto there.1.encryptor drawn (pack_host q h p ++ payload))
          (λ r. ok (
            record there.1 { encryptor = r.0 },
            debug ∷ send q crypto from_name there.0 r.1 c.server_address ∷ [],
          ))
          read

module _ {Host Pipe : Type 0} (q : Qt Host) (laws : QtLaws q) (crypto : Crypto Pipe)
    (crypto_laws : CryptoLaws crypto) (from_name : List ℕ → List Host) where
  -- When a local relay takes a SOCKS datagram of at most 65536 bytes for an IP address (an IPv4
  -- address, or one that is not null and is made again of its sixteen bytes), its IV has its
  -- length, and it returns with one datagram of at most 65536 bytes written: a server with the same
  -- settings, whose old cipher is not a deleted object and that does not refuse the sender, sends
  -- the payload on to exactly that address and port, but without the last ten bytes of a payload
  -- that has ten bytes or more.
  pub relayed_datagram :
      (c v c' : UdpRelay Host Pipe) (drawn drawn' payload out : List ℕ) (x y : ℕ)
      (h sender server relay : Host) (p sender_port server_port relay_port n id : ℕ)
      (left : Handle Pipe)
      → c.is_local ≡ true
      → v.is_local ≡ false
      → (v.auto_ban && is_address_banned q relay v.banned) ≡ false
      → length c.encryptor.en_cipher_iv ≡ c.encryptor.ep.iv_len
      → c.encryptor.ep ≡ v.encryptor.ep
      → delete_later v.encryptor.de_cipher ≡ ok left
      → length (x ∷ y ∷ 0 ∷ pack_host q h p ++ payload) ≤ remote_recv_size
      → length out ≤ remote_recv_size
      → p < 2 ^ 16
      → IsPlainHost q h
      → on_server_udp_socket_ready_read q crypto from_name drawn
          (x ∷ y ∷ 0 ∷ pack_host q h p ++ payload)
          sender
          sender_port
          c
        ≡ ok (c', bytes_read n ∷ debug ∷ client_write id out server server_port ∷ [])
      → (v' : UdpRelay Host Pipe) × (id' : ℕ) × (on_server_udp_socket_ready_read q crypto from_name
            drawn' out relay relay_port v
          ≡ ok
              (v', bytes_read (length out) ∷ debug ∷ client_write id' (shortened payload) h p ∷ []))
  unfolding send
  relayed_datagram c v c' drawn drawn' payload out x y h sender server relay p sender_port
        server_port relay_port n id left client serves allowed size same alive fits fits' bound
        plain ran =
      let a = of_host q sender sender_port in
      let (r, sent0, is) =
        >>=-eq-ok
          (encrypt_all crypto (client_of a c).1.encryptor drawn (pack_host q h p ++ payload)) _
          (sym (
              local_side q laws crypto from_name c drawn payload x y h sender p sender_port client
                fits bound plain)
            ∙ ran) in
      let is_out : r.1 ≡ out =
        ap (λ (t : UdpRelay Host Pipe × List (Effect Host)). written t.1) (ok_injective is) in
      let sent : encrypt_all crypto c.encryptor drawn (pack_host q h p ++ payload) ≡ ok (r.0, out) =
        ap (λ e. encrypt_all crypto e drawn (pack_host q h p ++ payload)) (sym (same_encryptor a c))
        ∙ sent0
        ∙ ap (λ o. ok (r.0, o)) is_out in
      let (e, opened) =
        decrypt_all-encrypt_all crypto crypto_laws c.encryptor r.0 v.encryptor drawn
          (pack_host q h p ++ payload) out left size same alive sent in
      let there = client_of (of_host q relay relay_port) (record v { encryptor = e }) in
      (
        there.1,
        there.0,
        on_server_udp_socket_ready_read-pack_host q laws crypto from_name v drawn' out payload relay
            h relay_port p e serves allowed fits' bound plain opened,
      )
