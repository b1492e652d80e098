-- ===== src/UdpRelay/Payload.antt =====
-- What a server makes of a datagram, in lib/udprelay.cpp.
use shadowsocks_qt.Prelude.{
  ℕ, ◌+◌, ◌-◌, ◌^◌, ◌≤◌, ◌<◌, ◌≡◌, refl, List, [], ◌∷◌, ◌++◌, false, ◌&&◌, Bool-cases, inl, inr,
  ltb, ltb→lt, not-ltb→le, lt→ltb, le→not-ltb, ◌==◌, if◌then◌else◌, length, length-append,
  drop-append_length, take, ok, arith,
}
use shadowsocks_qt.Qt.{Qt, QtLaws}
use shadowsocks_qt.Crypto.{Crypto}
use shadowsocks_qt.Address.{no_address, of_host, get_first_ip, blocking_look_up}
use shadowsocks_qt.Common.Header.{pack_host}
use shadowsocks_qt.Common.Header.Hosts.{IsPlainHost, parse_header-pack_host}
use shadowsocks_qt.Common.Ban.{is_address_banned}
use shadowsocks_qt.Encryptor.{Encryptor, decrypt_all}
use shadowsocks_qt.UdpRelay.{
  UdpRelay, debug, bytes_read, client_write, remote_recv_size, payload_of, client_of, on_request,
  on_server_udp_socket_ready_read,
}

-- The payload without its last ten bytes, where it has as many.
abbrev pub shortened : List ℕ → List ℕ
shortened payload = if ltb (length payload) 10 then payload else take (length payload - 10) payload

payload_of-append :
    (header payload : List ℕ) → payload_of (length header) (header ++ payload) ≡ shortened payload
unfolding payload_of
payload_of-append header payload = elim (Bool-cases (ltb (length payload) 10)) [
  | inl short ↦
      let less = ltb→lt (length payload) 10 short in
      rw
        (
          short,
          lt→ltb (length (header ++ payload)) (length header + 10)
              (omega (arith, less, length-append header payload)),
          drop-append_length header payload,
        )
        refl
  | inr long ↦
      let more = not-ltb→le (length payload) 10 long in
      let size : length (header ++ payload) - length header - 10 ≡ length payload - 10 =
        omega (arith, length-append header payload) in
      rw
        (
          long,
          le→not-ltb (length (header ++ payload)) (length header + 10)
              (omega (arith, more, length-append header payload)),
          size,
          drop-append_length header payload,
        )
        refl
]

module _ {Host Pipe : Type 0} (q : Qt Host) (laws : QtLaws q) (crypto : Crypto Pipe)
    (from_name : List ℕ → List Host) where
  pub packed_some : (h : Host) (p : ℕ) → (length (pack_host q h p) == 0) ≡ false
  unfolding pack_host
  packed_some h p = elim (Bool-cases (q.is_ipv4 h)) [
    | inl v4 ↦ rw v4 (ground arith)
    | inr v6 ↦ rw v6 (ground arith)
  ]

  -- A server that does not refuse the sender, and opens a datagram of at most 65536 bytes with
  -- the header of an IP address (an IPv4 address, or one that is not null and is made again of
  -- its sixteen bytes), sends the payload to that address and port, from the socket of the client
  -- that it came from, but without the last ten bytes of a payload that has ten bytes or more.
  pub on_server_udp_socket_ready_read-pack_host :
      (s : UdpRelay Host Pipe) (drawn input payload : List ℕ) (r_addr h : Host) (r_port p : ℕ)
      (e : Encryptor Pipe)
      → s.is_local ≡ false
      → (s.auto_ban && is_address_banned q r_addr s.banned) ≡ false
      → length input ≤ remote_recv_size
      → p < 2 ^ 16
      → IsPlainHost q h
      → decrypt_all crypto s.encryptor input ≡ ok (e, pack_host q h p ++ payload)
      → let client = client_of (of_host q r_addr r_port) (record s { encryptor = e }) in
        on_server_udp_socket_ready_read q crypto from_name drawn input r_addr r_port s
        ≡ ok (
          client.1,
          bytes_read (length input) ∷ debug ∷ client_write client.0 (shortened payload) h p ∷ [],
        )
  unfolding on_server_udp_socket_ready_read on_request get_first_ip blocking_look_up of_host
  on_server_udp_socket_ready_read-pack_host s drawn input payload r_addr h r_port p e server allowed
        fits bound plain opened =
      rw (le→not-ltb remote_recv_size (length input) fits, server, allowed, opened)
        (rw (parse_header-pack_host q laws h p payload no_address bound plain)
          (rw (packed_some h p, payload_of-append (pack_host q h p) payload) refl))
