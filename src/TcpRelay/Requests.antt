-- ===== src/TcpRelay/Requests.antt =====
-- `handleStageAddr` of lib/tcprelay.cpp: a request on the local side, and one for an IP address on the
-- side of the server.
use shadowsocks_qt.Prelude.{
  ℕ, ◌^◌, ◌<◌, ◌≡◌, refl, List, [], ◌∷◌, ◌++◌, append-nil, true, false, Bool-cases, inl, inr,
  if◌then◌else◌, length, length-append, drop, drop-append_length, ltb, lt→ltb, le→not-ltb, ◌==◌, ok,
  ◌>>=◌, >>=_cong, arith,
}
use shadowsocks_qt.Qt.{Qt, QtLaws}
use shadowsocks_qt.Crypto.{Crypto}
use shadowsocks_qt.Address.{Address, of_host, get_first_ip, look_up, set_ip_address, is_ip_valid}
use shadowsocks_qt.Common.Header.{pack_host, parse_header}
use shadowsocks_qt.Common.Header.Hosts.{IsPlainHost, parse_header-pack_host}
use shadowsocks_qt.Encryptor.{Encryptor, encrypt, decrypt}
use shadowsocks_qt.TcpRelay.{
  init, addr, connecting, dns, TcpRelay, Effect, info, local_write, connect_to, on_local_data,
  on_local_ready_read, on_dns_resolved, start_look_up, handle_header, handle_stage_addr, the_remote,
  the_server, is_empty,
}

-- What a local relay does on a CONNECT request, when its server is known.
abbrev pub request_effects : {Host : Type 0} → Host → ℕ → List (Effect Host)
request_effects ip port =
    info ∷ local_write (5 ∷ 0 ∷ 0 ∷ 1 ∷ 0 ∷ 0 ∷ 0 ∷ 0 ∷ 16 ∷ 16 ∷ []) ∷ connect_to ip port ∷ []

module _ {Host : Type 0} (q : Qt Host) where
  pub packed_length : (h : Host) (p : ℕ) → (length (pack_host q h p) == 0) ≡ false
  unfolding pack_host
  packed_length h p = elim (Bool-cases (q.is_ipv4 h)) [
    | inl v4 ↦ rw v4 (ground arith)
    | inr v6 ↦ rw v6 (ground arith)
  ]

module _ {Host Pipe : Type 0} (q : Qt Host) (laws : QtLaws q) (crypto : Crypto Pipe) where
  pub waiting_payload :
      (header rest waiting : List ℕ)
      → (if ltb (length header) (length (header ++ rest))
          then waiting ++ drop (length header) (header ++ rest)
          else waiting)
        ≡ waiting ++ rest
  waiting_payload header [] waiting =
      rw
        (le→not-ltb (length header) (length (header ++ []))
          (omega (arith, length-append header [])))
        (simp append-nil)
  waiting_payload header (b ∷ bs) waiting = rw (
    lt→ltb (length header) (length (header ++ b ∷ bs))
        (omega (arith, length-append header (b ∷ bs))),
    drop-append_length header (b ∷ bs),
  )

  connect_known :
      (s : TcpRelay Host Pipe) (h : Host) (p : ℕ)
      → s.remote_address ≡ of_host q h p
      → start_look_up q crypto the_remote s ≡ (record s { stage = connecting }, connect_to h p ∷ [])
  unfolding start_look_up look_up is_ip_valid on_dns_resolved of_host set_ip_address get_first_ip
  connect_known s h p is = rw is refl

  packed_not_empty : (h : Host) (p : ℕ) (rest : List ℕ) → is_empty (pack_host q h p ++ rest) ≡ false
  unfolding pack_host
  packed_not_empty h p rest = elim (Bool-cases (q.is_ipv4 h)) [
    | inl v4 ↦ rw v4 refl
    | inr v6 ↦ rw v6 refl
  ]

  server_header :
      (s : TcpRelay Host Pipe) (h : Host) (p : ℕ) (payload : List ℕ)
      → s.is_local ≡ false
      → p < 2 ^ 16
      → IsPlainHost q h
      → handle_header q crypto (pack_host q h p ++ payload) s
        ≡ ok (
          record s {
            stage = connecting;
            remote_address = of_host q h p;
            data_to_write = s.data_to_write ++ payload;
          },
          info ∷ connect_to h p ∷ [],
        )
  unfolding handle_header
  server_header s h p payload server bound plain =
      rw (parse_header-pack_host q laws h p payload s.remote_address bound plain) (
        rw (packed_length q h p, server, waiting_payload (pack_host q h p) payload s.data_to_write)
          (rw
            (connect_known
              (record s {
                stage = dns;
                is_local = false;
                remote_address = of_host q h p;
                data_to_write = s.data_to_write ++ payload;
              })
              h p refl)
            refl))

  -- The first bytes that a server decrypts, when they are the header of an IP address (an IPv4
  -- address, or one that is not null and is made again of its sixteen bytes) and payload, make it
  -- connect there at once, and the payload waits to be sent on.
  pub on_local_ready_read-pack_host :
      (s : TcpRelay Host Pipe) (b : ℕ) (bs payload : List ℕ) (h : Host) (p : ℕ) (e : Encryptor Pipe)
      → s.is_local ≡ false
      → s.stage ≡ init
      → p < 2 ^ 16
      → IsPlainHost q h
      → decrypt crypto s.encryptor (b ∷ bs) ≡ ok (e, pack_host q h p ++ payload)
      → on_local_ready_read q crypto (b ∷ bs) s
        ≡ ok (
          record s {
            stage = connecting;
            remote_address = of_host q h p;
            encryptor = e;
            data_to_write = s.data_to_write ++ payload;
          },
          info ∷ connect_to h p ∷ [],
        )
  unfolding on_local_ready_read on_local_data handle_stage_addr handle_header
  on_local_ready_read-pack_host s b bs payload h p e server fresh bound plain opened =
      rw (server, opened)
        (rw (packed_not_empty h p payload, fresh)
          (server_header (record s { encryptor = e; is_local = false; stage = init }) h p payload
            refl bound plain))

  connect_server :
      (s : TcpRelay Host Pipe) (ip : Host) (ips : List Host)
      → s.server_address.ip_addr_list ≡ ip ∷ ips
      → start_look_up q crypto the_server s
        ≡ (record s { stage = connecting }, connect_to ip s.server_address.port ∷ [])
  unfolding start_look_up look_up is_ip_valid on_dns_resolved get_first_ip
  connect_server s ip ips is = rw is refl

  -- A CONNECT request whose header is read, on the local side of a relay whose server address is
  -- known: the relay answers, connects to the server, and what the encryptor makes of the header
  -- and of the bytes behind it waits to be sent.
  pub on_local_ready_read-asked :
      (s : TcpRelay Host Pipe) (header rest : List ℕ) (dest : Address Host) (ip : Host)
      (ips : List Host)
      → s.is_local ≡ true
      → s.stage ≡ addr
      → s.server_address.ip_addr_list ≡ ip ∷ ips
      → (length header == 0) ≡ false
      → parse_header q (header ++ rest) s.remote_address ≡ ok (dest, length header)
      → on_local_ready_read q crypto (5 ∷ 1 ∷ 0 ∷ header ++ rest) s ≡ (
          encrypt crypto s.encryptor (header ++ rest) >>= λ r. ok (
            record s {
              stage = connecting;
              remote_address = dest;
              encryptor = r.0;
              data_to_write = s.data_to_write ++ r.1;
            },
            request_effects ip s.server_address.port,
          ))
  unfolding on_local_ready_read on_local_data handle_stage_addr handle_header
  on_local_ready_read-asked s header rest dest ip ips client waits knows long reads =
      rw (client, waits)
        (rw reads (
          rw long (
            >>=_cong (encrypt crypto s.encryptor (header ++ rest)) _ _ (λ r.
              rw
                (connect_server
                  (record s {
                    stage = dns;
                    is_local = true;
                    remote_address = dest;
                    encryptor = r.0;
                    data_to_write = s.data_to_write ++ r.1;
                  })
                  ip ips knows)
                refl))))

  -- The CONNECT request of a SOCKS client for an IP address (an IPv4 address, or one that is not
  -- null and is made again of its sixteen bytes), on the local side of a relay whose server
  -- address is known: the relay answers, connects to the server, and what the encryptor makes of
  -- the address and of the bytes behind it waits to be sent.
  pub on_local_ready_read-connect :
      (s : TcpRelay Host Pipe) (rest : List ℕ) (h : Host) (p : ℕ) (ip : Host) (ips : List Host)
      → s.is_local ≡ true
      → s.stage ≡ addr
      → s.server_address.ip_addr_list ≡ ip ∷ ips
      → p < 2 ^ 16
      → IsPlainHost q h
      → on_local_ready_read q crypto (5 ∷ 1 ∷ 0 ∷ pack_host q h p ++ rest) s ≡ (
          encrypt crypto s.encryptor (pack_host q h p ++ rest) >>= λ r. ok (
            record s {
              stage = connecting;
              remote_address = of_host q h p;
              encryptor = r.0;
              data_to_write = s.data_to_write ++ r.1;
            },
            info
                ∷ local_write (5 ∷ 0 ∷ 0 ∷ 1 ∷ 0 ∷ 0 ∷ 0 ∷ 0 ∷ 16 ∷ 16 ∷ [])
                ∷ connect_to ip s.server_address.port
                ∷ [],
          ))
  on_local_ready_read-connect s rest h p ip ips client waits knows bound plain =
      on_local_ready_read-asked s (pack_host q h p) rest (of_host q h p) ip ips client waits knows
        (packed_length q h p) (parse_header-pack_host q laws h p rest s.remote_address bound plain)
