-- ===== src/TcpRelay/Names.antt =====
-- `handleStageAddr` of lib/tcprelay.cpp on the side of the server, on a request for a host name.
use shadowsocks_qt.Prelude.{
  ℕ, ◌^◌, ◌<◌, ◌≡◌, refl, ap, ◌∙◌, List, [], ◌∷◌, ◌++◌, true, false, length, ◌==◌, ok, arith,
}
use shadowsocks_qt.Qt.{Qt, QtLaws}
use shadowsocks_qt.Crypto.{Crypto}
use shadowsocks_qt.Address.{Address, host, of_name, set_address, look_up, is_ip_valid, address_type}
use shadowsocks_qt.Common.Header.{pack_address, parse_header}
use shadowsocks_qt.Common.Header.Names.{parse_header-pack_address_name}
use shadowsocks_qt.Encryptor.{Encryptor, decrypt}
use shadowsocks_qt.TcpRelay.{
  init, dns, TcpRelay, info, resolve, on_local_data, on_local_ready_read, start_look_up,
  handle_header, handle_stage_addr, the_remote, is_empty,
}
use shadowsocks_qt.TcpRelay.Requests.{waiting_payload}

-- The address of a name that is not looked up.
abbrev named : {Host : Type 0} → List ℕ → ℕ → Address Host
named text p = record { name = text; port = p; ip_addr_list = [] }

module _ {Host : Type 0} (q : Qt Host) where
  -- A name that is no IP address, has no spaces around it, is at most 255 bytes long in the local
  -- encoding, and is made again of these bytes.
  abbrev pub IsPlainName : List ℕ → Type 0
  IsPlainName text =
      (q.is_null (q.host_of_string text) ≡ true)
      × (q.trimmed text ≡ text)
      × (q.of_bytes (q.to_local8bit text) ≡ text)
      × (length (q.to_local8bit text) < 256)

  of_name-plain : (text : List ℕ) (p : ℕ) → IsPlainName text → of_name q text p ≡ named text p
  unfolding of_name set_address
  of_name-plain text p plain = rw (plain.0, plain.1) refl

  kind_of : (text : List ℕ) (p : ℕ) → IsPlainName text → address_type q (named text p) ≡ host
  unfolding address_type
  kind_of text p plain = rw (plain.0) refl

  pub packed_size :
      (a : Address Host) (rest : List ℕ)
      → ((length (pack_address q a) == 0) ≡ false) × (is_empty (pack_address q a ++ rest) ≡ false)
  unfolding pack_address
  packed_size a rest = (ground arith, refl)

module _ {Host Pipe : Type 0} (q : Qt Host) (laws : QtLaws q) (crypto : Crypto Pipe) where
  parsed_name :
      (text payload : List ℕ) (p : ℕ) (dest : Address Host)
      → p < 2 ^ 16
      → IsPlainName q text
      → parse_header q (pack_address q (named text p) ++ payload) dest
        ≡ ok (named text p, length (pack_address q (named text p)))
  parsed_name text payload p dest bound plain =
      parse_header-pack_address_name q laws (named text p) payload dest bound
        (kind_of q text p plain) plain.3
      ∙ ap (λ a. ok (a, length (pack_address q (named text p))))
          (ap (λ (t : List ℕ). of_name q t p) plain.2 ∙ of_name-plain q text p plain)

  pub parse_header-pack_name :
      (text rest : List ℕ) (p : ℕ) (dest : Address Host)
      → p < 2 ^ 16
      → IsPlainName q text
      → parse_header q (pack_address q (of_name q text p) ++ rest) dest
        ≡ ok (of_name q text p, length (pack_address q (of_name q text p)))
  parse_header-pack_name text rest p dest bound plain =
      rw (of_name-plain q text p plain) (parsed_name text rest p dest bound plain)

  looks_up :
      (s : TcpRelay Host Pipe) (text : List ℕ) (p : ℕ)
      → s.remote_address ≡ named text p
      → start_look_up q crypto the_remote s ≡ (s, resolve the_remote text ∷ [])
  unfolding start_look_up look_up is_ip_valid
  looks_up s text p is = rw is refl

  server_name :
      (s : TcpRelay Host Pipe) (text payload : List ℕ) (p : ℕ)
      → s.is_local ≡ false
      → p < 2 ^ 16
      → IsPlainName q text
      → handle_header q crypto (pack_address q (named text p) ++ payload) s
        ≡ ok (
          record s {
            stage = dns;
            remote_address = named text p;
            data_to_write = s.data_to_write ++ payload;
          },
          info ∷ resolve the_remote text ∷ [],
        )
  unfolding handle_header
  server_name s text payload p server bound plain =
      rw (parsed_name text payload p s.remote_address bound plain) (
        rw
          (
            (packed_size q (named text p) payload).0,
            server,
            waiting_payload q laws crypto (pack_address q (named text p)) payload s.data_to_write,
          )
          (rw
            (looks_up
              (record s {
                stage = dns;
                is_local = false;
                remote_address = named text p;
                data_to_write = s.data_to_write ++ payload;
              })
              text p refl)
            refl))

  -- The first bytes that a server decrypts, when they are the header of a host name (no IP address,
  -- without spaces around it, at most 255 bytes, made again of its bytes) with a port below 2 ^ 16,
  -- and payload, make it look the name up, and the payload waits to be sent on.
  pub on_local_ready_read-pack_address :
      (s : TcpRelay Host Pipe) (b : ℕ) (bs text payload : List ℕ) (p : ℕ) (e : Encryptor Pipe)
      → s.is_local ≡ false
      → s.stage ≡ init
      → p < 2 ^ 16
      → IsPlainName q text
      → decrypt crypto s.encryptor (b ∷ bs) ≡ ok (e, pack_address q (of_name q text p) ++ payload)
      → on_local_ready_read q crypto (b ∷ bs) s
        ≡ ok (
          record s {
            stage = dns;
            remote_address = of_name q text p;
            encryptor = e;
            data_to_write = s.data_to_write ++ payload;
          },
          info ∷ resolve the_remote text ∷ [],
        )
  unfolding on_local_ready_read on_local_data handle_stage_addr
  on_local_ready_read-pack_address s b bs text payload p e server fresh bound plain opened0 =
      let opened : decrypt crypto s.encryptor (b ∷ bs)
          ≡ ok (e, pack_address q (named text p) ++ payload) =
        opened0 ∙ ap (λ a. ok (e, pack_address q a ++ payload)) (of_name-plain q text p plain) in
      rw (of_name-plain q text p plain) (
        rw (server, opened)
          (rw ((packed_size q (named text p) payload).1, fresh)
            (server_name (record s { encryptor = e; is_local = false; stage = init }) text payload p
              refl bound plain)))
