-- ===== src/Tunnel/Destination.antt =====
-- What a SOCKS client asks for, an IP address or a host name with a port, and how both sides of
-- `handleStageAddr` in lib/tcprelay.cpp take it.
use shadowsocks_qt.Prelude.{
  ℕ, ◌^◌, ◌<◌, ◌≡◌, refl, List, [], ◌∷◌, ◌++◌, true, false, length, ok, ◌>>=◌, ◌==◌,
}
use shadowsocks_qt.Qt.{Qt, QtLaws}
use shadowsocks_qt.Crypto.{Crypto}
use shadowsocks_qt.Address.{Address, of_host, of_name}
use shadowsocks_qt.Common.Header.{pack_host, pack_address, parse_header}
use shadowsocks_qt.Common.Header.Hosts.{IsPlainHost, parse_header-pack_host}
use shadowsocks_qt.Encryptor.{Encryptor, encrypt, decrypt}
use shadowsocks_qt.TcpRelay.{
  Stage, init, addr, connecting, dns, TcpRelay, Effect, info, connect_to, resolve, the_remote,
  on_local_ready_read,
}
use shadowsocks_qt.TcpRelay.Upstream.{IsOpenAt, upstream}
use shadowsocks_qt.TcpRelay.Downstream.{downstream}
use shadowsocks_qt.TcpRelay.Requests.{
  on_local_ready_read-asked, on_local_ready_read-pack_host, packed_length, request_effects,
}
use shadowsocks_qt.TcpRelay.Names.{
  IsPlainName, on_local_ready_read-pack_address, parse_header-pack_name, packed_size,
}

pub data Destination (Host : Type 0) : Type 0 where
  at_host : Host → ℕ → Destination Host
  at_name : List ℕ → ℕ → Destination Host

-- How a relay of the server begins on a destination.
abbrev pub begins_at : {Host : Type 0} → Destination Host → Stage
begins_at (at_host h p) = connecting
begins_at (at_name text p) = dns

-- Towards an IP address it connects, a name it looks up.
abbrev pub reaches : {Host : Type 0} → Destination Host → Effect Host
reaches (at_host h p) = connect_to h p
reaches (at_name text p) = resolve the_remote text

module _ {Host : Type 0} (q : Qt Host) where
  abbrev pub target : Destination Host → Address Host
  target (at_host h p) = of_host q h p
  target (at_name text p) = of_name q text p

  abbrev pub header_of : Destination Host → List ℕ
  header_of (at_host h p) = pack_host q h p
  header_of (at_name text p) = pack_address q (of_name q text p)

  -- The port is below 2 ^ 16; the address is an IPv4 address, or is not null and made again of its
  -- sixteen bytes; the name is no IP address, has no spaces around it, is at most 255 bytes long in
  -- the local encoding, and is made again of these bytes.
  abbrev pub IsReachable : Destination Host → Type 0
  IsReachable (at_host h p) = (p < 2 ^ 16) × IsPlainHost q h
  IsReachable (at_name text p) = (p < 2 ^ 16) × IsPlainName q text

  header_size : (d : Destination Host) → (length (header_of d) == 0) ≡ false
  header_size (at_host h p) = packed_length q h p
  header_size (at_name text p) = (packed_size q (of_name q text p) []).0

pub begins-IsOpen :
    {Host : Type 0} (d : Destination Host) (waiting : List ℕ) → IsOpenAt (begins_at d) waiting
begins-IsOpen (at_host h p) waiting = tt
begins-IsOpen (at_name text p) waiting = tt

pub upstream-reaches :
    {Host : Type 0} (d : Destination Host) (later : List (Effect Host))
    → upstream (reaches d ∷ later) ≡ upstream later
unfolding upstream
upstream-reaches (at_host h p) later = refl
upstream-reaches (at_name text p) later = refl

pub downstream-reaches :
    {Host : Type 0} (d : Destination Host) (later : List (Effect Host))
    → downstream (reaches d ∷ later) ≡ downstream later
unfolding downstream
downstream-reaches (at_host h p) later = refl
downstream-reaches (at_name text p) later = refl

module _ {Host Pipe : Type 0} (q : Qt Host) (laws : QtLaws q) (crypto : Crypto Pipe) where
  header_parsed :
      (d : Destination Host) (rest : List ℕ) (dest : Address Host)
      → IsReachable q d
      → parse_header q (header_of q d ++ rest) dest ≡ ok (target q d, length (header_of q d))
  header_parsed (at_host h p) rest dest r = parse_header-pack_host q laws h p rest dest r.0 r.1
  header_parsed (at_name text p) rest dest r =
      parse_header-pack_name q laws crypto text rest p dest r.0 r.1

  -- A CONNECT request on the local side of a relay whose server address is known: the relay
  -- answers, connects to the server, and what the encryptor makes of the header and of the bytes
  -- behind it waits to be sent.
  pub asked :
      (s : TcpRelay Host Pipe) (rest : List ℕ) (d : Destination Host) (ip : Host) (ips : List Host)
      → s.is_local ≡ true
      → s.stage ≡ addr
      → s.server_address.ip_addr_list ≡ ip ∷ ips
      → IsReachable q d
      → on_local_ready_read q crypto (5 ∷ 1 ∷ 0 ∷ header_of q d ++ rest) s ≡ (
          encrypt crypto s.encryptor (header_of q d ++ rest) >>= λ r. ok (
            record s {
              stage = connecting;
              remote_address = target q d;
              encryptor = r.0;
              data_to_write = s.data_to_write ++ r.1;
            },
            request_effects ip s.server_address.port,
          ))
  asked s rest d ip ips client waits knows r =
      on_local_ready_read-asked q laws crypto s (header_of q d) rest (target q d) ip ips client
        waits knows (header_size q d) (header_parsed d rest s.remote_address r)

  -- The first bytes that a server decrypts, when they are a header and payload.
  pub opened :
      (s : TcpRelay Host Pipe) (b : ℕ) (bs payload : List ℕ) (d : Destination Host)
      (e : Encryptor Pipe)
      → s.is_local ≡ false
      → s.stage ≡ init
      → IsReachable q d
      → decrypt crypto s.encryptor (b ∷ bs) ≡ ok (e, header_of q d ++ payload)
      → on_local_ready_read q crypto (b ∷ bs) s
        ≡ ok (
          record s {
            stage = begins_at d;
            remote_address = target q d;
            encryptor = e;
            data_to_write = s.data_to_write ++ payload;
          },
          info ∷ reaches d ∷ [],
        )
  opened s b bs payload (at_host h p) e server fresh r opens =
      on_local_ready_read-pack_host q laws crypto s b bs payload h p e server fresh r.0 r.1 opens
  opened s b bs payload (at_name text p) e server fresh r opens =
      on_local_ready_read-pack_address q laws crypto s b bs text payload p e server fresh r.0 r.1
        opens
