-- ===== src/Common/Header.antt =====
-- The shadowsocks address header: `packAddress` and `parseHeader` of lib/common.cpp.
pub mod Faults
pub mod Hosts
pub mod Names
pub mod Agree
use shadowsocks_qt.Prelude.{
  ℕ, ◌+◌, ◌%◌, List, [], ◌∷◌, ◌++◌, Bool, true, false, bit_and, length, ltb, leb, ◌==◌,
  if◌then◌else◌, Result, ok, err, ◌>>=◌, byte_at, raw_byte, mid,
}
use shadowsocks_qt.Qt.{Qt}
use shadowsocks_qt.Address.{
  Address, AddressKind, ipv4, ipv6, host, kind_code, get_port, get_address, set_port, get_first_ip,
  set_address, set_ip_address, address_type,
}

abbrev pub address_mask : ℕ
address_mask = 0b00001111

module _ {Host : Type 0} (q : Qt Host) where
  open q use {
    is_null, is_ipv4, to_ipv4_address, of_ipv4_address, to_ipv6_address, of_ipv6_address,
    to_local8bit, of_bytes, to_big_endian16, from_big_endian16, to_big_endian32, from_big_endian32,
  }

  abbrev pub port_bytes : ℕ → List ℕ
  port_bytes p = let (hi, lo) = to_big_endian16 p in hi ∷ lo ∷ []

  abbrev pub ipv4_bytes : Host → List ℕ
  ipv4_bytes h = let (a, b, c, d) = to_big_endian32 (to_ipv4_address h) in a ∷ b ∷ c ∷ d ∷ []

  -- The part of the header between the type and the port. A length is cast to one byte.
  abbrev pub packed_address : AddressKind → Address Host → List ℕ
  packed_address host a = let text = to_local8bit (get_address a) in (length text % 256) ∷ text
  packed_address ipv4 a = ipv4_bytes (get_first_ip q a)
  packed_address ipv6 a = to_ipv6_address (get_first_ip q a)

  -- `packAddress(const Address &)`.
  unfoldable pub pack_address : Address Host → List ℕ
  pack_address a =
      let kind = address_type q a in
      kind_code kind ∷ packed_address kind a ++ port_bytes (get_port a)

  -- `packAddress(const QHostAddress &, const quint16 &)`.
  unfoldable pub pack_host : Host → ℕ → List ℕ
  pack_host h p =
      if is_ipv4 h
      then kind_code ipv4 ∷ ipv4_bytes h ++ port_bytes p
      else kind_code ipv6 ∷ to_ipv6_address h ++ port_bytes p

  -- `qFromBigEndian` of what the pointer shows.
  unfoldable pub read_port : List ℕ → ℕ → Result ℕ
  read_port bytes i = do
    hi ← raw_byte bytes i
    lo ← raw_byte bytes (i + 1)
    ok (from_big_endian16 hi lo)

  unfoldable pub read_ipv4 : List ℕ → ℕ → Result ℕ
  read_ipv4 bytes i = do
    a ← raw_byte bytes i
    b ← raw_byte bytes (i + 1)
    c ← raw_byte bytes (i + 2)
    d ← raw_byte bytes (i + 3)
    ok (from_big_endian32 a b c d)

  -- The three branches of `parseHeader`, each with the address and the header length it leaves.
  unfoldable pub parse_name : List ℕ → Address Host → Result (Address Host × ℕ)
  parse_name bytes dest =
      if ltb 2 (length bytes)
      then (do
        addrlen ← byte_at bytes 1
        if leb (2 + addrlen) (length bytes)
            then (do
              port ← read_port bytes (2 + addrlen)
              ok (set_address q (of_bytes (mid bytes 2 addrlen)) (set_port port dest), 4 + addrlen))
            else ok (dest, 0))
      else ok (dest, 0)

  unfoldable pub parse_ipv4 : List ℕ → Address Host → Result (Address Host × ℕ)
  parse_ipv4 bytes dest =
      if leb 7 (length bytes)
      then (do
        word ← read_ipv4 bytes 1
        let addr = of_ipv4_address word
        if is_null addr
            then ok (dest, 0)
            else (do port ← read_port bytes 5; ok (set_port port (set_ip_address q addr dest), 7)))
      else ok (dest, 0)

  unfoldable pub parse_ipv6 : List ℕ → Address Host → Result (Address Host × ℕ)
  parse_ipv6 bytes dest =
      if leb 19 (length bytes)
      then (let addr = of_ipv6_address (mid bytes 1 16) in
          if is_null addr
          then ok (dest, 0)
          else (do port ← read_port bytes 17; ok (set_port port (set_ip_address q addr dest), 19)))
      else ok (dest, 0)

  -- `parseHeader`: the address `dest` after the call, and `header_length`, 0 where the header
  -- cannot be parsed.
  unfoldable pub parse_header : List ℕ → Address Host → Result (Address Host × ℕ)
  parse_header bytes dest = do
    atyp ← byte_at bytes 0
    let addrtype = bit_and atyp address_mask
    if addrtype == kind_code host
        then parse_name bytes dest
        else if addrtype == kind_code ipv4
        then parse_ipv4 bytes dest
        else if addrtype == kind_code ipv6
        then parse_ipv6 bytes dest
        else ok (dest, 0)
