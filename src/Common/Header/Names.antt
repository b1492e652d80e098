-- ===== src/Common/Header/Names.antt =====
-- A header that `packAddress` makes of a host name is parsed back, whatever follows it.
use shadowsocks_qt.Prelude.{
  ℕ, ◌+◌, ◌^◌, ◌<◌, ◌≡◌, refl, ap, List, ◌∷◌, ◌++◌, append_assoc, length, length-append, take,
  take-append_eq, le→leb, lt→ltb, ok, arith,
}
use native.Mathlib.Nat.{mod-eq_of_lt}
use shadowsocks_qt.Qt.{Qt, QtLaws}
use shadowsocks_qt.Address.{Address, host, address_type, of_name, set_address, set_port}
use shadowsocks_qt.Common.Header.{pack_address, parse_name, parse_header, port_bytes}
use shadowsocks_qt.Common.Header.Faults.{parse_header_kind}
use shadowsocks_qt.Common.Header.Hosts.{read_port-append}

module _ {Host : Type 0} (q : Qt Host) (laws : QtLaws q) where
  parse_name-packed :
      (text rest : List ℕ) (p : ℕ) (dest : Address Host)
      → p < 2 ^ 16
      → let header = 3 ∷ length text ∷ text ++ port_bytes q p in
        parse_name q (header ++ rest) dest
        ≡ ok (set_address q (q.of_bytes text) (set_port p dest), length header)
  unfolding parse_name
  parse_name-packed text rest p dest bound =
      let body = text ++ port_bytes q p ++ rest in
      let size : length body ≡ length text + (2 + length rest) =
        omega (
          arith,
          length-append text (port_bytes q p),
          length-append (text ++ port_bytes q p) rest,
        ) in
      let same : take (length text) body ≡ text =
        rw append_assoc (take-append_eq (length text) text (port_bytes q p ++ rest) refl) in
      rw
        (
          lt→ltb 2 (length (3 ∷ length text ∷ body)) (omega arith),
          le→leb (2 + length text) (length (3 ∷ length text ∷ body)) (omega arith),
          read_port-append q laws (3 ∷ length text ∷ text) rest p (2 + length text) bound
              (omega arith),
          same,
        )
        (ap (λ (n : ℕ). ok (set_address q (q.of_bytes text) (set_port p dest), n))
          (omega (arith, length-append text (port_bytes q p))))

  -- The header of a host name of at most 255 bytes and a port below 2 ^ 16, followed by any
  -- bytes, is parsed as the address that `setAddress` makes of the bytes of the name, with the
  -- port, and the header length is that of the header. What the target knew before is replaced.
  pub parse_header-pack_address_name :
      (a : Address Host) (rest : List ℕ) (dest : Address Host)
      → a.port < 2 ^ 16
      → address_type q a ≡ host
      → length (q.to_local8bit a.name) < 256
      → parse_header q (pack_address q a ++ rest) dest
        ≡ ok (of_name q (q.of_bytes (q.to_local8bit a.name)) a.port, length (pack_address q a))
  unfolding pack_address of_name set_address
  parse_header-pack_address_name a rest dest bound kind short = rw kind (
      rw (mod-eq_of_lt short, parse_header_kind q)
        (parse_name-packed (q.to_local8bit a.name) rest a.port dest bound))
