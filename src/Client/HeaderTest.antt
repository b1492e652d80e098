-- ===== src/Client/HeaderTest.antt =====
-- `headerTest` of client.cpp.
use shadowsocks_qt.Prelude.{
  ℕ, ◌^◌, ◌<◌, ◌≡◌, refl, sym, ap, ◌∙◌, List, [], ◌∷◌, append-nil, true, false, ◌=ˢ◌, length, inl,
  inr, ok, arith,
}
use shadowsocks_qt.Qt.{Qt, QtLaws}
use shadowsocks_qt.Address.{
  Address, no_address, of_host, get_first_ip, same_address, set_ip_address,
}
use shadowsocks_qt.Common.Header.{pack_host, parse_header}
use shadowsocks_qt.Common.Header.Hosts.{IsPlainHost, parse_header-pack_host}
use shadowsocks_qt.Common.Header.Agree.{pack_address-of_host}
use shadowsocks_qt.Client.{test_addr, test_addr_v6, test_port, header_test}

same_bytes : (xs : List ℕ) → (xs =ˢ xs) ≡ true
same_bytes [] = refl
same_bytes (x ∷ xs) = ground (arith, same_bytes xs)

module _ {Host : Type 0} (q : Qt Host) (laws : QtLaws q) where
  parsed :
      (h : Host) (p : ℕ) (dest : Address Host)
      → p < 2 ^ 16
      → IsPlainHost q h
      → parse_header q (pack_host q h p) dest ≡ ok (of_host q h p, length (pack_host q h p))
  parsed h p dest bound plain =
      ap (λ (o : List ℕ). parse_header q o dest) (sym (append-nil (pack_host q h p)))
      ∙ parse_header-pack_host q laws h p [] dest bound plain

  itself : (h : Host) (p : ℕ) → same_address (of_host q h p) (of_host q h p) ≡ true
  unfolding same_address of_host set_ip_address
  itself h p = ground (arith, same_bytes (q.host_to_string h))

  first_of : (h : Host) (p : ℕ) → (get_first_ip q (of_host q h p) ≡ h) × ((of_host q h p).port ≡ p)
  unfolding get_first_ip of_host set_ip_address
  first_of h p = (refl, refl)

  -- The header test of the program succeeds, if Qt takes its two test addresses for an IPv4 address
  -- that equals itself, and for another address that is not null, is made again of its sixteen bytes,
  -- and is made again of its text.
  pub header_test-succeeds :
      q.is_ipv4 (test_addr q) ≡ true
      → q.same_host (test_addr q) (test_addr q) ≡ true
      → q.is_ipv4 (test_addr_v6 q) ≡ false
      → q.is_null (test_addr_v6 q) ≡ false
      → q.of_ipv6_address (q.to_ipv6_address (test_addr_v6 q)) ≡ test_addr_v6 q
      → q.host_of_string (q.host_to_string (test_addr_v6 q)) ≡ test_addr_v6 q
      → header_test q ≡ ok true
  unfolding header_test
  header_test-succeeds v4 same v6 valid bytes text =
      let h = test_addr q in
      let k = test_addr_v6 q in
      let second = first_of h test_port in
      rw (pack_address-of_host q k test_port valid text) (
        rw (parsed k test_port no_address (omega arith) (inr (v6, valid, bytes))) (
          rw (parsed h test_port (of_host q k test_port) (omega arith) (inl v4))
            (rw (itself k test_port, second.0, second.1, same) refl)))
