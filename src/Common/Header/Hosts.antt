-- ===== src/Common/Header/Hosts.antt =====
-- A header that `packAddress` makes of an IP address is parsed back, whatever follows it.
use shadowsocks_qt.Prelude.{
  ℕ, suc, ◌+◌, ◌^◌, ◌<◌, ◌≡◌, refl, ◌∙◌, ap, ◌⊎◌, inl, inr, List, [], ◌∷◌, ◌++◌, append_assoc, true,
  false, length, length-append, take, take-append_eq, le→leb, ok, byte_at_behind, arith,
}
use shadowsocks_qt.Qt.{Qt, QtLaws}
use shadowsocks_qt.Address.{Address, of_host, set_ip_address}
use shadowsocks_qt.Common.Header.{
  pack_host, read_port, read_ipv4, parse_ipv4, parse_ipv6, parse_header, port_bytes, ipv4_bytes,
}
use shadowsocks_qt.Common.Header.Faults.{parse_header_kind}

-- An IPv4 address, or an IPv6 address with no scope, which its sixteen bytes determine.
abbrev pub IsPlainHost : {Host : Type 0} → Qt Host → Host → Type 0
IsPlainHost q h =
    (q.is_ipv4 h ≡ true)
    ⊎ ((q.is_ipv4 h ≡ false)
        × (q.is_null h ≡ false)
        × (q.of_ipv6_address (q.to_ipv6_address h) ≡ h))

module _ {Host : Type 0} (q : Qt Host) (laws : QtLaws q) where
  -- A port behind a prefix of any length.
  pub read_port-append :
      (xs rest : List ℕ) (p n : ℕ)
      → p < 2 ^ 16
      → length xs ≡ n
      → read_port q (xs ++ port_bytes q p ++ rest) n ≡ ok p
  unfolding read_port
  read_port-append xs rest p n h e =
      let (hi, lo) = q.to_big_endian16 p in
      let ys = hi ∷ lo ∷ rest ++ 0 ∷ [] in
      let shape : (xs ++ port_bytes q p ++ rest) ++ 0 ∷ [] ≡ xs ++ ys = simp append_assoc in
      rw
        (
          shape,
          byte_at_behind xs ys n 0 (omega arith),
          byte_at_behind xs ys (n + 1) 1 (omega arith),
          laws.big_endian16 p h,
        )
        refl

  ipv4_round_trip :
      (h : Host) (p : ℕ) (rest : List ℕ) (dest : Address Host)
      → p < 2 ^ 16
      → q.is_ipv4 h ≡ true
      → parse_header q (pack_host q h p ++ rest) dest ≡ ok (of_host q h p, 7)
  unfolding pack_host parse_ipv4 read_ipv4 of_host set_ip_address
  ipv4_round_trip h p rest dest bound v4 = rw v4 (
      rw (parse_header_kind q) (
        rw
          (
            le→leb 7 (suc (suc (suc (suc (suc (suc (suc (length rest)))))))) (omega arith),
            laws.big_endian32 (q.to_ipv4_address h) (laws.to_ipv4_address-lt h),
            laws.ipv4_round_trip h v4,
            laws.ipv4_valid h v4,
            read_port-append (1 ∷ ipv4_bytes q h) rest p 5 bound refl,
          )
          refl))

  ipv6_round_trip :
      (h : Host) (p : ℕ) (rest : List ℕ) (dest : Address Host)
      → p < 2 ^ 16
      → q.is_ipv4 h ≡ false
      → q.is_null h ≡ false
      → q.of_ipv6_address (q.to_ipv6_address h) ≡ h
      → parse_header q (pack_host q h p ++ rest) dest ≡ ok (of_host q h p, 19)
  unfolding pack_host parse_ipv6 of_host set_ip_address
  ipv6_round_trip h p rest dest bound v6 valid plain = rw v6 (
      rw (parse_header_kind q) (
        rw
          (
            le→leb 19 (length (4 ∷ packed)) (omega (arith, size)),
            same,
            plain,
            valid,
            read_port-append (4 ∷ sixteen) rest p 17 bound
                (omega (arith, laws.to_ipv6_address-length h)),
          )
          refl))
    where
      sixteen : List ℕ
      sixteen = q.to_ipv6_address h

      packed : List ℕ
      packed = sixteen ++ port_bytes q p ++ rest

      size : length packed ≡ 18 + length rest
      size = omega (
        arith,
        laws.to_ipv6_address-length h,
        length-append (sixteen ++ port_bytes q p) rest,
        length-append sixteen (port_bytes q p),
      )

      same : take 16 packed ≡ sixteen
      same =
          rw append_assoc
            (take-append_eq 16 sixteen (port_bytes q p ++ rest) (laws.to_ipv6_address-length h))

  -- The header of an IP address (an IPv4 address, or one that is not null and is made again of
  -- its sixteen bytes) with a port below 2 ^ 16, followed by any bytes, is parsed as that address
  -- and port, and the header length is that of the header.
  pub parse_header-pack_host :
      (h : Host) (p : ℕ) (rest : List ℕ) (dest : Address Host)
      → p < 2 ^ 16
      → IsPlainHost q h
      → parse_header q (pack_host q h p ++ rest) dest ≡ ok (of_host q h p, length (pack_host q h p))
  unfolding pack_host
  parse_header-pack_host h p rest dest bound (inl v4) =
      ipv4_round_trip h p rest dest bound v4 ∙ rw v4 refl
  parse_header-pack_host h p rest dest bound (inr (v6, valid, plain)) =
      ipv6_round_trip h p rest dest bound v6 valid plain
      ∙ rw v6 (
          ap (λ (n : ℕ). ok (of_host q h p, n))
            (omega (
              arith,
              length-append (q.to_ipv6_address h) (port_bytes q p),
              laws.to_ipv6_address-length h,
            )))
