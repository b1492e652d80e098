-- ===== src/Common/Header/Agree.antt =====
-- The two forms of `packAddress` of lib/common.cpp.
use shadowsocks_qt.Prelude.{ℕ, ◌≡◌, refl, false, Bool-cases, inl, inr}
use shadowsocks_qt.Qt.{Qt}
use shadowsocks_qt.Address.{of_host, set_ip_address, get_first_ip, address_type}
use shadowsocks_qt.Common.Header.{pack_address, pack_host}

module _ {Host : Type 0} (q : Qt Host) where
  -- For an IP address that is not null and is made again of its text, the form of `packAddress` for
  -- an address and the form for a host and a port give the same bytes, whatever the port.
  pub pack_address-of_host :
      (h : Host) (p : ℕ)
      → q.is_null h ≡ false
      → q.host_of_string (q.host_to_string h) ≡ h
      → pack_address q (of_host q h p) ≡ pack_host q h p
  unfolding pack_address pack_host of_host set_ip_address get_first_ip address_type
  pack_address-of_host h p valid text = elim (Bool-cases (q.is_ipv4 h)) [
    | inl v4 ↦ rw (text, valid, v4) refl
    | inr v6 ↦ rw (text, valid, v6) refl
  ]
