-- ===== src/Client/Tests.antt =====
-- Runs of the program with small hosts: the two test addresses are an IPv4 and an IPv6 address.
use shadowsocks_qt.Prelude.{
  ℕ, ◌≡◌, refl, List, ◌∷◌, true, if◌then◌else◌, ltb, length, replicate, ok,
}
use shadowsocks_qt.Tests.{SmallHost, v4, v6, small_qt, small_qt_laws}
use shadowsocks_qt.Qt.{Qt, QtLaws}
use shadowsocks_qt.Client.{header_test}
use shadowsocks_qt.Client.HeaderTest.{header_test-succeeds}

abbrev sixteen : List ℕ
sixteen = 32 ∷ 1 ∷ replicate 14 9

-- The small hosts, with texts that are long enough for an address of sixteen bytes read as one, and
-- shorter ones as an IPv4 address.
abbrev parsed : List ℕ → SmallHost
parsed text = if ltb (length text) 8 then v4 7 else v6 sixteen

abbrev text_qt : Qt SmallHost
text_qt = record small_qt { host_of_string = parsed }

text_qt_laws : QtLaws text_qt
text_qt_laws = record {
  big_endian16 = small_qt_laws.big_endian16;
  big_endian32 = small_qt_laws.big_endian32;
  to_ipv4_address-lt = small_qt_laws.to_ipv4_address-lt;
  to_ipv6_address-length = small_qt_laws.to_ipv6_address-length;
  ipv4_round_trip = small_qt_laws.ipv4_round_trip;
  ipv4_valid = small_qt_laws.ipv4_valid;
}

header_test-succeeds_example : header_test text_qt ≡ ok true
header_test-succeeds_example =
    header_test-succeeds text_qt text_qt_laws refl refl refl refl refl refl
