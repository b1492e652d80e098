-- ===== src/Common/Tests.antt =====
-- Runs of the header parser and of the list of banned addresses.
use shadowsocks_qt.Prelude.{
  ℕ, ◌≡◌, refl, inr, List, [], ◌∷◌, ◌++◌, length, ok, err, arith, replicate, true, false, ◌⊎◌,
  bad_read, Returns,
}
use shadowsocks_qt.Tests.{SmallHost, v6, small_qt, small_qt_laws}
use shadowsocks_qt.Address.{Address, host, of_host, of_name, address_type}
use shadowsocks_qt.Common.Header.{pack_host, pack_address, parse_header}
use shadowsocks_qt.Common.Header.Hosts.{parse_header-pack_host}
use shadowsocks_qt.Common.Header.Names.{parse_header-pack_address_name}
use shadowsocks_qt.Common.Header.Faults.{overruns, Parsed, parse_header_total}

abbrev blank : Address SmallHost
blank = record { name = []; port = 0; ip_addr_list = [] }

abbrev payload : List ℕ
payload = 7 ∷ 8 ∷ []

abbrev sixteen : List ℕ
sixteen = replicate 16 1

parse_header-pack_host_example :
    parse_header small_qt (pack_host small_qt (v6 sixteen) 443 ++ payload) blank
    ≡ ok (of_host small_qt (v6 sixteen) 443, length (pack_host small_qt (v6 sixteen) 443))
parse_header-pack_host_example =
    parse_header-pack_host small_qt small_qt_laws (v6 sixteen) 443 payload blank (omega arith)
      (inr (refl, refl, refl))

abbrev example_com : Address SmallHost
example_com = record { name = 101 ∷ 120 ∷ []; port = 8080; ip_addr_list = [] }

example_com_is_name : address_type small_qt example_com ≡ host
unfolding address_type
example_com_is_name = refl

parse_header-pack_address_name_example :
    parse_header small_qt (pack_address small_qt example_com ++ payload) blank
    ≡ ok (of_name small_qt (101 ∷ 120 ∷ []) 8080, length (pack_address small_qt example_com))
parse_header-pack_address_name_example =
    parse_header-pack_address_name small_qt small_qt_laws example_com payload blank (omega arith)
      example_com_is_name (omega arith)

abbrev cut : List ℕ
cut = 3 ∷ 2 ∷ 101 ∷ 120 ∷ []

parse_header_total_example :
    ((overruns cut ≡ true) × (parse_header small_qt cut blank ≡ err bad_read))
    ⊎ ((overruns cut ≡ false) × Returns (Parsed small_qt cut) (parse_header small_qt cut blank))
parse_header_total_example = parse_header_total small_qt cut blank
