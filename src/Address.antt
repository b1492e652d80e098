-- ===== src/Address.antt =====
-- lib/address.cpp and lib/address.h: a host name or address with a port, and the IP addresses that
-- are known for it. `name` and `port` are the pair `data` of the source.
pub mod Order
pub mod Tests
use shadowsocks_qt.Prelude.{
  ℕ, List, [], ◌∷◌, Bool, true, false, not, ◌&&◌, ◌==◌, ◌=ˢ◌, if◌then◌else◌,
}
use shadowsocks_qt.Qt.{Qt}

-- `Address::ATYP`.
pub data AddressKind : Type 0 where
  ipv4 ipv6 host : AddressKind

abbrev pub kind_code : AddressKind → ℕ
kind_code ipv4 = 1
kind_code ipv6 = 4
kind_code host = 3

pub record Address (Host : Type 0) : Type 0 where
  pub name : List ℕ
  pub port : ℕ
  pub ip_addr_list : List Host

-- `Address()`, where the arguments of the constructor are left out.
abbrev pub no_address : {Host : Type 0} → Address Host
no_address = record { name = []; port = 0; ip_addr_list = [] }

-- The answer of `QHostInfo` to a lookup.
pub data HostInfo (Host : Type 0) : Type 0 where
  failed : HostInfo Host
  found : List Host → HostInfo Host

-- What `lookUp` does: it emits `lookedUp(true)` at once, or starts a lookup of the name.
pub data Lookup : Type 0 where
  known : Lookup
  asks : List ℕ → Lookup

module _ {Host : Type 0} where
  abbrev pub get_port : Address Host → ℕ
  get_port a = a.port

  abbrev pub get_address : Address Host → List ℕ
  get_address a = a.name

  abbrev pub set_port : ℕ → Address Host → Address Host
  set_port p a = record a { port = p }

  unfoldable pub is_ip_valid : Address Host → Bool
  is_ip_valid a = elim a.ip_addr_list [ [] ↦ false | h ∷ hs ↦ true ]

  -- `operator==`, which compares the pair `data` only.
  unfoldable pub same_address : Address Host → Address Host → Bool
  same_address a b = a.name =ˢ b.name && a.port == b.port

  -- `operator=`.
  unfoldable pub assign : Address Host → Address Host → Address Host
  assign a o = record a { name = o.name; port = o.port; ip_addr_list = o.ip_addr_list }

  unfoldable pub look_up : Address Host → Lookup
  unfolding is_ip_valid
  look_up a = if is_ip_valid a then known else asks a.name

  -- `onLookUpFinished`: the address, and the flag of the signal `lookedUp`.
  unfoldable pub on_look_up_finished : Address Host → HostInfo Host → Address Host × Bool
  on_look_up_finished a failed = (a, false)
  on_look_up_finished a (found hosts) = (record a { ip_addr_list = hosts }, true)

  -- `blockingLookUp`, with the addresses that `QHostInfo::fromName` gives for a name.
  unfoldable pub blocking_look_up : (List ℕ → List Host) → Address Host → Address Host
  unfolding is_ip_valid
  blocking_look_up from_name a =
      if is_ip_valid a then a else record a { ip_addr_list = from_name a.name }

module _ {Host : Type 0} (q : Qt Host) where
  open q use {null_host, is_null, is_ipv4, host_of_string, host_to_string, trimmed}

  unfoldable pub get_first_ip : Address Host → Host
  get_first_ip a = elim a.ip_addr_list [ [] ↦ null_host | h ∷ hs ↦ h ]

  unfoldable pub set_address : List ℕ → Address Host → Address Host
  set_address text a =
      let ip = host_of_string text in
      record a { name = trimmed text; ip_addr_list = if not (is_null ip) then ip ∷ [] else [] }

  unfoldable pub set_ip_address : Host → Address Host → Address Host
  set_ip_address ip a = record a { name = host_to_string ip; ip_addr_list = ip ∷ [] }

  -- The two constructors.
  unfoldable pub of_name : List ℕ → ℕ → Address Host
  unfolding set_address
  of_name text p = set_address text (record { name = []; port = p; ip_addr_list = [] })

  unfoldable pub of_host : Host → ℕ → Address Host
  unfolding set_ip_address
  of_host ip p = set_ip_address ip (record { name = []; port = p; ip_addr_list = [] })

  unfoldable pub address_type : Address Host → AddressKind
  address_type a =
      let ip = host_of_string a.name in
      if is_null ip then host else if is_ipv4 ip then ipv4 else ipv6
