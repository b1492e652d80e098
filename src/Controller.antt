-- ===== src/Controller.antt =====
-- lib/controller.cpp, lib/controller.h: the controller of a TCP server and a UDP relay. Both hold
-- references to its settings, so an assignment to them is seen by the two at once, and by the relays
-- of the server; `refer` writes that out. Texts of messages are outside.
pub mod Setup
pub mod Start
pub mod Counters
pub mod Loop
pub mod Bans
pub mod Tests
use shadowsocks_qt.Prelude.{
  ℕ, ◌+◌, ◌%◌, ◌^◌, ◌-◌, List, [], ◌∷◌, ◌++◌, map, Bool, true, false, not, ◌&&◌, ◌||◌, ◌==◌, ◌=ˢ◌,
  if◌then◌else◌, Result, ok, err, ◌>>=◌,
}
use shadowsocks_qt.Qt.{Qt}
use shadowsocks_qt.Crypto.{Crypto}
use shadowsocks_qt.Address.{
  Address, no_address, HostInfo, Lookup, known, asks, assign, of_name, of_host, get_first_ip,
  look_up, on_look_up_finished,
}
use shadowsocks_qt.Cipher.{codes}
use shadowsocks_qt.EncryptorPrivate
use shadowsocks_qt.EncryptorPrivate.{EncryptorPrivate, null_private}
use shadowsocks_qt.Encryptor.{Encryptor}
use shadowsocks_qt.TcpRelay.{TcpRelay}
use shadowsocks_qt.TcpServer
use shadowsocks_qt.TcpServer.{TcpServer}
use shadowsocks_qt.UdpRelay
use shadowsocks_qt.UdpRelay.{UdpRelay}
use shadowsocks_qt.Profile.{Profile, default_profile}

-- What the controller takes from the network and from Qt besides: `QHostAddress::Any` and
-- `LocalHost`, and whether a TCP server or a UDP socket can listen at a host and a port.
pub record Network (Host : Type 0) : Type 0 where
  pub any_host : Host
  pub local_host : Host
  pub tcp_binds : Host → ℕ → Bool
  pub udp_binds : Host → ℕ → Bool

pub data Effect (Host : Type 0) : Type 0 where
  info debug : Effect Host
  resolve : List ℕ → Effect Host
  tcp_listen udp_listen : Host → ℕ → Effect Host
  running_state_changed : Bool → Effect Host
  new_bytes_received new_bytes_sent : ℕ → Effect Host
  bytes_received_changed bytes_sent_changed : ℕ → Effect Host

-- The counters are the bit patterns of the type `qint64`.
pub record Controller (Host Pipe : Type 0) : Type 0 where
  pub profile : Profile
  pub server_address : Address Host
  pub valid : Bool
  pub is_local : Bool
  pub auto_ban : Bool
  pub ep : EncryptorPrivate
  pub tcp_server : TcpServer Host Pipe
  pub udp_relay : UdpRelay Host Pipe
  -- Whether the socket of the UDP relay is open.
  pub udp_listening : Bool
  pub bytes_received : ℕ
  pub bytes_sent : ℕ

abbrev pub Outcome : Type 0 → Type 0 → Type 0
Outcome Host Pipe = Result (Controller Host Pipe × List (Effect Host))

-- The pattern of -1.
abbrev pub minus_one : ℕ
minus_one = 2 ^ 64 - 1

-- An encryptor refers to its settings.
abbrev pub with_ep : {Pipe : Type 0} → EncryptorPrivate → Encryptor Pipe → Encryptor Pipe
with_ep ep e = record e { ep = ep }

module _ {Host Pipe : Type 0} where
  -- The constructor, with what `hardware_concurrency` says, the addresses that are banned, the random
  -- bytes for the encryptor of the UDP relay, and what the two counters happen to hold.
  unfoldable pub create : Bool → Bool → ℕ → List Host → List ℕ → ℕ → ℕ → Controller Host Pipe
  create is_local auto_ban concurrency banned drawn received sent = record {
    profile = default_profile;
    server_address = no_address;
    valid = true;
    is_local = is_local;
    auto_ban = auto_ban;
    ep = null_private;
    tcp_server = TcpServer.create null_private is_local auto_ban no_address concurrency;
    udp_relay = UdpRelay.create null_private is_local auto_ban no_address banned drawn;
    udp_listening = false;
    bytes_received = received;
    bytes_sent = sent;
  }

  abbrev relay_with_ep : EncryptorPrivate → ℕ × TcpRelay Host Pipe → ℕ × TcpRelay Host Pipe
  relay_with_ep ep entry = (entry.0, record entry.1 { encryptor = with_ep ep entry.1.encryptor })

  -- What the assignment of `serverAddress` and of `ep` is to those that refer to them.
  unfoldable pub refer :
      Address Host → EncryptorPrivate → Controller Host Pipe → Controller Host Pipe
  refer a ep s = record s {
    server_address = a;
    ep = ep;
    tcp_server = record s.tcp_server {
      server_address = a;
      ep = ep;
      con_list = map (relay_with_ep ep) s.tcp_server.con_list;
    };
    udp_relay = record s.udp_relay {
      server_address = a;
      encryptor = with_ep ep s.udp_relay.encryptor;
    };
  }

  -- `if (udpRelay->isListening()) udpRelay->close();`, and the call of `close` itself.
  unfoldable pub close_udp : List ℕ → Controller Host Pipe → Result (Controller Host Pipe)
  unfolding UdpRelay.close
  close_udp drawn s = UdpRelay.close drawn s.udp_relay >>= λ r.
      ok (record s { udp_relay = r.0; udp_listening = false })

  unfoldable pub close_tcp : Controller Host Pipe → Controller Host Pipe
  unfolding TcpServer.close
  close_tcp s = record s { tcp_server = TcpServer.close s.tcp_server }

  unfoldable pub stop : List ℕ → Controller Host Pipe → Outcome Host Pipe
  unfolding close_udp close_tcp
  stop drawn s =
      close_udp drawn (close_tcp s) >>= λ s'. ok (s', running_state_changed false ∷ debug ∷ [])

  -- `onTcpServerError`; the flag is `AddressInUseError`.
  unfoldable pub on_tcp_server_error : Bool → List ℕ → Controller Host Pipe → Outcome Host Pipe
  unfolding stop
  on_tcp_server_error in_use drawn s =
      if in_use then (stop drawn s >>= λ r. ok (r.0, info ∷ r.1)) else ok (s, info ∷ [])

  unfoldable pub on_bytes_read :
      ℕ → Controller Host Pipe → Controller Host Pipe × List (Effect Host)
  on_bytes_read r s =
      if r == minus_one
      then (s, [])
      else (let total = (s.bytes_received + r) % 2 ^ 64 in
          (
            record s { bytes_received = total },
            new_bytes_received r ∷ bytes_received_changed total ∷ [],
          ))

  unfoldable pub on_bytes_send :
      ℕ → Controller Host Pipe → Controller Host Pipe × List (Effect Host)
  on_bytes_send r s =
      if r == minus_one
      then (s, [])
      else (let total = (s.bytes_sent + r) % 2 ^ 64 in
          (record s { bytes_sent = total }, new_bytes_sent r ∷ bytes_sent_changed total ∷ []))

  -- The answer of the resolver goes to `serverAddress`, which tells the controller.
  unfoldable pub on_server_address_looked_up :
      HostInfo Host → Controller Host Pipe → Controller Host Pipe × List (Effect Host)
  unfolding refer
  on_server_address_looked_up answer s =
      let (a, success) = on_look_up_finished s.server_address answer in
      (refer a s.ep s, if success then [] else info ∷ [])

  -- The destructor, without the two objects themselves.
  unfoldable pub destroy : List ℕ → Controller Host Pipe → Outcome Host Pipe
  unfolding stop
  destroy drawn s = if s.tcp_server.is_listening then stop drawn s else ok (s, [])

module _ {Host : Type 0} (q : Qt Host) (n : Network Host) where
  -- The address of the server, and the lookup that it starts.
  abbrev pub server_of : Profile → Address Host → Address Host × List (Effect Host)
  server_of p old =
      if p.server =ˢ codes "::"
      then (assign old (of_host q n.any_host p.server_port), [])
      else (let a = assign old (of_name q p.server p.server_port) in
          (
            a,
            elim (look_up a) as (λ _. List (Effect Host)) [
              | known ↦ []
              | asks name ↦ resolve name ∷ []
            ],
          ))

  -- `getLocalAddr`, and whether it says that it uses the local host.
  abbrev pub get_local_addr : Profile → Host × List (Effect Host)
  get_local_addr p =
      let addr = q.host_of_string p.local_address in
      if not (q.is_null addr) then (addr, []) else (n.local_host, info ∷ [])

module _ {Host Pipe : Type 0} (q : Qt Host) (n : Network Host) where
  -- `tcpServer->listen(h, port)` and, if it succeeds, `udpRelay->listen(h, port)`; `again` is what the
  -- second evaluation of the host says.
  unfoldable pub listen :
      Host
      → ℕ
      → List (Effect Host)
      → Controller Host Pipe
      → Controller Host Pipe × Bool × List (Effect Host)
  unfolding TcpServer.listen
  listen h port again s =
      let (tcp, tcp_ok) = TcpServer.listen (n.tcp_binds h port) s.tcp_server in
      let s1 = record s { tcp_server = tcp } in
      if tcp_ok
      then (let udp_ok = n.udp_binds h port in
          (
            record s1 { udp_listening = s.udp_listening || udp_ok },
            udp_ok,
            tcp_listen h port ∷ again ++ udp_listen h port ∷ [],
          ))
      else (s1, false, tcp_listen h port ∷ [])

  unfoldable pub start : Controller Host Pipe → Controller Host Pipe × Bool × List (Effect Host)
  unfolding listen
  start s =
      if not s.valid
      then (s, false, info ∷ [])
      else (let local = get_local_addr q n s.profile in
          let h = if s.is_local then local.0 else get_first_ip q s.server_address in
          let says = if s.is_local then local.1 else [] in
          let port = if s.is_local then s.profile.local_port else s.profile.server_port in
          let (s', listens, es) = listen h port says s in
          (
            s',
            listens,
            info ∷ says
                ++ es
                ++ (if listens then info ∷ running_state_changed true ∷ [] else info ∷ []),
          ))

module _ {Host Pipe : Type 0} (q : Qt Host) (n : Network Host) (crypto : Crypto Pipe) where
  -- The result of `setup` is the field `valid`.
  unfoldable pub setup : Profile → List ℕ → Controller Host Pipe → Outcome Host Pipe
  unfolding refer close_udp close_tcp
  setup p drawn s =
      let (a, looks) = server_of q n p s.server_address in
      EncryptorPrivate.create crypto q p.method p.password >>= λ ep.
      let s1 = refer a ep (record s { profile = p; valid = ep.valid }) in
      let s2 = if s1.tcp_server.is_listening then close_tcp s1 else s1 in
      (if s2.udp_listening then close_udp drawn s2 else ok s2) >>= λ s3.
      ok (s3, looks ++ info ∷ info ∷ [])

  -- The constructor that is given a profile.
  unfoldable pub create_with :
      Profile → Bool → Bool → ℕ → List Host → List ℕ → ℕ → ℕ → Outcome Host Pipe
  unfolding setup create
  create_with p is_local auto_ban concurrency banned drawn received sent =
      setup p drawn (create is_local auto_ban concurrency banned drawn received sent)
