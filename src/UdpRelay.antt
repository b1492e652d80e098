-- ===== src/UdpRelay.antt =====
-- lib/udprelay.cpp, lib/udprelay.h: the relay of datagrams. A slot gives the new state and what it
-- does to the outside, in order. A client socket is a number; the banned addresses of lib/common.cpp
-- are a part of the state. The settings of sockets and the texts of messages are outside.
pub mod Payload
pub mod Replies
pub mod Relayed
pub mod Answered
pub mod Bans
pub mod Ordered
pub mod Tests
use shadowsocks_qt.Prelude.{
  ℕ, suc, ◌+◌, ◌-◌, List, [], ◌∷◌, ◌++◌, map, Bool, true, false, not, ◌&&◌, ltb, ◌==◌,
  if◌then◌else◌, length, get_or, drop, mid, Result, ok, err, ◌>>=◌,
}
use shadowsocks_qt.Qt.{Qt}
use shadowsocks_qt.Crypto.{Crypto}
use shadowsocks_qt.Address.{
  Address, no_address, get_first_ip, same_address, of_host, blocking_look_up,
}
use shadowsocks_qt.Cipher.{auth_len}
use shadowsocks_qt.Common.Header.{pack_host, parse_header}
use shadowsocks_qt.Common.Ban.{ban_address, is_address_banned}
use shadowsocks_qt.EncryptorPrivate.{EncryptorPrivate}
use shadowsocks_qt.Encryptor
use shadowsocks_qt.Encryptor.{Encryptor, encrypt_all, decrypt_all}

pub data Effect (Host : Type 0) : Type 0 where
  info debug : Effect Host
  bytes_read : ℕ → Effect Host
  client_write : ℕ → List ℕ → Host → ℕ → Effect Host
  listen_write : List ℕ → Host → ℕ → Effect Host
  delete_client : ℕ → Effect Host
  listen_close : Effect Host

pub record UdpRelay (Host Pipe : Type 0) : Type 0 where
  pub is_local : Bool
  pub auto_ban : Bool
  pub server_address : Address Host
  pub encryptor : Encryptor Pipe
  pub cache : List (Address Host × ℕ)
  pub next_socket : ℕ
  pub banned : List Host

abbrev pub Outcome : Type 0 → Type 0 → Type 0
Outcome Host Pipe = Result (UdpRelay Host Pipe × List (Effect Host))

abbrev pub remote_recv_size : ℕ
remote_recv_size = 65536

-- What the server sends on of a datagram: `mid` with a length that can be negative, and then is all
-- that is left.
unfoldable pub payload_of : ℕ → List ℕ → List ℕ
payload_of header_length input =
    if ltb (length input) (header_length + auth_len)
    then drop header_length input
    else mid input header_length (length input - header_length - auth_len)

module _ {Host : Type 0} where
  -- `cache.value(a, nullptr)`; the map compares name and port only. `new` is the socket that is made
  -- and inserted where there is none.
  unfoldable pub cached : List (Address Host × ℕ) → Address Host → ℕ → ℕ × Bool
  cached [] a new = (new, false)
  cached ((b, id) ∷ rest) a new = if same_address b a then (id, true) else cached rest a new

  -- `cache.key(sock)`.
  unfoldable pub key_of : List (Address Host × ℕ) → ℕ → Address Host
  key_of [] id = no_address
  key_of ((a, other) ∷ rest) id = if other == id then a else key_of rest id

  -- `cache.remove(a)`.
  unfoldable pub remove : Address Host → List (Address Host × ℕ) → List (Address Host × ℕ)
  remove a [] = []
  remove a ((b, id) ∷ rest) =
      let others = remove a rest in if same_address b a then others else (b, id) ∷ others

module _ {Host Pipe : Type 0} where
  -- The socket for a client, and the relay that knows it.
  unfoldable pub client_of : Address Host → UdpRelay Host Pipe → ℕ × UdpRelay Host Pipe
  unfolding cached
  client_of a s =
      let (id, hit) = cached s.cache a s.next_socket in
      (
        id,
        (if hit
            then s
            else record s { cache = (a, id) ∷ s.cache; next_socket = suc s.next_socket }),
      )

  -- The constructor; the random bytes are for the encryptor. The banned addresses are not its own.
  unfoldable pub create :
      EncryptorPrivate → Bool → Bool → Address Host → List Host → List ℕ → UdpRelay Host Pipe
  create ep is_local auto_ban server_address banned drawn = record {
    is_local = is_local;
    auto_ban = auto_ban;
    server_address = server_address;
    encryptor = Encryptor.create ep drawn;
    cache = [];
    next_socket = 0;
    banned = banned;
  }

  unfoldable pub on_client_disconnected :
      ℕ → UdpRelay Host Pipe → UdpRelay Host Pipe × List (Effect Host)
  unfolding key_of remove
  on_client_disconnected id s =
      (record s { cache = remove (key_of s.cache id) s.cache }, delete_client id ∷ debug ∷ [])

  unfoldable pub close : List ℕ → UdpRelay Host Pipe → Outcome Host Pipe
  unfolding Encryptor.reset
  close drawn s = Encryptor.reset s.encryptor drawn >>= λ e. ok (
    record s { encryptor = e; cache = [] },
    listen_close ∷ map (λ entry. delete_client entry.1) s.cache,
  )

module _ {Host Pipe : Type 0} (q : Qt Host) (crypto : Crypto Pipe)
    (from_name : List ℕ → List Host) where
  -- The end of the slot: the name is looked up where no IP address is known, and the datagram leaves.
  abbrev pub send : ℕ → List ℕ → Address Host → Effect Host
  send id bytes dest =
      let a = blocking_look_up from_name dest in client_write id bytes (get_first_ip q a) a.port

  -- `onServerUdpSocketReadyRead` from the header on.
  unfoldable pub on_request : List ℕ → List ℕ → Host → ℕ → UdpRelay Host Pipe → Outcome Host Pipe
  unfolding client_of payload_of
  on_request drawn input r_addr r_port s = parse_header q input no_address >>= λ parsed.
      if parsed.1 == 0
      then ok (
        record s {
          banned = if not s.is_local && s.auto_ban then ban_address q r_addr s.banned else s.banned;
        },
        info ∷ [],
      )
      else (let (id, s1) = client_of (of_host q r_addr r_port) s in
          if s.is_local
          then (encrypt_all crypto s1.encryptor drawn input >>= λ r.
              ok (record s1 { encryptor = r.0 }, debug ∷ send id r.1 s.server_address ∷ []))
          else ok (s1, debug ∷ send id (payload_of parsed.1 input) parsed.0 ∷ []))

  -- `onServerUdpSocketReadyRead` on a datagram. `data[2]` of an array that is too short reads 0.
  unfoldable pub on_server_udp_socket_ready_read :
      List ℕ → List ℕ → Host → ℕ → UdpRelay Host Pipe → Outcome Host Pipe
  unfolding on_request
  on_server_udp_socket_ready_read drawn input r_addr r_port s =
      if ltb remote_recv_size (length input)
      then ok (s, info ∷ [])
      else ((if s.is_local
            then (if not (get_or input 2 0 == 0)
                then ok (s, info ∷ [])
                else on_request drawn (drop 3 input) r_addr r_port s)
            else if s.auto_ban && is_address_banned q r_addr s.banned
            then ok (s, debug ∷ [])
            else (decrypt_all crypto s.encryptor input >>= λ r.
                on_request drawn r.1 r_addr r_port (record s { encryptor = r.0 })))
          >>= λ r. ok (r.0, bytes_read (length input) ∷ r.1))

  -- The end of `onClientUdpSocketReadyRead`: the answer goes to the client of the socket.
  abbrev pub respond : ℕ → List ℕ → UdpRelay Host Pipe → Outcome Host Pipe
  respond id response s =
      let client = key_of s.cache id in
      ok (
        s,
        (if client.port == 0
            then debug ∷ []
            else listen_write response (get_first_ip q client) client.port ∷ []),
      )

  unfoldable pub on_client_udp_socket_ready_read :
      ℕ → List ℕ → List ℕ → Host → ℕ → UdpRelay Host Pipe → Outcome Host Pipe
  on_client_udp_socket_ready_read id drawn input r_addr r_port s =
      if ltb remote_recv_size (length input)
      then ok (s, info ∷ [])
      else if s.is_local
      then (decrypt_all crypto s.encryptor input >>= λ r.
          parse_header q r.1 no_address >>= λ parsed.
          let s1 = record s { encryptor = r.0 } in
          if parsed.1 == 0 then ok (s1, info ∷ []) else respond id (0 ∷ 0 ∷ 0 ∷ r.1) s1)
      else (encrypt_all crypto s.encryptor drawn (pack_host q r_addr r_port ++ input) >>= λ r.
          respond id r.1 (record s { encryptor = r.0 }))
