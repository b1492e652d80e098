-- ===== src/TcpRelay.antt =====
-- lib/tcprelay.cpp, lib/tcprelay.h: one proxied TCP connection, as a state and its slots. A slot
-- gives the new state and what it does to the outside, in order. The sockets, the timer and the
-- texts of the log messages are outside; a `disconnected` signal is an event of its own.
pub mod Upstream
pub mod Transport
pub mod Downstream
pub mod Connections
pub mod Lookups
pub mod Total
pub mod Requests
pub mod Relayed
pub mod Names
pub mod Balances
pub mod Finished
pub mod Revived
pub mod Tests
use shadowsocks_qt.Prelude.{
  ℕ, ◌+◌, List, [], ◌∷◌, ◌++◌, Bool, true, false, not, ◌&&◌, ◌||◌, ltb, ◌==◌, if◌then◌else◌, length,
  drop, Result, ok, err, ◌>>=◌, byte_at,
}
use shadowsocks_qt.Qt.{Qt}
use shadowsocks_qt.Crypto.{Crypto}
use shadowsocks_qt.Address.{
  Address, no_address, HostInfo, Lookup, known, asks, get_first_ip, look_up, on_look_up_finished,
}
use shadowsocks_qt.Common.Header.{pack_host, parse_header}
use shadowsocks_qt.EncryptorPrivate.{EncryptorPrivate}
use shadowsocks_qt.Encryptor
use shadowsocks_qt.Encryptor.{Encryptor, encrypt, decrypt}

-- `TcpRelay::STAGE`.
pub data Stage : Type 0 where
  init addr udp_assoc dns connecting stream destroyed : Stage

abbrev pub is_destroyed : Stage → Bool
is_destroyed destroyed = true
is_destroyed _ = false

abbrev pub is_empty : List ℕ → Bool
is_empty [] = true
is_empty (b ∷ bs) = false

-- Which of its two addresses a relay looks up.
pub data Which : Type 0 where
  the_server the_remote : Which

pub data Effect (Host : Type 0) : Type 0 where
  info debug : Effect Host
  local_write remote_write : List ℕ → Effect Host
  local_close remote_close : Effect Host
  finished : Effect Host
  ban : Host → Effect Host
  resolve : Which → List ℕ → Effect Host
  connect_to : Host → ℕ → Effect Host
  bytes_read : ℕ → Effect Host
  latency_available : Effect Host
  timer_start : Effect Host

pub record TcpRelay (Host Pipe : Type 0) : Type 0 where
  pub stage : Stage
  pub remote_address : Address Host
  pub server_address : Address Host
  pub data_to_write : List ℕ
  pub is_local : Bool
  pub auto_ban : Bool
  pub encryptor : Encryptor Pipe
  -- What the accepted socket says of its two ends.
  pub local_host : Host
  pub local_port : ℕ
  pub peer_host : Host
  -- For each time that the relay closes its sockets: whether closing the local one, and the remote
  -- one, emits `disconnected` within the call. Qt decides it by the state of a socket and what it
  -- has left to write.
  pub closings : List (Bool × Bool)

abbrev pub Outcome : Type 0 → Type 0 → Type 0
Outcome Host Pipe = Result (TcpRelay Host Pipe × List (Effect Host))

-- `if (!dataToWrite.isEmpty()) writeToRemote(dataToWrite);`.
unfoldable pub flushed : {Host : Type 0} → List ℕ → List (Effect Host)
flushed [] = []
flushed (b ∷ bs) = remote_write (b ∷ bs) ∷ []

-- No answer is left: neither socket emits the signal.
abbrev pub this_closing : List (Bool × Bool) → Bool × Bool
this_closing [] = (false, false)
this_closing (c ∷ closings) = c

abbrev pub later_closings : List (Bool × Bool) → List (Bool × Bool)
later_closings [] = []
later_closings (c ∷ closings) = closings

module _ {Host : Type 0} where
  -- The body of `close` when neither socket emits the signal; by what the remote socket does; and by
  -- what both do, where the call within the closing of the local socket closes the remote one.
  abbrev closing_silent : List (Effect Host)
  closing_silent = local_close ∷ remote_close ∷ finished ∷ []

  abbrev closing_remote : Bool → List (Effect Host)
  closing_remote false = closing_silent
  closing_remote true = local_close ∷ remote_close ∷ closing_silent ++ finished ∷ []

  abbrev pub closing : Bool × Bool → List (Effect Host)
  closing (false, remote) = closing_remote remote
  closing (true, remote) = local_close ∷ closing_remote remote ++ remote_close ∷ finished ∷ []

module _ {Host Pipe : Type 0} where
  -- The constructor, of a socket with these ends; the random bytes are for the encryptor.
  unfoldable pub create :
      Bool
      → Bool
      → Address Host
      → EncryptorPrivate
      → List ℕ
      → List (Bool × Bool)
      → Host
      → ℕ
      → Host
      → TcpRelay Host Pipe
  create is_local auto_ban server_addr ep drawn closings local_host local_port peer_host = record {
    stage = init;
    remote_address = no_address;
    server_address = server_addr;
    data_to_write = [];
    is_local = is_local;
    auto_ban = auto_ban;
    encryptor = Encryptor.create ep drawn;
    local_host = local_host;
    local_port = local_port;
    peer_host = peer_host;
    closings = closings;
  }

  -- What is done first, in front of what a slot does.
  abbrev pub after :
      List (Effect Host) → TcpRelay Host Pipe × List (Effect Host) → Outcome Host Pipe
  after es r = ok (r.0, es ++ r.1)

  -- Both `readyRead` signals start the timer again, behind the slot.
  abbrev pub and_timer : TcpRelay Host Pipe × List (Effect Host) → Outcome Host Pipe
  and_timer r = ok (r.0, r.1 ++ timer_start ∷ [])

  -- A `disconnected` signal within the closing of a socket calls `close` again, while the stage is
  -- not yet DESTROYED; a socket that is closed emits none.
  unfoldable pub close : TcpRelay Host Pipe → TcpRelay Host Pipe × List (Effect Host)
  close s = if is_destroyed s.stage then (s, []) else (
    record s { stage = destroyed; closings = later_closings s.closings },
    closing (this_closing s.closings),
  )

  abbrev pub address_of : Which → TcpRelay Host Pipe → Address Host
  address_of the_server s = s.server_address
  address_of the_remote s = s.remote_address

  -- `onLocalTcpSocketError`, `onRemoteTcpSocketError` and `onTimeout`: a message, and `close`. The
  -- flag tells an error from the end of the connection by the other side.
  unfoldable pub on_socket_error :
      Bool → TcpRelay Host Pipe → TcpRelay Host Pipe × List (Effect Host)
  unfolding close
  on_socket_error is_error s =
      let (s', es) = close s in (s', (if is_error then info else debug) ∷ es)

  unfoldable pub on_timeout : TcpRelay Host Pipe → TcpRelay Host Pipe × List (Effect Host)
  unfolding close
  on_timeout s = let (s', es) = close s in (s', info ∷ es)

  unfoldable pub on_remote_connected : TcpRelay Host Pipe → TcpRelay Host Pipe × List (Effect Host)
  on_remote_connected s =
      (record s { stage = stream; data_to_write = [] }, latency_available ∷ flushed s.data_to_write)

module _ {Host Pipe : Type 0} (q : Qt Host) (crypto : Crypto Pipe) where
  unfoldable pub on_dns_resolved :
      Which → Bool → TcpRelay Host Pipe → TcpRelay Host Pipe × List (Effect Host)
  unfolding close
  on_dns_resolved which success s =
      let a = address_of which s in
      if success
      then (record s { stage = connecting }, connect_to (get_first_ip q a) a.port ∷ [])
      else (let (s', es) = close s in (s', info ∷ es))

  -- `lookUp` of one of the addresses: a known one emits `lookedUp` within the call, which runs
  -- `onDNSResolved`; for another the name is looked up.
  unfoldable pub start_look_up :
      Which → TcpRelay Host Pipe → TcpRelay Host Pipe × List (Effect Host)
  unfolding on_dns_resolved
  start_look_up which s = elim (look_up (address_of which s)) [
    | known ↦ on_dns_resolved which true s
    | asks name ↦ (s, resolve which name ∷ [])
  ]

  -- The part of `handleStageAddr` behind the SOCKS command.
  unfoldable pub handle_header : List ℕ → TcpRelay Host Pipe → Outcome Host Pipe
  unfolding start_look_up close
  handle_header input s = parse_header q input s.remote_address >>= λ parsed.
      let s1 = record s { remote_address = parsed.0 } in
      let n = parsed.1 in
      if n == 0
      then (let (s', es) = close s1 in
          ok (s', info ∷ (if not s.is_local && s.auto_ban then ban s.peer_host ∷ [] else []) ++ es))
      else if s.is_local
      then (encrypt crypto s1.encryptor input >>= λ r.
          after (info ∷ local_write (5 ∷ 0 ∷ 0 ∷ 1 ∷ 0 ∷ 0 ∷ 0 ∷ 0 ∷ 16 ∷ 16 ∷ []) ∷ []) (
            start_look_up the_server (record s1 {
              stage = dns;
              encryptor = r.0;
              data_to_write = s1.data_to_write ++ r.1;
            })))
      else after (info ∷ []) (
          start_look_up the_remote (record s1 {
            stage = dns;
            data_to_write =
                if ltb n (length input) then s1.data_to_write ++ drop n input else s1.data_to_write;
          }))

  unfoldable pub handle_stage_addr : List ℕ → TcpRelay Host Pipe → Outcome Host Pipe
  unfolding handle_header close
  handle_stage_addr input s =
      if s.is_local
      then (byte_at input 1 >>= λ cmd.
          if cmd == 3
          then ok (
            record s { stage = udp_assoc },
            debug ∷ local_write ((5 ∷ 0 ∷ 0 ∷ []) ++ pack_host q s.local_host s.local_port) ∷ [],
          )
          else if cmd == 1
          then handle_header (drop 3 input) s
          else (let (s', es) = close s in ok (s', info ∷ es)))
      else handle_header input s

  -- `onLocalTcpSocketReadyRead` behind the decryption, by the stage.
  unfoldable pub on_local_data : Stage → List ℕ → TcpRelay Host Pipe → Outcome Host Pipe
  unfolding handle_stage_addr
  on_local_data stream input s =
      if s.is_local
      then (encrypt crypto s.encryptor input >>= λ r.
          ok (record s { encryptor = r.0 }, remote_write r.1 ∷ []))
      else ok (s, remote_write input ∷ [])
  on_local_data init input s =
      if s.is_local
      then (byte_at input 0 >>= λ version. ok (
        record s { stage = addr },
        (if not (version == 5)
            then info ∷ local_write (0 ∷ 91 ∷ []) ∷ []
            else local_write (5 ∷ 0 ∷ []) ∷ []),
      ))
      else handle_stage_addr input s
  on_local_data connecting input s =
      if s.is_local
      then (encrypt crypto s.encryptor input >>= λ r.
          ok (record s { encryptor = r.0; data_to_write = s.data_to_write ++ r.1 }, []))
      else ok (record s { data_to_write = s.data_to_write ++ input }, [])
  on_local_data dns input s =
      if s.is_local
      then (encrypt crypto s.encryptor input >>= λ r.
          ok (record s { encryptor = r.0; data_to_write = s.data_to_write ++ r.1 }, []))
      else ok (record s { data_to_write = s.data_to_write ++ input }, [])
  on_local_data addr input s = if s.is_local then handle_stage_addr input s else ok (s, [])
  on_local_data udp_assoc input s = ok (s, [])
  on_local_data destroyed input s = ok (s, [])

  unfoldable pub on_local_ready_read : List ℕ → TcpRelay Host Pipe → Outcome Host Pipe
  unfolding on_local_data close
  on_local_ready_read input s =
      if is_empty input
      then (let (s', es) = close s in ok (s', info ∷ es))
      else if s.is_local
      then on_local_data s.stage input s
      else (decrypt crypto s.encryptor input >>= λ r.
          let s1 = record s { encryptor = r.0 } in
          if is_empty r.1 then ok (s1, debug ∷ []) else on_local_data s1.stage r.1 s1)

  unfoldable pub on_remote_ready_read : List ℕ → TcpRelay Host Pipe → Outcome Host Pipe
  unfolding close
  on_remote_ready_read buf s =
      if is_empty buf
      then (let (s', es) = close s in ok (s', info ∷ es))
      else ((if s.is_local then decrypt crypto s.encryptor buf else encrypt crypto s.encryptor buf)
          >>= λ r.
              ok (record s { encryptor = r.0 }, bytes_read (length buf) ∷ local_write r.1 ∷ []))

-- The signals that the constructor connects.
pub data Event (Host : Type 0) : Type 0 where
  local_ready_read remote_ready_read : List ℕ → Event Host
  looked_up : Which → HostInfo Host → Event Host
  remote_connected : Event Host
  local_error remote_error : Bool → Event Host
  local_disconnected remote_disconnected : Event Host
  timeout : Event Host

module _ {Host Pipe : Type 0} (q : Qt Host) (crypto : Crypto Pipe) where
  -- An answer of the resolver goes to the address, which tells the relay.
  unfoldable pub on_answer :
      Which → HostInfo Host → TcpRelay Host Pipe → TcpRelay Host Pipe × List (Effect Host)
  unfolding on_dns_resolved
  on_answer the_server answer s =
      let (a, success) = on_look_up_finished s.server_address answer in
      on_dns_resolved q crypto the_server success (record s { server_address = a })
  on_answer the_remote answer s =
      let (a, success) = on_look_up_finished s.remote_address answer in
      on_dns_resolved q crypto the_remote success (record s { remote_address = a })

  unfoldable pub step : Event Host → TcpRelay Host Pipe → Outcome Host Pipe
  unfolding on_local_ready_read on_remote_ready_read on_answer on_remote_connected on_socket_error
      on_timeout close
  step (local_ready_read bytes) s = on_local_ready_read q crypto bytes s >>= and_timer
  step (remote_ready_read bytes) s = on_remote_ready_read q crypto bytes s >>= and_timer
  step (looked_up which answer) s = ok (on_answer which answer s)
  step remote_connected s = ok (on_remote_connected s)
  step (local_error is_error) s = ok (on_socket_error is_error s)
  step (remote_error is_error) s = ok (on_socket_error is_error s)
  step local_disconnected s = ok (close s)
  step remote_disconnected s = ok (close s)
  step timeout s = ok (on_timeout s)

  unfoldable pub run : List (Event Host) → TcpRelay Host Pipe → Outcome Host Pipe
  unfolding step
  run [] s = ok (s, [])
  run (e ∷ events) s = step e s >>= λ r. (run events r.0 >>= after r.1)
