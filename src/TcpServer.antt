-- ===== src/TcpServer.antt =====
-- lib/tcpserver.cpp, lib/tcpserver.h: the server that owns the relays. A relay is known by its
-- identity, which stands for its pointer: no two live relays share one. The vector of banned
-- addresses is passed on, since the relays write it and the server reads it. A relay's slots run
-- one after another; the scheduling of the threads is the order of the events.
pub mod Lists
pub mod Delivered
pub mod Covered
pub mod Relays
pub mod Turns
pub mod Threads
pub mod Endings
pub mod Bans
pub mod Life
pub mod Tests
use shadowsocks_qt.Prelude.{
  ℕ, ◌+◌, ◌%◌, ◌^◌, List, [], ◌∷◌, ◌++◌, map, Bool, true, false, not, ◌&&◌, ◌||◌, ◌==◌,
  if◌then◌else◌, get_elem?, replicate, Option, none, some, Result, ok, ◌>>=◌, or_fail, bad_read,
}
use shadowsocks_qt.Qt.{Qt}
use shadowsocks_qt.Crypto.{Crypto}
use shadowsocks_qt.Address.{Address}
use shadowsocks_qt.Common.Ban.{ban_address, is_address_banned}
use shadowsocks_qt.EncryptorPrivate.{EncryptorPrivate}
use shadowsocks_qt.TcpRelay
use shadowsocks_qt.TcpRelay.{TcpRelay, Effect, finished, ban, Event, step}

pub record TcpServer (Host Pipe : Type 0) : Type 0 where
  pub is_local : Bool
  pub auto_ban : Bool
  pub server_address : Address Host
  pub ep : EncryptorPrivate
  pub con_list : List (ℕ × TcpRelay Host Pipe)
  -- The identity of the next relay.
  pub next_relay : ℕ
  -- Whether each thread runs.
  pub thread_list : List Bool
  pub worker_thread_id : ℕ
  pub total_workers : ℕ
  pub is_listening : Bool
  -- The relays whose `finished` waits in the event queue of the server's thread: the relays live in
  -- the worker threads, so the slot runs later.
  pub posted : List ℕ

-- What the server does to the outside: it refuses a connection, gives a relay to a thread, deletes a
-- relay, or passes on what a relay does.
pub data ServerEffect (Host : Type 0) : Type 0 where
  refused : ServerEffect Host
  moved_to : ℕ → ℕ → ServerEffect Host
  deleted : ℕ → ServerEffect Host
  of_relay : ℕ → Effect Host → ServerEffect Host

-- The server, the banned addresses and the effects.
abbrev pub State : Type 0 → Type 0 → Type 0
State Host Pipe = TcpServer Host Pipe × List Host × List (ServerEffect Host)

-- The two ends of an accepted socket, the random bytes that its encryptor draws, and what its
-- sockets do when they are closed.
pub record Connection (Host : Type 0) : Type 0 where
  pub local_host : Host
  pub local_port : ℕ
  pub peer_host : Host
  pub drawn : List ℕ
  pub closings : List (Bool × Bool)

-- A list of relays by their identities.
module _ {V : Type 0} where
  abbrev pub find : ℕ → List (ℕ × V) → Option V
  find id [] = none
  find id ((j, v) ∷ l) = if j == id then some v else find id l

  abbrev pub has : ℕ → List (ℕ × V) → Bool
  has id [] = false
  has id ((j, v) ∷ l) = j == id || has id l

  -- `QList::removeOne`.
  abbrev pub remove_one : ℕ → List (ℕ × V) → List (ℕ × V)
  remove_one id [] = []
  remove_one id ((j, v) ∷ l) = if j == id then l else (j, v) ∷ remove_one id l

  -- A relay changes in place.
  abbrev pub replace : ℕ → V → List (ℕ × V) → List (ℕ × V)
  replace id v [] = []
  replace id v ((j, w) ∷ l) = if j == id then (j, v) ∷ l else (j, w) ∷ replace id v l

module _ {Host Pipe : Type 0} where
  -- The constructor, with what `hardware_concurrency` says.
  unfoldable pub create : EncryptorPrivate → Bool → Bool → Address Host → ℕ → TcpServer Host Pipe
  create ep is_local auto_ban server_address concurrency =
      let total = if concurrency == 0 then 1 else concurrency in
      record {
        is_local = is_local;
        auto_ban = auto_ban;
        server_address = server_address;
        ep = ep;
        con_list = [];
        next_relay = 0;
        thread_list = replicate total false;
        worker_thread_id = 0;
        total_workers = total;
        is_listening = false;
        posted = [];
      }

  unfoldable pub on_connection_finished :
      ℕ → TcpServer Host Pipe → TcpServer Host Pipe × List (ServerEffect Host)
  on_connection_finished id s =
      if has id s.con_list
      then (record s { con_list = remove_one id s.con_list }, deleted id ∷ [])
      else (s, [])

  -- The next call that waits.
  abbrev pub run_posted :
      List ℕ → TcpServer Host Pipe → TcpServer Host Pipe × List (ServerEffect Host)
  run_posted [] s = (s, [])
  run_posted (id ∷ ids) s = on_connection_finished id (record s { posted = ids })

  -- `listen`, with what `QTcpServer::listen` returns.
  unfoldable pub listen : Bool → TcpServer Host Pipe → TcpServer Host Pipe × Bool
  listen bound s =
      if bound
      then (record s { is_listening = true; thread_list = map (λ t. true) s.thread_list }, true)
      else (s, false)

  unfoldable pub close : TcpServer Host Pipe → TcpServer Host Pipe
  close s = record s { is_listening = false; thread_list = map (λ t. false) s.thread_list }

  -- The destructor.
  unfoldable pub destroy : TcpServer Host Pipe → TcpServer Host Pipe × List (ServerEffect Host)
  unfolding close
  destroy s = (if s.is_listening then close s else s, map (λ con. deleted con.0) s.con_list)

module _ {Host Pipe : Type 0} (q : Qt Host) where
  abbrev pub is_refused : Host → List Host → TcpServer Host Pipe → Bool
  is_refused peer banned s = not s.is_local && s.auto_ban && is_address_banned q peer banned

  -- `workerThreadID` is a quint64, which wraps before the remainder is taken.
  unfoldable pub incoming_connection :
      Connection Host → List Host → TcpServer Host Pipe → Result (State Host Pipe)
  incoming_connection c banned s =
      if is_refused c.peer_host banned s
      then ok (s, banned, refused ∷ [])
      else (let con =
            TcpRelay.create s.is_local s.auto_ban s.server_address s.ep c.drawn c.closings
              c.local_host c.local_port c.peer_host in
          let id = s.next_relay in
          or_fail (get_elem? s.thread_list s.worker_thread_id) bad_read >>= λ thread. ok (
            record s {
              con_list = s.con_list ++ (id, con) ∷ [];
              next_relay = id + 1;
              worker_thread_id = (s.worker_thread_id + 1) % 2 ^ 64 % s.total_workers;
            },
            banned,
            moved_to id s.worker_thread_id ∷ [],
          ))

  -- What becomes of an effect of the relay `id`: `finished` is posted to the server, and the ban is
  -- done in the thread of the relay.
  unfoldable pub on_effect : ℕ → Effect Host → List Host → TcpServer Host Pipe → State Host Pipe
  on_effect id finished banned s = (record s { posted = s.posted ++ id ∷ [] }, banned, [])
  on_effect id (ban h) banned s = (s, ban_address q h banned, [])
  on_effect id e banned s = (s, banned, of_relay id e ∷ [])

  unfoldable pub deliver :
      ℕ → List (Effect Host) → List Host → TcpServer Host Pipe → State Host Pipe
  unfolding on_effect
  deliver id [] banned s = (s, banned, [])
  deliver id (e ∷ es) banned s =
      let first = on_effect id e banned s in
      let rest = deliver id es first.1 first.0 in (rest.0, rest.1, first.2 ++ rest.2)

module _ {Host Pipe : Type 0} (q : Qt Host) (crypto : Crypto Pipe) where
  abbrev pub relay_step :
      ℕ
      → Option (TcpRelay Host Pipe)
      → Event Host
      → List Host
      → TcpServer Host Pipe
      → Result (State Host Pipe)
  relay_step id none e banned s = ok (s, banned, [])
  relay_step id (some con) e banned s = step q crypto e con >>= λ r.
      ok (deliver q id r.1 banned (record s { con_list = replace id r.0 s.con_list }))

  -- An event of the relay `id`, if the server has it.
  unfoldable pub relay_event :
      ℕ → Event Host → List Host → TcpServer Host Pipe → Result (State Host Pipe)
  unfolding deliver
  relay_event id e banned s = relay_step id (find id s.con_list) e banned s

-- What happens to a server: a connection comes in, a signal comes to a relay, the next `finished` that
-- waits is handled, and the calls of `listen` and `close`.
pub data ServerEvent (Host : Type 0) : Type 0 where
  incoming : Connection Host → ServerEvent Host
  signalled : ℕ → Event Host → ServerEvent Host
  finished_handled : ServerEvent Host
  listened : Bool → ServerEvent Host
  closed : ServerEvent Host

module _ {Host Pipe : Type 0} (q : Qt Host) (crypto : Crypto Pipe) where
  unfoldable pub server_step :
      ServerEvent Host → List Host → TcpServer Host Pipe → Result (State Host Pipe)
  unfolding incoming_connection relay_event on_connection_finished listen close
  server_step (incoming c) banned s = incoming_connection q c banned s
  server_step (signalled id e) banned s = relay_event q crypto id e banned s
  server_step finished_handled banned s = let r = run_posted s.posted s in ok (r.0, banned, r.1)
  server_step (listened bound) banned s = ok ((listen bound s).0, banned, [])
  server_step closed banned s = ok (close s, banned, [])

  unfoldable pub server_run :
      List (ServerEvent Host) → List Host → TcpServer Host Pipe → Result (State Host Pipe)
  unfolding server_step
  server_run [] banned s = ok (s, banned, [])
  server_run (e ∷ events) banned s = server_step e banned s >>= λ first.
      (server_run events first.1 first.0 >>= λ rest. ok (rest.0, rest.1, first.2 ++ rest.2))
