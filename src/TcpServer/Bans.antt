-- ===== src/TcpServer/Bans.antt =====
-- A banned host stays banned for the server of lib/tcpserver.cpp, whatever comes to it.
use shadowsocks_qt.Prelude.{
  ℕ, ◌≡◌, List, [], ◌∷◌, true, false, Bool-cases, inl, inr, Option, none, some, Ensures,
  Ensures-bind, get_elem?, or_fail, bad_read,
}
use shadowsocks_qt.Qt.{Qt}
use shadowsocks_qt.Crypto.{Crypto}
use shadowsocks_qt.Common.Ban.{is_address_banned, still_banned}
use shadowsocks_qt.TcpRelay.{
  TcpRelay, Effect, finished, ban, info, debug, local_write, remote_write, local_close,
  remote_close, resolve, connect_to, bytes_read, latency_available, timer_start, Event, step,
}
use shadowsocks_qt.TcpServer.{
  TcpServer, Connection, ServerEvent, incoming, signalled, finished_handled, listened, closed, find,
  replace, on_connection_finished, incoming_connection, on_effect, deliver, relay_step, relay_event,
  run_posted, listen, close, server_step, has, is_refused,
}

module _ {Host Pipe : Type 0} (q : Qt Host) (h : Host) where
  -- A server that refuses the host.
  abbrev pub IsBarred : List Host → TcpServer Host Pipe → Type 0
  IsBarred banned s =
      (s.is_local ≡ false) × (s.auto_ban ≡ true) × (is_address_banned q h banned ≡ true)

  finished-IsBarred :
      (id : ℕ) (banned : List Host) (s : TcpServer Host Pipe)
      → IsBarred banned s
      → IsBarred banned (on_connection_finished id s).0
  unfolding on_connection_finished
  finished-IsBarred id banned s b = elim (Bool-cases (has id s.con_list)) [
    | inl there ↦ rw there b
    | inr absent ↦ rw absent b
  ]

  posted-IsBarred :
      (ids : List ℕ) (banned : List Host) (s : TcpServer Host Pipe)
      → IsBarred banned s
      → IsBarred banned (run_posted ids s).0
  posted-IsBarred [] banned s b = b
  posted-IsBarred (id ∷ ids) banned s b = finished-IsBarred id banned (record s { posted = ids }) b

  effect-IsBarred :
      (id : ℕ) (e : Effect Host) (banned : List Host) (s : TcpServer Host Pipe)
      → IsBarred banned s
      → IsBarred (on_effect q id e banned s).1 (on_effect q id e banned s).0
  unfolding on_effect
  effect-IsBarred id finished banned s b = b
  effect-IsBarred id info banned s b = b
  effect-IsBarred id debug banned s b = b
  effect-IsBarred id (local_write bytes) banned s b = b
  effect-IsBarred id (remote_write bytes) banned s b = b
  effect-IsBarred id local_close banned s b = b
  effect-IsBarred id remote_close banned s b = b
  effect-IsBarred id (ban k) banned s b = (b.0, b.1, still_banned q h k banned b.2)
  effect-IsBarred id (resolve w name) banned s b = b
  effect-IsBarred id (connect_to k p) banned s b = b
  effect-IsBarred id (bytes_read n) banned s b = b
  effect-IsBarred id latency_available banned s b = b
  effect-IsBarred id timer_start banned s b = b

  pub deliver-IsBarred :
      (id : ℕ) (es : List (Effect Host)) (banned : List Host) (s : TcpServer Host Pipe)
      → IsBarred banned s
      → IsBarred (deliver q id es banned s).1 (deliver q id es banned s).0
  unfolding deliver
  deliver-IsBarred id [] banned s b = b
  deliver-IsBarred id (e ∷ es) banned s b =
      let first = on_effect q id e banned s in
      deliver-IsBarred id es first.1 first.0 (effect-IsBarred id e banned s b)

  incoming-IsBarred :
      (c : Connection Host) (banned : List Host) (s : TcpServer Host Pipe)
      → IsBarred banned s
      → Ensures (λ r. IsBarred r.1 r.0) (incoming_connection q c banned s)
  unfolding incoming_connection
  incoming-IsBarred c banned s b = elim (Bool-cases (is_refused q c.peer_host banned s)) [
    | inl barred ↦ rw barred b
    | inr welcome ↦ rw welcome (
        Ensures-bind (λ r. IsBarred r.1 r.0)
          (or_fail (get_elem? s.thread_list s.worker_thread_id) bad_read) _ (λ thread. b))
  ]

  module _ (crypto : Crypto Pipe) where
    relay-IsBarred :
        (id : ℕ) (con : Option (TcpRelay Host Pipe)) (e : Event Host) (banned : List Host)
        (s : TcpServer Host Pipe)
        → IsBarred banned s
        → Ensures (λ r. IsBarred r.1 r.0) (relay_step q crypto id con e banned s)
    relay-IsBarred id none e banned s b = b
    relay-IsBarred id (some con) e banned s b =
        Ensures-bind (λ r. IsBarred r.1 r.0) (step q crypto e con) _
          (λ r.
            deliver-IsBarred id r.1 banned (record s { con_list = replace id r.0 s.con_list }) b)

    pub server-IsBarred :
        (e : ServerEvent Host) (banned : List Host) (s : TcpServer Host Pipe)
        → IsBarred banned s
        → Ensures (λ r. IsBarred r.1 r.0) (server_step q crypto e banned s)
    unfolding server_step relay_event listen close
    server-IsBarred (incoming c) banned s b = incoming-IsBarred c banned s b
    server-IsBarred (signalled id e) banned s b =
        relay-IsBarred id (find id s.con_list) e banned s b
    server-IsBarred finished_handled banned s b = posted-IsBarred s.posted banned s b
    server-IsBarred (listened true) banned s b = b
    server-IsBarred (listened false) banned s b = b
    server-IsBarred closed banned s b = b
