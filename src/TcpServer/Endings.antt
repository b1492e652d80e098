-- ===== src/TcpServer/Endings.antt =====
-- What the bans of a relay mean to the server of lib/tcpserver.cpp.
use shadowsocks_qt.Prelude.{
  ℕ, ◌≡◌, refl, List, [], ◌∷◌, ◌++◌, true, false, if_true, some, ok, Returns, arith,
}
use shadowsocks_qt.Qt.{Qt}
use shadowsocks_qt.Crypto.{Crypto}
use shadowsocks_qt.Address.{Address}
use shadowsocks_qt.Common.Header.{parse_header}
use shadowsocks_qt.Common.Ban.{ban_address, is_address_banned, is_address_banned-ban_address}
use shadowsocks_qt.Encryptor.{Encryptor, decrypt}
use shadowsocks_qt.TcpRelay
use shadowsocks_qt.TcpRelay.{
  TcpRelay, Stage, init, Effect, finished, ban, info, local_close, remote_close, timer_start,
  closing, this_closing, later_closings, destroyed, Event, local_ready_read, step, is_destroyed,
  is_empty, on_local_ready_read, on_local_data, handle_stage_addr, handle_header,
}
use shadowsocks_qt.TcpServer.{
  TcpServer, Connection, refused, find, incoming_connection, on_effect, deliver, relay_event,
  is_refused,
}
use shadowsocks_qt.TcpServer.Bans.{deliver-IsBarred}

module _ {Host Pipe : Type 0} (q : Qt Host) (crypto : Crypto Pipe) where
  step_malformed :
      (con : TcpRelay Host Pipe) (m : ℕ) (ms : List ℕ) (en : Encryptor Pipe) (b : ℕ) (bs : List ℕ)
      (a : Address Host)
      → con.stage ≡ init
      → con.is_local ≡ false
      → con.auto_ban ≡ true
      → decrypt crypto con.encryptor (m ∷ ms) ≡ ok (en, b ∷ bs)
      → parse_header q (b ∷ bs) con.remote_address ≡ ok (a, 0)
      → step q crypto (local_ready_read (m ∷ ms)) con
        ≡ ok (
          record con {
            encryptor = en;
            remote_address = a;
            stage = destroyed;
            closings = later_closings con.closings;
          },
          info ∷ ban con.peer_host ∷ closing (this_closing con.closings) ++ timer_start ∷ [],
        )
  unfolding step on_local_ready_read on_local_data handle_stage_addr handle_header TcpRelay.close
  step_malformed con m ms en b bs a stage mode bans plain fails =
      rw (mode, plain, stage, fails, bans) refl

  refused_if :
      (c : Connection Host) (banned : List Host) (s : TcpServer Host Pipe)
      → is_refused q c.peer_host banned s ≡ true
      → incoming_connection q c banned s ≡ ok (s, banned, refused ∷ [])
  unfolding incoming_connection
  refused_if c banned s h = if_true h _ _

  banned_now :
      (h : Host) (banned : List Host)
      → q.same_host h h ≡ true
      → is_address_banned q h (ban_address q h banned) ≡ true
  banned_now h banned same = rw (is_address_banned-ban_address q h h banned, same) (ground arith)

  refused_after :
      (id : ℕ) (h : Host) (es : List (Effect Host)) (c : Connection Host) (banned : List Host)
      (s : TcpServer Host Pipe)
      → s.is_local ≡ false
      → s.auto_ban ≡ true
      → c.peer_host ≡ h
      → q.same_host h h ≡ true
      → let r = deliver q id (info ∷ ban h ∷ es) banned s in
        incoming_connection q c r.1 r.0 ≡ ok (r.0, r.1, refused ∷ [])
  unfolding deliver on_effect
  refused_after id h es c banned s server auto peer same =
      let r = deliver q id es (ban_address q h banned) s in
      let b =
        deliver-IsBarred q h id es (ban_address q h banned) s
          (server, auto, banned_now h banned same) in
      refused_if c r.1 r.0 (rw (peer, b.0, b.1, b.2) refl)

  -- In server mode with auto ban, a first message that decrypts to something whose header does not
  -- parse bans its sender: the server then refuses the next connection from that host, since a host
  -- equals itself.
  pub relay_event-banned :
      (id : ℕ) (con : TcpRelay Host Pipe) (m : ℕ) (ms : List ℕ) (en : Encryptor Pipe) (b : ℕ)
      (bs : List ℕ) (a : Address Host) (c : Connection Host) (banned : List Host)
      (s : TcpServer Host Pipe)
      → find id s.con_list ≡ some con
      → con.stage ≡ init
      → con.is_local ≡ false
      → con.auto_ban ≡ true
      → decrypt crypto con.encryptor (m ∷ ms) ≡ ok (en, b ∷ bs)
      → parse_header q (b ∷ bs) con.remote_address ≡ ok (a, 0)
      → s.is_local ≡ false
      → s.auto_ban ≡ true
      → c.peer_host ≡ con.peer_host
      → q.same_host con.peer_host con.peer_host ≡ true
      → Returns
          (λ r. incoming_connection q c r.1 r.0 ≡ ok (r.0, r.1, refused ∷ []))
          (relay_event q crypto id (local_ready_read (m ∷ ms)) banned s)
  unfolding relay_event deliver
  relay_event-banned id con m ms en b bs a c banned s there stage mode bans plain fails server auto
        peer same =
      rw there (
        rw (step_malformed con m ms en b bs a stage mode bans plain fails) (
          refused_after id con.peer_host (closing (this_closing con.closings) ++ timer_start ∷ []) c
            banned _ server auto peer same))
