-- ===== src/TcpServer/Threads.antt =====
-- The threads to which the server of lib/tcpserver.cpp gives its relays.
use shadowsocks_qt.Prelude.{
  ℕ, ◌%◌, ◌^◌, ◌≡◌, refl, sym, ap, ap₂, ◌∙◌, List, [], ◌∷◌, ◌++◌, true, false, if_elim, Bool-cases,
  inl, inr, length, get_elem?, Option, none, some, or_fail, bad_read, Ensures, Ensures-bind,
  Ensures-bind_of, Ensures-both, Ensures-map, arith,
}
use native.Mathlib.Nat.{mod-eq_of_lt}
use shadowsocks_qt.Qt.{Qt}
use shadowsocks_qt.Crypto.{Crypto}
use shadowsocks_qt.TcpRelay.{
  TcpRelay, Effect, finished, ban, info, debug, local_write, remote_write, local_close,
  remote_close, resolve, connect_to, bytes_read, latency_available, timer_start, Event, step,
}
use shadowsocks_qt.TcpServer.{
  TcpServer, Connection, refused, ServerEvent, incoming, signalled, finished_handled, listened,
  closed, find, has, replace, on_connection_finished, listen, close, incoming_connection, on_effect,
  deliver, relay_step, relay_event, run_posted, server_step, server_run, is_refused,
}
use shadowsocks_qt.TcpServer.Delivered.{deliver-eq, finished-eq}
use shadowsocks_qt.TcpServer.Relays.{IsSound, step-IsSound}
use shadowsocks_qt.TcpServer.Turns.{assigned, around, assigned-append, Advances, rests, both}

module _ {Host Pipe : Type 0} (q : Qt Host) where
  finished-assigned :
      (id : ℕ) (s : TcpServer Host Pipe) → assigned (on_connection_finished id s).1 ≡ []
  unfolding on_connection_finished assigned
  finished-assigned id s = elim (Bool-cases (has id s.con_list)) [
    | inl there ↦ rw there refl
    | inr absent ↦ rw absent refl
  ]

  effect-assigned :
      (id : ℕ) (e : Effect Host) (banned : List Host) (s : TcpServer Host Pipe)
      → assigned (on_effect q id e banned s).2 ≡ []
  unfolding on_effect assigned
  effect-assigned id finished banned s = refl
  effect-assigned id info banned s = refl
  effect-assigned id debug banned s = refl
  effect-assigned id (local_write bytes) banned s = refl
  effect-assigned id (remote_write bytes) banned s = refl
  effect-assigned id local_close banned s = refl
  effect-assigned id remote_close banned s = refl
  effect-assigned id (ban h) banned s = refl
  effect-assigned id (resolve w name) banned s = refl
  effect-assigned id (connect_to h p) banned s = refl
  effect-assigned id (bytes_read n) banned s = refl
  effect-assigned id latency_available banned s = refl
  effect-assigned id timer_start banned s = refl

  deliver-assigned :
      (id : ℕ) (es : List (Effect Host)) (banned : List Host) (s : TcpServer Host Pipe)
      → assigned (deliver q id es banned s).2 ≡ []
  unfolding deliver assigned
  deliver-assigned id [] banned s = refl
  deliver-assigned id (e ∷ es) banned s =
      let first = on_effect q id e banned s in
      assigned-append first.2 _
      ∙ ap₂ ◌++◌ (effect-assigned id e banned s) (deliver-assigned id es first.1 first.0)

  incoming-Advances :
      (c : Connection Host) (banned : List Host) (s : TcpServer Host Pipe)
      → IsSound s
      → Ensures (Advances s) (incoming_connection q c banned s)
  unfolding incoming_connection assigned around
  incoming-Advances c banned s sound =
      if_elim (Ensures (Advances s)) (is_refused q c.peer_host banned s)
        (λ _. rests s (s, banned, refused ∷ []) sound refl refl refl)
        (λ _.
          Ensures-bind (Advances s) (or_fail (get_elem? s.thread_list s.worker_thread_id) bad_read)
            _
            λ thread. (
              ap (λ w. w ∷ []) (sym (mod-eq_of_lt (sound.0))),
              ap (λ w. w % s.total_workers)
                  (mod-eq_of_lt {m = 2 ^ 64} (omega (arith, sound.0, sound.1))),
              refl,
            ))

module _ {Host Pipe : Type 0} (q : Qt Host) (crypto : Crypto Pipe) where
  relay_step-Advances :
      (id : ℕ) (o : Option (TcpRelay Host Pipe)) (e : Event Host) (banned : List Host)
      (s : TcpServer Host Pipe)
      → IsSound s
      → Ensures (Advances s) (relay_step q crypto id o e banned s)
  unfolding assigned
  relay_step-Advances id none e banned s sound = rests s (s, banned, []) sound refl refl refl
  relay_step-Advances id (some con) e banned s sound =
      Ensures-bind (Advances s) (step q crypto e con) _ λ r.
        let s' = record s { con_list = replace id r.0 s.con_list } in
        let same = deliver-eq q id r.1 banned s' in
        rests s (deliver q id r.1 banned s') sound (deliver-assigned q id r.1 banned s')
          (ap (λ t. t.worker_thread_id) same) (ap (λ t. t.total_workers) same)

  posted-Advances :
      (ids : List ℕ) (s : TcpServer Host Pipe) (banned : List Host)
      → IsSound s
      → let r = run_posted ids s in Advances s (r.0, banned, r.1)
  unfolding assigned
  posted-Advances [] s banned sound = rests s (s, banned, []) sound refl refl refl
  posted-Advances (id ∷ ids) s banned sound =
      let s1 = record s { posted = ids } in
      let same = finished-eq id s1 in
      let r = on_connection_finished id s1 in
      rests s (r.0, banned, r.1) sound (finished-assigned q id s1)
        (ap (λ t. t.worker_thread_id) same) (ap (λ t. t.total_workers) same)

  step-Advances :
      (e : ServerEvent Host) (banned : List Host) (s : TcpServer Host Pipe)
      → IsSound s
      → Ensures (Advances s) (server_step q crypto e banned s)
  unfolding server_step relay_event listen close assigned
  step-Advances (incoming c) banned s sound = incoming-Advances q c banned s sound
  step-Advances (signalled id e) banned s sound =
      relay_step-Advances id (find id s.con_list) e banned s sound
  step-Advances finished_handled banned s sound = posted-Advances s.posted s banned sound
  step-Advances (listened true) banned s sound =
      rests s ((listen true s).0, banned, []) sound refl refl refl
  step-Advances (listened false) banned s sound =
      rests s ((listen false s).0, banned, []) sound refl refl refl
  step-Advances closed banned s sound = rests s (close s, banned, []) sound refl refl refl

  run-Advances :
      (events : List (ServerEvent Host)) (banned : List Host) (s : TcpServer Host Pipe)
      → IsSound s
      → Ensures (Advances s) (server_run q crypto events banned s)
  unfolding server_run assigned
  run-Advances [] banned s sound = rests s (s, banned, []) sound refl refl refl
  run-Advances (e ∷ events) banned s sound =
      Ensures-bind_of (λ r. IsSound r.0 × Advances s r) _ (server_step q crypto e banned s) _
        (Ensures-both (λ r. IsSound r.0) (Advances s) _ (step-IsSound q crypto e banned s sound)
          (step-Advances e banned s sound))
        λ first h.
          Ensures-bind_of (Advances first.0) _ (server_run q crypto events first.1 first.0) _
            (run-Advances events first.1 first.0 h.0) λ rest k. both s first rest h.1 k

  -- However a sound server is run, as long as the run returns: whatever signals, endings and calls of
  -- `listen` and `close` come between the connections, the connections that it takes are given to
  -- its threads one after the other and around, from its next worker on.
  pub server_run-assigned :
      (events : List (ServerEvent Host)) (banned : List Host) (s : TcpServer Host Pipe)
      → IsSound s
      → Ensures
          (λ r. assigned r.2 ≡ around s.total_workers s.worker_thread_id (length (assigned r.2)))
          (server_run q crypto events banned s)
  server_run-assigned events banned s sound =
      Ensures-map (Advances s) _ (server_run q crypto events banned s)
        (run-Advances events banned s sound) (λ r h. h.0)
