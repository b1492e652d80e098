-- ===== src/TcpServer/Relays.antt =====
-- The relays of the server of lib/tcpserver.cpp: which are in its list.
use shadowsocks_qt.Prelude.{
  ℕ, ◌+◌, ◌%◌, ◌^◌, ◌<◌, ◌≡◌, refl, sym, subst, ◌∙◌, List, [], ◌∷◌, ◌++◌, Bool, Bool-cases, inl,
  inr, Ensures-map, Ensures-of, true, false, ◌==◌, if_elim, if◌then◌else◌, length, length-map,
  length-replicate, get_elem?, Option, none, some, or_fail, bad_read, Ensures, Ensures-bind_of,
  Returns, Returns-bind, Returns→Ensures, arith,
}
use native.Mathlib.Nat.{mod-lt}
use shadowsocks_qt.Qt.{Qt}
use shadowsocks_qt.Crypto.{Crypto}
use shadowsocks_qt.Address.{Address}
use shadowsocks_qt.EncryptorPrivate.{EncryptorPrivate}
use shadowsocks_qt.TcpRelay
use shadowsocks_qt.TcpRelay.{
  TcpRelay, Effect, finished, ban, info, debug, local_write, remote_write, local_close,
  remote_close, resolve, connect_to, bytes_read, latency_available, timer_start, Event, step,
  is_destroyed, this_closing,
}
use shadowsocks_qt.TcpRelay.Balances.{emissions}
use shadowsocks_qt.TcpRelay.Finished.{step-finished}
use shadowsocks_qt.TcpServer.{
  TcpServer, Connection, ServerEvent, incoming, signalled, finished_handled, listened, closed, find,
  replace, create, listen, close, incoming_connection, relay_step, relay_event, run_posted,
  server_step, server_run, is_refused,
}
use shadowsocks_qt.TcpServer.Lists.{
  Within, Within-append, Within-remove, Within-replace, or_fail-get_elem?,
}
use shadowsocks_qt.TcpServer.Delivered.{finished-eq, deliver-eq, posts, is_posted-posts}
use shadowsocks_qt.TcpServer.Covered.{
  is_forgotten, AreCovered, AreCovered-append, AreCovered-more, AreCovered-replace,
  AreCovered-remove, find-AreCovered, is_posted-append,
}

some_emissions : (c : Bool × Bool) → 0 < emissions c
some_emissions (false, false) = omega arith
some_emissions (false, true) = omega arith
some_emissions (true, false) = omega arith
some_emissions (true, true) = omega arith

module _ {Host Pipe : Type 0} where
  -- The next worker is one of the workers, each of which has a thread, the relays of the list are
  -- different objects, and for each of them that is destroyed a `finished` waits.
  abbrev pub IsSound : TcpServer Host Pipe → Type 0
  IsSound s =
      (s.worker_thread_id < s.total_workers)
      × (s.total_workers < 2 ^ 64)
      × (length s.thread_list ≡ s.total_workers)
      × Within 0 s.next_relay s.con_list
      × AreCovered s.posted s.con_list

module _ {Host Pipe : Type 0} where
  created-lives :
      (s : TcpServer Host Pipe) (c : Connection Host) (ids : List ℕ)
      → is_forgotten {Host = Host} {Pipe = Pipe} s.next_relay
          (TcpRelay.create s.is_local s.auto_ban s.server_address s.ep c.drawn c.closings
            c.local_host c.local_port c.peer_host)
          ids
        ≡ false
  unfolding TcpRelay.create
  created-lives s c ids = refl

  listened-IsSound :
      (bound : Bool) (s : TcpServer Host Pipe) → IsSound s → IsSound (listen bound s).0
  unfolding listen
  listened-IsSound true s sound =
      (sound.0, sound.1, length-map s.thread_list (λ t. true) ∙ sound.2, sound.3, sound.4)
  listened-IsSound false s sound = sound

  closed-IsSound : (s : TcpServer Host Pipe) → IsSound s → IsSound (close s)
  unfolding close
  closed-IsSound s sound =
      (sound.0, sound.1, length-map s.thread_list (λ t. false) ∙ sound.2, sound.3, sound.4)

  posted-IsSound :
      (ids : List ℕ) (s : TcpServer Host Pipe)
      → s.posted ≡ ids
      → IsSound s
      → IsSound (run_posted ids s).0
  posted-IsSound [] s empty sound = sound
  posted-IsSound (id ∷ ids) s next sound =
      subst IsSound (sym (finished-eq id (record s { posted = ids }))) (
        sound.0,
        sound.1,
        sound.2,
        Within-remove 0 s.next_relay id s.con_list sound.3,
        AreCovered-remove 0 s.next_relay id ids s.con_list sound.3
            (subst (λ l. AreCovered l s.con_list) next sound.4),
      )

module _ {Host Pipe : Type 0} (q : Qt Host) where
  -- A sound server takes each connection, or refuses it: the thread of its next worker is in its list
  -- of threads, and the server that it leaves is sound.
  pub incoming_connection-IsSound :
      (c : Connection Host) (banned : List Host) (s : TcpServer Host Pipe)
      → IsSound s
      → Returns (λ r. IsSound r.0) (incoming_connection q c banned s)
  unfolding incoming_connection
  incoming_connection-IsSound c banned s sound =
      if_elim (Returns (λ r. IsSound r.0)) (is_refused q c.peer_host banned s) (λ _. sound)
        (λ _.
          Returns-bind (λ x. get_elem? s.thread_list s.worker_thread_id ≡ some x) _
            (or_fail (get_elem? s.thread_list s.worker_thread_id) bad_read) _
            (or_fail-get_elem? s.thread_list s.worker_thread_id bad_read
              (omega (arith, sound.0, sound.2)))
            (λ thread there. (
              mod-lt ((s.worker_thread_id + 1) % 2 ^ 64) (omega (arith, sound.0)),
              sound.1,
              sound.2,
              Within-append 0 s.next_relay _ s.con_list sound.3,
              AreCovered-append s.posted s.next_relay _ s.con_list sound.4
                  (created-lives s c s.posted),
            )))

module _ {Host Pipe : Type 0} (q : Qt Host) (crypto : Crypto Pipe) where
  -- A relay that a slot leaves destroyed is posted: it was already, or it emits `finished`.
  stepped :
      (id : ℕ) (con : TcpRelay Host Pipe) (e : Event Host) (ids : List ℕ)
      → is_forgotten id con ids ≡ false
      → Ensures (λ r. is_forgotten id r.0 (ids ++ posts id r.1) ≡ false) (step q crypto e con)
  stepped id con e ids kept = elim (Bool-cases (is_destroyed con.stage)) [
    | inl dead ↦
        Ensures-of (step q crypto e con)
          (λ r. ground (arith, kept, dead, is_posted-append id ids (posts id r.1)))
    | inr live ↦ Ensures-map _ _ (step q crypto e con) (step-finished q crypto e con live) (λ r h.
        elim (Bool-cases (is_destroyed r.0.stage)) [
          | inl ended ↦ ground (
            arith,
            is_posted-append id ids (posts id r.1),
            is_posted-posts id r.1
                (omega (arith, rw ended at h, some_emissions (this_closing con.closings))),
          )
          | inr lives ↦ rw lives refl
        ])
  ]

  relay_step-IsSound :
      (id : ℕ) (o : Option (TcpRelay Host Pipe)) (e : Event Host) (banned : List Host)
      (s : TcpServer Host Pipe)
      → find id s.con_list ≡ o
      → IsSound s
      → Ensures (λ r. IsSound r.0) (relay_step q crypto id o e banned s)
  relay_step-IsSound id none e banned s there sound = sound
  relay_step-IsSound id (some con) e banned s there sound =
      Ensures-bind_of (λ r. is_forgotten id r.0 (s.posted ++ posts id r.1) ≡ false) _
        (step q crypto e con) _
        (stepped id con e s.posted (find-AreCovered s.posted id con s.con_list sound.4 there))
        λ r kept.
          subst IsSound
            (sym (deliver-eq q id r.1 banned (record s { con_list = replace id r.0 s.con_list })))
            (
              sound.0,
              sound.1,
              sound.2,
              Within-replace 0 s.next_relay id r.0 s.con_list sound.3,
              AreCovered-replace (s.posted ++ posts id r.1) id r.0 s.con_list
                  (AreCovered-more s.posted (posts id r.1) s.con_list sound.4) kept,
            )

  pub step-IsSound :
      (e : ServerEvent Host) (banned : List Host) (s : TcpServer Host Pipe)
      → IsSound s
      → Ensures (λ r. IsSound r.0) (server_step q crypto e banned s)
  unfolding server_step relay_event
  step-IsSound (incoming c) banned s sound =
      Returns→Ensures (λ r. IsSound r.0) _ (incoming_connection-IsSound q c banned s sound)
  step-IsSound (signalled id e) banned s sound =
      relay_step-IsSound id (find id s.con_list) e banned s refl sound
  step-IsSound finished_handled banned s sound = posted-IsSound s.posted s refl sound
  step-IsSound (listened bound) banned s sound = listened-IsSound bound s sound
  step-IsSound closed banned s sound = closed-IsSound s sound

  server_run-IsSound :
      (events : List (ServerEvent Host)) (banned : List Host) (s : TcpServer Host Pipe)
      → IsSound s
      → Ensures (λ r. IsSound r.0) (server_run q crypto events banned s)
  unfolding server_run
  server_run-IsSound [] banned s sound = sound
  server_run-IsSound (e ∷ events) banned s sound =
      Ensures-bind_of (λ r. IsSound r.0) _ (server_step q crypto e banned s) _
        (step-IsSound e banned s sound)
        λ first h.
          Ensures-bind_of (λ r. IsSound r.0) _ (server_run q crypto events first.1 first.0) _
            (server_run-IsSound events first.1 first.0 h) λ rest k. k

module _ {Host : Type 0} where
  pub create-IsSound :
      (Pipe : Type 0) (ep : EncryptorPrivate) (is_local auto_ban : Bool)
      (server_address : Address Host) (concurrency : ℕ)
      → concurrency < 2 ^ 32
      → IsSound {Pipe = Pipe} (create ep is_local auto_ban server_address concurrency)
  unfolding create
  create-IsSound Pipe ep is_local auto_ban server_address concurrency h =
      (positive, bounded, length-replicate total false, omega arith, tt)
    where
      total : ℕ
      total = if concurrency == 0 then 1 else concurrency

      positive : 0 < total
      positive = ground arith

      bounded : total < 2 ^ 64
      bounded = ground arith

module _ {Host Pipe : Type 0} (q : Qt Host) (crypto : Crypto Pipe) where
  -- However a server of less than 2 ^ 32 hardware threads is run from its constructor, as long as
  -- the run returns: its next worker is one of its workers, each of which has a thread, its list
  -- holds different relays, and for each of them that is destroyed a `finished` signal waits in the
  -- event queue of the server.
  pub server_run-create :
      (ep : EncryptorPrivate) (is_local auto_ban : Bool) (server_address : Address Host)
      (concurrency : ℕ) (events : List (ServerEvent Host)) (banned : List Host)
      → concurrency < 2 ^ 32
      → Ensures
          (λ r. IsSound r.0)
          (server_run q crypto events banned
            (create ep is_local auto_ban server_address concurrency))
  server_run-create ep is_local auto_ban server_address concurrency events banned h =
      server_run-IsSound q crypto events banned _
        (create-IsSound Pipe ep is_local auto_ban server_address concurrency h)
