-- ===== src/TcpServer/Life.antt =====
-- The relays over the whole life of a server of lib/tcpserver.cpp: each is deleted once.
use shadowsocks_qt.Prelude.{
  ℕ, ◌+◌, ◌≡◌, refl, List, [], ◌∷◌, ◌++◌, map, Bool, true, false, ◌==◌, ltb, Bool-cases, inl, inr,
  if◌then◌else◌, Option, none, some, get_elem?, or_fail, bad_read, Ensures, Ensures-bind,
  Ensures-bind_of, Ensures-map, arith,
}
use shadowsocks_qt.Qt.{Qt}
use shadowsocks_qt.Crypto.{Crypto}
use shadowsocks_qt.Address.{Address}
use shadowsocks_qt.EncryptorPrivate.{EncryptorPrivate}
use shadowsocks_qt.TcpRelay
use shadowsocks_qt.TcpRelay.{
  TcpRelay, Effect, finished, ban, info, debug, local_write, remote_write, local_close,
  remote_close, resolve, connect_to, bytes_read, latency_available, timer_start, Event, step,
}
use shadowsocks_qt.TcpServer.{
  TcpServer, ServerEffect, refused, moved_to, deleted, of_relay, Connection, ServerEvent, incoming,
  signalled, finished_handled, listened, closed, find, has, remove_one, replace, create,
  on_connection_finished, incoming_connection, on_effect, deliver, relay_step, relay_event,
  run_posted, listen, close, destroy, server_step, server_run, is_refused,
}

abbrev one_if : Bool → ℕ
one_if true = 1
one_if false = 0

-- How often a relay is in a list, and how often effects delete it.
occurrences : {V : Type 0} → ℕ → List (ℕ × V) → ℕ
occurrences j [] = 0
occurrences j ((i, v) ∷ l) = one_if (i == j) + occurrences j l

pub deletions : {Host : Type 0} → ℕ → List (ServerEffect Host) → ℕ
deletions j [] = 0
deletions j (deleted i ∷ es) = one_if (i == j) + deletions j es
deletions j (_ ∷ es) = deletions j es

deletions-append :
    {Host : Type 0} (j : ℕ) (xs ys : List (ServerEffect Host))
    → deletions j (xs ++ ys) ≡ deletions j xs + deletions j ys
unfolding deletions
deletions-append j [] ys = omega arith
deletions-append j (deleted i ∷ xs) ys = omega (arith, deletions-append j xs ys)
deletions-append j (refused ∷ xs) ys = deletions-append j xs ys
deletions-append j (moved_to i t ∷ xs) ys = deletions-append j xs ys
deletions-append j (of_relay i e ∷ xs) ys = deletions-append j xs ys

module _ {V : Type 0} where
  occurrences-append :
      (j i : ℕ) (v : V) (l : List (ℕ × V))
      → occurrences j (l ++ (i, v) ∷ []) ≡ occurrences j l + one_if (i == j)
  unfolding occurrences
  occurrences-append j i v [] = omega arith
  occurrences-append j i v ((k, w) ∷ l) = omega (arith, occurrences-append j i v l)

  occurrences-replace :
      (j id : ℕ) (v : V) (l : List (ℕ × V)) → occurrences j (replace id v l) ≡ occurrences j l
  unfolding occurrences
  occurrences-replace j id v [] = refl
  occurrences-replace j id v ((i, w) ∷ l) = ground (arith, occurrences-replace j id v l)

  occurrences-remove :
      (j id : ℕ) (l : List (ℕ × V))
      → has id l ≡ true
      → one_if (id == j) + occurrences j (remove_one id l) ≡ occurrences j l
  unfolding occurrences
  occurrences-remove j id [] h = cc
  occurrences-remove j id ((i, w) ∷ l) h = ground (arith, occurrences-remove j id l)

module _ {Host Pipe : Type 0} (j : ℕ) where
  deletions-list :
      (l : List (ℕ × TcpRelay Host Pipe))
      → deletions {Host = Host} j (map (λ con. deleted con.0) l) ≡ occurrences j l
  unfolding deletions occurrences
  deletions-list [] = refl
  deletions-list ((i, v) ∷ l) = omega (arith, deletions-list l)

  -- What is deleted, what is in the list, and what was made.
  abbrev Accounts : TcpServer Host Pipe → TcpServer Host Pipe → List (ServerEffect Host) → Type 0
  Accounts s s' es =
      deletions j es + occurrences j s'.con_list + one_if (ltb j s.next_relay)
      ≡ occurrences j s.con_list + one_if (ltb j s'.next_relay)

  Accounts-append :
      (s s1 s2 : TcpServer Host Pipe) (es es' : List (ServerEffect Host))
      → Accounts s s1 es
      → Accounts s1 s2 es'
      → Accounts s s2 (es ++ es')
  Accounts-append s s1 s2 es es' a b = omega (arith, a, b, deletions-append j es es')

  finished-Accounts :
      (id : ℕ) (s : TcpServer Host Pipe)
      → Accounts s (on_connection_finished id s).0 (on_connection_finished id s).1
  unfolding on_connection_finished deletions
  finished-Accounts id s = elim (Bool-cases (has id s.con_list)) [
    | inl there ↦ rw there (omega (arith, occurrences-remove j id s.con_list there))
    | inr absent ↦ rw absent (omega arith)
  ]

  posted-Accounts :
      (ids : List ℕ) (s : TcpServer Host Pipe)
      → Accounts s (run_posted ids s).0 (run_posted ids s).1
  unfolding deletions
  posted-Accounts [] s = omega arith
  posted-Accounts (id ∷ ids) s = finished-Accounts id (record s { posted = ids })

  module _ (q : Qt Host) where
    effect-Accounts :
        (id : ℕ) (e : Effect Host) (banned : List Host) (s : TcpServer Host Pipe)
        → let r = on_effect q id e banned s in Accounts s r.0 r.2
    unfolding on_effect deletions
    effect-Accounts id finished banned s = omega arith
    effect-Accounts id info banned s = omega arith
    effect-Accounts id debug banned s = omega arith
    effect-Accounts id (local_write bytes) banned s = omega arith
    effect-Accounts id (remote_write bytes) banned s = omega arith
    effect-Accounts id local_close banned s = omega arith
    effect-Accounts id remote_close banned s = omega arith
    effect-Accounts id (ban h) banned s = omega arith
    effect-Accounts id (resolve w name) banned s = omega arith
    effect-Accounts id (connect_to h p) banned s = omega arith
    effect-Accounts id (bytes_read n) banned s = omega arith
    effect-Accounts id latency_available banned s = omega arith
    effect-Accounts id timer_start banned s = omega arith

    deliver-Accounts :
        (id : ℕ) (es : List (Effect Host)) (banned : List Host) (s : TcpServer Host Pipe)
        → let r = deliver q id es banned s in Accounts s r.0 r.2
    unfolding deliver deletions
    deliver-Accounts id [] banned s = omega arith
    deliver-Accounts id (e ∷ es) banned s =
        let first = on_effect q id e banned s in
        let rest = deliver q id es first.1 first.0 in
        Accounts-append s first.0 rest.0 first.2 rest.2 (effect-Accounts id e banned s)
          (deliver-Accounts id es first.1 first.0)

    incoming-Accounts :
        (c : Connection Host) (banned : List Host) (s : TcpServer Host Pipe)
        → Ensures (λ r. Accounts s r.0 r.2) (incoming_connection q c banned s)
    unfolding incoming_connection deletions
    incoming-Accounts c banned s = elim (Bool-cases (is_refused q c.peer_host banned s)) [
      | inl barred ↦ rw barred (omega arith)
      | inr welcome ↦ rw welcome (
          Ensures-bind (λ r. Accounts s r.0 r.2)
            (or_fail (get_elem? s.thread_list s.worker_thread_id) bad_read) _
            (λ thread.
              made s.next_relay
                (TcpRelay.create s.is_local s.auto_ban s.server_address s.ep c.drawn c.closings
                  c.local_host c.local_port c.peer_host)
                s.con_list))
    ]
      where
        made :
            (next : ℕ) (con : TcpRelay Host Pipe) (l : List (ℕ × TcpRelay Host Pipe))
            → 0 + occurrences j (l ++ (next, con) ∷ []) + one_if (ltb j next)
              ≡ occurrences j l + one_if (ltb j (next + 1))
        made next con l = ground (arith, occurrences-append j next con l)

    module _ (crypto : Crypto Pipe) where
      relay-Accounts :
          (id : ℕ) (con : Option (TcpRelay Host Pipe)) (e : Event Host) (banned : List Host)
          (s : TcpServer Host Pipe)
          → Ensures (λ r. Accounts s r.0 r.2) (relay_step q crypto id con e banned s)
      unfolding deletions
      relay-Accounts id none e banned s = omega arith
      relay-Accounts id (some con) e banned s =
          Ensures-bind (λ r. Accounts s r.0 r.2) (step q crypto e con) _
            (λ r.
              let s1 = record s { con_list = replace id r.0 s.con_list } in
              omega
                (arith, deliver-Accounts id r.1 banned s1, occurrences-replace j id r.0 s.con_list))

      step-Accounts :
          (e : ServerEvent Host) (banned : List Host) (s : TcpServer Host Pipe)
          → Ensures (λ r. Accounts s r.0 r.2) (server_step q crypto e banned s)
      unfolding server_step relay_event listen close deletions
      step-Accounts (incoming c) banned s = incoming-Accounts c banned s
      step-Accounts (signalled id e) banned s = relay-Accounts id (find id s.con_list) e banned s
      step-Accounts finished_handled banned s = posted-Accounts s.posted s
      step-Accounts (listened true) banned s = omega arith
      step-Accounts (listened false) banned s = omega arith
      step-Accounts closed banned s = omega arith

      run-Accounts :
          (events : List (ServerEvent Host)) (banned : List Host) (s : TcpServer Host Pipe)
          → Ensures (λ r. Accounts s r.0 r.2) (server_run q crypto events banned s)
      unfolding server_run deletions
      run-Accounts [] banned s = omega arith
      run-Accounts (e ∷ events) banned s =
          Ensures-bind_of (λ r. Accounts s r.0 r.2) (λ r. Accounts s r.0 r.2)
            (server_step q crypto e banned s) _ (step-Accounts e banned s)
            (λ first a.
              Ensures-bind_of (λ r. Accounts first.0 r.0 r.2) (λ r. Accounts s r.0 r.2)
                (server_run q crypto events first.1 first.0) _ (run-Accounts events first.1 first.0)
                (λ rest b. Accounts-append s first.0 rest.0 first.2 rest.2 a b))

      -- However a server is run from its constructor, as long as the run returns, and then destroyed:
      -- each relay that was made, and no other, is deleted exactly once.
      pub server_run-destroy :
          (ep : EncryptorPrivate) (is_local auto_ban : Bool) (a : Address Host) (concurrency : ℕ)
          (events : List (ServerEvent Host)) (banned : List Host)
          → Ensures
              (λ r. deletions j (r.2 ++ (destroy r.0).1) ≡ (if ltb j r.0.next_relay then 1 else 0))
              (server_run q crypto events banned (create ep is_local auto_ban a concurrency))
      unfolding create destroy occurrences
      server_run-destroy ep is_local auto_ban a concurrency events banned =
          Ensures-map (λ r. Accounts (create ep is_local auto_ban a concurrency) r.0 r.2) _
            (server_run q crypto events banned (create ep is_local auto_ban a concurrency))
            (run-Accounts events banned (create ep is_local auto_ban a concurrency))
            (λ r k. ground (
              arith,
              k,
              deletions-append j r.2 (map (λ con. deleted con.0) r.0.con_list),
              deletions-list r.0.con_list,
            ))
