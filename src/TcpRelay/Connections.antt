-- ===== src/TcpRelay/Connections.antt =====
-- The connections that a relay begins, in lib/tcprelay.cpp.
use std.Path.{fun_ext}
use shadowsocks_qt.Prelude.{
  ℕ, ◌≡◌, refl, sym, ap, ap₂, subst, Bool, true, false, ◌∙◌, List, [], ◌∷◌, ◌++◌, append-nil,
  if◌then◌else◌, if_elim, ok, ◌>>=◌, Never, Ensures, Ensures-bind, Ensures-bind_of,
}
use shadowsocks_qt.Qt.{Qt}
use shadowsocks_qt.Crypto.{Crypto}
use shadowsocks_qt.Address.{found, failed, get_first_ip, on_look_up_finished}
use shadowsocks_qt.Encryptor.{encrypt, decrypt}
use shadowsocks_qt.TcpRelay.{
  Stage, init, addr, udp_assoc, dns, connecting, stream, destroyed, TcpRelay, Effect, info, debug,
  local_write, remote_write, local_close, remote_close, finished, ban, resolve, connect_to,
  bytes_read, latency_available, timer_start, Event, local_ready_read, remote_ready_read, looked_up,
  remote_connected, local_error, remote_error, local_disconnected, remote_disconnected, timeout,
  flushed, on_dns_resolved, on_remote_connected, on_local_data, on_local_ready_read,
  on_remote_ready_read, on_answer, on_socket_error, on_timeout, close, closing, this_closing, step,
  run, is_empty, is_destroyed, Which, the_server, the_remote, after, Outcome, and_timer,
}

-- Where effects connect to.
unfoldable pub connections : {Host : Type 0} → List (Effect Host) → List (Host × ℕ)
connections [] = []
connections (connect_to h p ∷ es) = (h, p) ∷ connections es
connections (_ ∷ es) = connections es

pub connections-append :
    {Host : Type 0} (xs ys : List (Effect Host))
    → connections (xs ++ ys) ≡ connections xs ++ connections ys
unfolding connections
connections-append [] ys = refl
connections-append (connect_to h p ∷ es) ys = ap (◌∷◌ (h, p)) (connections-append es ys)
connections-append (info ∷ es) ys = connections-append es ys
connections-append (debug ∷ es) ys = connections-append es ys
connections-append (local_write bytes ∷ es) ys = connections-append es ys
connections-append (remote_write bytes ∷ es) ys = connections-append es ys
connections-append (local_close ∷ es) ys = connections-append es ys
connections-append (remote_close ∷ es) ys = connections-append es ys
connections-append (finished ∷ es) ys = connections-append es ys
connections-append (ban h ∷ es) ys = connections-append es ys
connections-append (resolve w name ∷ es) ys = connections-append es ys
connections-append (bytes_read n ∷ es) ys = connections-append es ys
connections-append (latency_available ∷ es) ys = connections-append es ys
connections-append (timer_start ∷ es) ys = connections-append es ys

-- What effects ask the resolver.
unfoldable pub questions : {Host : Type 0} → List (Effect Host) → List (Which × List ℕ)
questions [] = []
questions (resolve which name ∷ es) = (which, name) ∷ questions es
questions (_ ∷ es) = questions es

pub questions-append :
    {Host : Type 0} (xs ys : List (Effect Host))
    → questions (xs ++ ys) ≡ questions xs ++ questions ys
unfolding questions
questions-append [] ys = refl
questions-append (resolve which name ∷ es) ys = ap (◌∷◌ (which, name)) (questions-append es ys)
questions-append (info ∷ es) ys = questions-append es ys
questions-append (debug ∷ es) ys = questions-append es ys
questions-append (local_write bytes ∷ es) ys = questions-append es ys
questions-append (remote_write bytes ∷ es) ys = questions-append es ys
questions-append (local_close ∷ es) ys = questions-append es ys
questions-append (remote_close ∷ es) ys = questions-append es ys
questions-append (finished ∷ es) ys = questions-append es ys
questions-append (ban h ∷ es) ys = questions-append es ys
questions-append (connect_to h p ∷ es) ys = questions-append es ys
questions-append (bytes_read n ∷ es) ys = questions-append es ys
questions-append (latency_available ∷ es) ys = questions-append es ys
questions-append (timer_start ∷ es) ys = questions-append es ys

connections-flushed :
    (Host : Type 0) (waiting : List ℕ) → connections {Host = Host} (flushed waiting) ≡ []
unfolding connections flushed
connections-flushed Host [] = refl
connections-flushed Host (b ∷ bs) = refl

questions-flushed :
    (Host : Type 0) (waiting : List ℕ) → questions {Host = Host} (flushed waiting) ≡ []
unfolding questions flushed
questions-flushed Host [] = refl
questions-flushed Host (b ∷ bs) = refl

-- A relay that has left the stages in which it reads a request.
abbrev pub IsPast : Stage → Type 0
IsPast init = Never
IsPast addr = Never
IsPast _ = Unit

abbrev pub port_of : {Host Pipe : Type 0} → TcpRelay Host Pipe → Which → ℕ
port_of s the_server = s.server_address.port
port_of s the_remote = s.remote_address.port

module _ {Host : Type 0} (q : Qt Host) where
  -- The first host of an answer of the resolver, with the port of the address it is for.
  abbrev answered_by : (Which → ℕ) → Event Host → List (Host × ℕ)
  answered_by ports (looked_up which (found hosts)) =
      (get_first_ip q (record { name = []; port = 0; ip_addr_list = hosts }), ports which) ∷ []
  answered_by ports _ = []

  abbrev pub answered : (Which → ℕ) → List (Event Host) → List (Host × ℕ)
  answered ports [] = []
  answered ports (e ∷ events) = answered_by ports e ++ answered ports events

pub closing_begins :
    (Host : Type 0) (c : Bool × Bool)
    → (connections {Host = Host} (closing c) ≡ []) × (questions {Host = Host} (closing c) ≡ [])
unfolding connections questions
closing_begins Host (false, false) = (refl, refl)
closing_begins Host (false, true) = (refl, refl)
closing_begins Host (true, false) = (refl, refl)
closing_begins Host (true, true) = (refl, refl)

module _ {Host Pipe : Type 0} where
  -- What a step of such a relay leaves as it is, and the connections it begins.
  abbrev Keeps :
      TcpRelay Host Pipe → List (Host × ℕ) → TcpRelay Host Pipe × List (Effect Host) → Type 0
  Keeps s l r =
      IsPast r.0.stage
      × (r.0.server_address.port ≡ s.server_address.port)
      × (r.0.remote_address.port ≡ s.remote_address.port)
      × (connections r.1 ≡ l)
      × (questions r.1 ≡ [])

  close-Keeps : (s : TcpRelay Host Pipe) → IsPast s.stage → Keeps s [] (close s)
  unfolding close connections questions
  close-Keeps s past =
      let quiet = closing_begins Host (this_closing s.closings) in
      if_elim (Keeps s []) (is_destroyed s.stage) (λ _. (past, refl, refl, refl, refl))
        (λ _. (tt, refl, refl, quiet.0, quiet.1))

module _ {Host Pipe : Type 0} (q : Qt Host) (crypto : Crypto Pipe) where
  data-Keeps :
      (st : Stage) (input : List ℕ) (s : TcpRelay Host Pipe)
      → IsPast st
      → IsPast s.stage
      → Ensures (Keeps s []) (on_local_data q crypto st input s)
  unfolding on_local_data connections questions
  data-Keeps stream input s past now =
      if_elim (Ensures (Keeps s [])) s.is_local
        (λ _.
          Ensures-bind (Keeps s []) (encrypt crypto s.encryptor input) _
            (λ r. (now, refl, refl, refl, refl)))
        (λ _. (now, refl, refl, refl, refl))
  data-Keeps connecting input s past now =
      if_elim (Ensures (Keeps s [])) s.is_local
        (λ _.
          Ensures-bind (Keeps s []) (encrypt crypto s.encryptor input) _
            (λ r. (now, refl, refl, refl, refl)))
        (λ _. (now, refl, refl, refl, refl))
  data-Keeps dns input s past now =
      if_elim (Ensures (Keeps s [])) s.is_local
        (λ _.
          Ensures-bind (Keeps s []) (encrypt crypto s.encryptor input) _
            (λ r. (now, refl, refl, refl, refl)))
        (λ _. (now, refl, refl, refl, refl))
  data-Keeps udp_assoc input s past now = (now, refl, refl, refl, refl)
  data-Keeps destroyed input s past now = (now, refl, refl, refl, refl)
  data-Keeps init input s past now = elim past [ ]
  data-Keeps addr input s past now = elim past [ ]

  local-Keeps :
      (input : List ℕ) (s : TcpRelay Host Pipe)
      → IsPast s.stage
      → Ensures (Keeps s []) (on_local_ready_read q crypto input s)
  unfolding on_local_ready_read connections questions
  local-Keeps input s past =
      if_elim (Ensures (Keeps s [])) (is_empty input) (λ _. close-Keeps s past)
        (λ _.
          if_elim (Ensures (Keeps s [])) s.is_local (λ _. data-Keeps s.stage input s past past)
            (λ _. Ensures-bind (Keeps s []) (decrypt crypto s.encryptor input) _ (λ r.
              if_elim (Ensures (Keeps s [])) (is_empty r.1) (λ _. (past, refl, refl, refl, refl))
                (λ _. data-Keeps s.stage r.1 (record s { encryptor = r.0 }) past past))))

  remote-Keeps :
      (input : List ℕ) (s : TcpRelay Host Pipe)
      → IsPast s.stage
      → Ensures (Keeps s []) (on_remote_ready_read q crypto input s)
  unfolding on_remote_ready_read connections questions
  remote-Keeps input s past =
      if_elim (Ensures (Keeps s [])) (is_empty input) (λ _. close-Keeps s past)
        (λ _.
          Ensures-bind (Keeps s [])
            (if s.is_local
              then decrypt crypto s.encryptor input
              else encrypt crypto s.encryptor input)
            _ (λ r. (past, refl, refl, refl, refl)))

  timer-Keeps :
      (s : TcpRelay Host Pipe) (m : Outcome Host Pipe)
      → Ensures (Keeps s []) m
      → Ensures (Keeps s []) (m >>= and_timer)
  unfolding connections questions
  timer-Keeps s m k = Ensures-bind_of (Keeps s []) (Keeps s []) m and_timer k (λ r kept. (
    kept.0,
    kept.1,
    kept.2,
    connections-append r.1 (timer_start ∷ []) ∙ append-nil (connections r.1) ∙ kept.3,
    questions-append r.1 (timer_start ∷ []) ∙ append-nil (questions r.1) ∙ kept.4,
  ))

  step-Keeps :
      (e : Event Host) (s : TcpRelay Host Pipe)
      → IsPast s.stage
      → Ensures (Keeps s (answered_by q (port_of s) e)) (step q crypto e s)
  unfolding step connections questions on_socket_error on_timeout on_remote_connected on_answer
      on_dns_resolved on_look_up_finished get_first_ip
  step-Keeps (local_ready_read bytes) s past =
      timer-Keeps s (on_local_ready_read q crypto bytes s) (local-Keeps bytes s past)
  step-Keeps (remote_ready_read bytes) s past =
      timer-Keeps s (on_remote_ready_read q crypto bytes s) (remote-Keeps bytes s past)
  step-Keeps (looked_up the_server (found hosts)) s past = (tt, refl, refl, refl, refl)
  step-Keeps (looked_up the_remote (found hosts)) s past = (tt, refl, refl, refl, refl)
  step-Keeps (looked_up the_server failed) s past = close-Keeps s past
  step-Keeps (looked_up the_remote failed) s past = close-Keeps s past
  step-Keeps remote_connected s past = (
    tt,
    refl,
    refl,
    connections-flushed Host s.data_to_write,
    questions-flushed Host s.data_to_write,
  )
  step-Keeps (local_error true) s past = close-Keeps s past
  step-Keeps (local_error false) s past = close-Keeps s past
  step-Keeps (remote_error true) s past = close-Keeps s past
  step-Keeps (remote_error false) s past = close-Keeps s past
  step-Keeps local_disconnected s past = close-Keeps s past
  step-Keeps remote_disconnected s past = close-Keeps s past
  step-Keeps timeout s past = close-Keeps s past

  same_ports :
      (s s' : TcpRelay Host Pipe)
      → s'.server_address.port ≡ s.server_address.port
      → s'.remote_address.port ≡ s.remote_address.port
      → (which : Which) → port_of s' which ≡ port_of s which
  same_ports s s' h k the_server = h
  same_ports s s' h k the_remote = k

  -- The connections of effects, and what they ask.
  abbrev pub Begins :
      List (Host × ℕ) → List (Which × List ℕ) → TcpRelay Host Pipe × List (Effect Host) → Type 0
  Begins l asks r = (connections r.1 ≡ l) × (questions r.1 ≡ asks)

  -- Once a relay has read its request, it asks the resolver nothing and connects only where an
  -- answer says: to the first host of each answer, with the port of the address that was looked up.
  pub run-Begins :
      (events : List (Event Host)) (s : TcpRelay Host Pipe)
      → IsPast s.stage
      → Ensures (Begins (answered q (port_of s) events) []) (run q crypto events s)
  unfolding run connections questions
  run-Begins [] s past = (refl, refl)
  run-Begins (e ∷ events) s past =
      let P = Begins (answered q (port_of s) (e ∷ events)) [] in
      Ensures-bind_of (Keeps s (answered_by q (port_of s) e)) P (step q crypto e s) _
        (step-Keeps e s past)
        (λ r kept.
          Ensures-bind_of (Begins (answered q (port_of r.0) events) []) P (run q crypto events r.0)
            (after r.1) (run-Begins events r.0 kept.0)
            (λ x rest. (
              connections-append r.1 x.1
                  ∙ ap (λ w. w ++ connections x.1) kept.3
                  ∙ ap (λ w. answered_by q (port_of s) e ++ w)
                      (rest.0
                        ∙ ap (λ ports. answered q ports events)
                            (fun_ext (same_ports s r.0 kept.1 kept.2))),
              questions-append r.1 x.1 ∙ ap₂ ◌++◌ kept.4 rest.1,
            )))

  -- The same from the piece on that brings the request.
  pub first-Begins :
      (s s1 : TcpRelay Host Pipe) (es1 : List (Effect Host)) (bytes : List ℕ)
      (events : List (Event Host))
      → on_local_ready_read q crypto bytes s ≡ ok (s1, es1)
      → IsPast s1.stage
      → Ensures
          (Begins (connections es1 ++ answered q (port_of s1) events) (questions es1))
          (run q crypto (local_ready_read bytes ∷ events) s)
  unfolding run step connections questions
  first-Begins s s1 es1 bytes events first past =
      let P = Begins (connections es1 ++ answered q (port_of s1) events) (questions es1) in
      subst (λ m. Ensures P ((m >>= and_timer) >>= λ r. (run q crypto events r.0 >>= after r.1)))
        (sym first)
        (Ensures-bind_of (Begins (answered q (port_of s1) events) []) P (run q crypto events s1)
          (after (es1 ++ timer_start ∷ [])) (run-Begins events s1 past)
          (λ x rest. (
            connections-append (es1 ++ timer_start ∷ []) x.1
                ∙ ap (λ w. w ++ connections x.1)
                    (connections-append es1 (timer_start ∷ []) ∙ append-nil (connections es1))
                ∙ ap (λ w. connections es1 ++ w) rest.0,
            questions-append (es1 ++ timer_start ∷ []) x.1
                ∙ ap (λ w. w ++ questions x.1)
                    (questions-append es1 (timer_start ∷ []) ∙ append-nil (questions es1))
                ∙ ap (λ w. questions es1 ++ w) rest.1
                ∙ append-nil (questions es1),
          )))
