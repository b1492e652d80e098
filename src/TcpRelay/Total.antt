-- ===== src/TcpRelay/Total.antt =====
-- Failures of a relay that has read its request, in lib/tcprelay.cpp.
use shadowsocks_qt.Prelude.{
  ℕ, ◌≡◌, sym, subst, List, [], ◌∷◌, ◌++◌, if◌then◌else◌, if_elim, ok, err, ◌>>=◌, Returns,
  Returns-bind,
}
use shadowsocks_qt.Qt.{Qt}
use shadowsocks_qt.Crypto.{Crypto}
use shadowsocks_qt.Address.{found, failed, on_look_up_finished}
use shadowsocks_qt.Encryptor.{Encryptor, encrypt, decrypt}
use shadowsocks_qt.Encryptor.Sound.{IsSound, encrypt-IsSound, decrypt-IsSound}
use shadowsocks_qt.TcpRelay.{
  Stage, init, addr, udp_assoc, dns, connecting, stream, destroyed, TcpRelay, Effect, timer_start,
  Event, local_ready_read, remote_ready_read, looked_up, remote_connected, local_error,
  remote_error, local_disconnected, remote_disconnected, timeout, on_dns_resolved,
  on_remote_connected, on_local_data, on_local_ready_read, on_remote_ready_read, on_answer,
  on_socket_error, on_timeout, close, step, run, is_empty, is_destroyed, the_server, the_remote,
  after, Outcome, and_timer,
}
use shadowsocks_qt.TcpRelay.Connections.{IsPast}

module _ {Host Pipe : Type 0} (q : Qt Host) (crypto : Crypto Pipe) where
  -- Past its request, with ciphers that work.
  abbrev pub IsFit : TcpRelay Host Pipe → Type 0
  IsFit s = IsPast s.stage × IsSound crypto s.encryptor

  abbrev IsFitOutcome : TcpRelay Host Pipe × List (Effect Host) → Type 0
  IsFitOutcome r = IsFit r.0

  close-IsFit : (s : TcpRelay Host Pipe) → IsFit s → IsFit (close s).0
  unfolding close
  close-IsFit s f =
      if_elim (λ (r : TcpRelay Host Pipe × List (Effect Host)). IsFit r.0) (is_destroyed s.stage)
        (λ _. f) (λ _. (tt, f.1))

  -- The test that each stage makes: a local relay encrypts first.
  encrypted-IsFit :
      (s : TcpRelay Host Pipe) (input : List ℕ)
      (g : Encryptor Pipe × List ℕ → TcpRelay Host Pipe × List (Effect Host))
      (other : Outcome Host Pipe)
      → IsFit s
      → ((r : Encryptor Pipe × List ℕ) → IsSound crypto r.0 → IsFit (g r).0)
      → Returns IsFitOutcome other
      → Returns IsFitOutcome
          (if s.is_local then (encrypt crypto s.encryptor input >>= λ r. ok (g r)) else other)
  encrypted-IsFit s input g other f keeps else_fit =
      if_elim (Returns IsFitOutcome) s.is_local
        (λ _.
          Returns-bind (λ r. IsSound crypto r.0) IsFitOutcome (encrypt crypto s.encryptor input) _
            (encrypt-IsSound crypto s.encryptor input f.1) keeps)
        (λ _. else_fit)

  data-IsFit :
      (st : Stage) (input : List ℕ) (s : TcpRelay Host Pipe)
      → IsPast st
      → IsFit s
      → Returns IsFitOutcome (on_local_data q crypto st input s)
  unfolding on_local_data
  data-IsFit stream input s past f = encrypted-IsFit s input _ _ f (λ r sound. (f.0, sound)) f
  data-IsFit connecting input s past f = encrypted-IsFit s input _ _ f (λ r sound. (f.0, sound)) f
  data-IsFit dns input s past f = encrypted-IsFit s input _ _ f (λ r sound. (f.0, sound)) f
  data-IsFit udp_assoc input s past f = f
  data-IsFit destroyed input s past f = f
  data-IsFit init input s past f = elim past [ ]
  data-IsFit addr input s past f = elim past [ ]

  local-IsFit :
      (input : List ℕ) (s : TcpRelay Host Pipe)
      → IsFit s
      → Returns IsFitOutcome (on_local_ready_read q crypto input s)
  unfolding on_local_ready_read
  local-IsFit input s f =
      if_elim (Returns IsFitOutcome) (is_empty input) (λ _. close-IsFit s f)
        (λ _.
          if_elim (Returns IsFitOutcome) s.is_local (λ _. data-IsFit s.stage input s f.0 f)
            (λ _.
              Returns-bind (λ r. IsSound crypto r.0) IsFitOutcome (decrypt crypto s.encryptor input)
                _ (decrypt-IsSound crypto s.encryptor input f.1)
                (λ r sound.
                  if_elim (Returns IsFitOutcome) (is_empty r.1) (λ _. (f.0, sound))
                    (λ _. data-IsFit s.stage r.1 (record s { encryptor = r.0 }) f.0 (f.0, sound)))))

  remote-IsFit :
      (input : List ℕ) (s : TcpRelay Host Pipe)
      → IsFit s
      → Returns IsFitOutcome (on_remote_ready_read q crypto input s)
  unfolding on_remote_ready_read
  remote-IsFit input s f =
      if_elim (Returns IsFitOutcome) (is_empty input) (λ _. close-IsFit s f)
        (λ _.
          Returns-bind (λ r. IsSound crypto r.0) IsFitOutcome
            (if s.is_local
              then decrypt crypto s.encryptor input
              else encrypt crypto s.encryptor input)
            _
            (if_elim (Returns (λ r. IsSound crypto r.0)) s.is_local
              (λ _. decrypt-IsSound crypto s.encryptor input f.1)
              (λ _. encrypt-IsSound crypto s.encryptor input f.1))
            (λ r sound. (f.0, sound)))

  step-IsFit :
      (e : Event Host) (s : TcpRelay Host Pipe) → IsFit s → Returns IsFitOutcome (step q crypto e s)
  unfolding step on_socket_error on_timeout on_remote_connected on_answer on_dns_resolved
      on_look_up_finished
  step-IsFit (local_ready_read bytes) s f =
      Returns-bind IsFitOutcome IsFitOutcome (on_local_ready_read q crypto bytes s) and_timer
        (local-IsFit bytes s f) (λ r fit. fit)
  step-IsFit (remote_ready_read bytes) s f =
      Returns-bind IsFitOutcome IsFitOutcome (on_remote_ready_read q crypto bytes s) and_timer
        (remote-IsFit bytes s f) (λ r fit. fit)
  step-IsFit (looked_up the_server (found hosts)) s f = (tt, f.1)
  step-IsFit (looked_up the_remote (found hosts)) s f = (tt, f.1)
  step-IsFit (looked_up the_server failed) s f = close-IsFit s f
  step-IsFit (looked_up the_remote failed) s f = close-IsFit s f
  step-IsFit remote_connected s f = (tt, f.1)
  step-IsFit (local_error is_error) s f = close-IsFit s f
  step-IsFit (remote_error is_error) s f = close-IsFit s f
  step-IsFit local_disconnected s f = close-IsFit s f
  step-IsFit remote_disconnected s f = close-IsFit s f
  step-IsFit timeout s f = close-IsFit s f

  pub run-IsFit :
      (events : List (Event Host)) (s : TcpRelay Host Pipe)
      → IsFit s
      → Returns IsFitOutcome (run q crypto events s)
  unfolding run
  run-IsFit [] s f = f
  run-IsFit (e ∷ events) s f =
      Returns-bind IsFitOutcome IsFitOutcome (step q crypto e s) _ (step-IsFit e s f) (λ r fit.
        Returns-bind IsFitOutcome IsFitOutcome (run q crypto events r.0) (after r.1)
          (run-IsFit events r.0 fit) (λ x k. k))

  -- The same from the piece on that brings the request.
  pub first-IsFit :
      (s s1 : TcpRelay Host Pipe) (es1 : List (Effect Host)) (bytes : List ℕ)
      (events : List (Event Host))
      → on_local_ready_read q crypto bytes s ≡ ok (s1, es1)
      → IsFit s1
      → Returns IsFitOutcome (run q crypto (local_ready_read bytes ∷ events) s)
  unfolding run step
  first-IsFit s s1 es1 bytes events first fit =
      subst
        (λ m.
          Returns IsFitOutcome ((m >>= and_timer) >>= λ r. (run q crypto events r.0 >>= after r.1)))
        (sym first)
        (Returns-bind IsFitOutcome IsFitOutcome (run q crypto events s1)
          (after (es1 ++ timer_start ∷ [])) (run-IsFit events s1 fit) (λ x k. k))

  pub returned :
      (m : Outcome Host Pipe) → Returns IsFitOutcome m → Returns (λ r. IsPast r.0.stage) m
  returned (ok r) f = f.0
  returned (err e) f = elim f [ ]
