-- ===== src/AddressTester/Verdicts.antt =====
-- How often the tester of lib/addresstester.cpp answers, and when its timer can run out.
use shadowsocks_qt.Prelude.{
  ℕ, ◌+◌, ◌≡◌, ◌≢◌, ◌↔◌, refl, sym, ap, ◌∙◌, List, [], ◌∷◌, ◌++◌, Bool, true, false, if_elim,
  Ensures, Ensures-bind, Ensures-ok, arith,
}
use shadowsocks_qt.Qt.{Qt}
use shadowsocks_qt.Crypto.{Crypto}
use shadowsocks_qt.AddressTester.{
  SocketState, idle, connecting, connected, AddressTester, Effect, timer_start, timer_stop,
  connect_to, abort, socket_write, connectivity_test_finished, lag_test_finished, test_error_string,
  connect_to_server, start_lag_test, start_connectivity_test, on_timeout, on_socket_error,
  on_socket_ready_read, on_connected, Event, timed_out, failed, connects, ready_read, Can,
  can_time_out, can_fail_to_connect, can_be_cut, can_connect, can_read, step, Run, rests, goes_on,
  test_request,
}

-- How many answers effects hold, of each kind.
unfoldable pub verdicts : {Host : Type 0} → List (Effect Host) → ℕ
verdicts [] = 0
verdicts (connectivity_test_finished online ∷ es) = 1 + verdicts es
verdicts (_ ∷ es) = verdicts es

unfoldable pub lags : {Host : Type 0} → List (Effect Host) → ℕ
lags [] = 0
lags (lag_test_finished lag ∷ es) = 1 + lags es
lags (_ ∷ es) = lags es

-- 0 when the socket is idle, 1 otherwise.
abbrev pub open_tests : SocketState → ℕ
open_tests idle = 0
open_tests connecting = 1
open_tests connected = 1

abbrev is_connecting : SocketState → Bool
is_connecting idle = false
is_connecting connecting = true
is_connecting connected = false

abbrev is_connected : SocketState → Bool
is_connected idle = false
is_connected connecting = false
is_connected connected = true

true≢false : true ≢ false
true≢false h = cc

connecting_of : (t : SocketState) → is_connecting t ≡ true → t ≡ connecting
connecting_of connecting h = refl
connecting_of idle h = cc
connecting_of connected h = cc

module _ {Host : Type 0} where
  verdicts-append : (xs ys : List (Effect Host)) → verdicts (xs ++ ys) ≡ verdicts xs + verdicts ys
  unfolding verdicts
  verdicts-append [] ys = omega arith
  verdicts-append (connectivity_test_finished online ∷ es) ys = omega (arith, verdicts-append es ys)
  verdicts-append (timer_start ms ∷ es) ys = verdicts-append es ys
  verdicts-append (timer_stop ∷ es) ys = verdicts-append es ys
  verdicts-append (connect_to h p ∷ es) ys = verdicts-append es ys
  verdicts-append (abort ∷ es) ys = verdicts-append es ys
  verdicts-append (socket_write bytes ∷ es) ys = verdicts-append es ys
  verdicts-append (lag_test_finished lag ∷ es) ys = verdicts-append es ys
  verdicts-append (test_error_string ∷ es) ys = verdicts-append es ys

  lags-append : (xs ys : List (Effect Host)) → lags (xs ++ ys) ≡ lags xs + lags ys
  unfolding lags
  lags-append [] ys = omega arith
  lags-append (lag_test_finished lag ∷ es) ys = omega (arith, lags-append es ys)
  lags-append (timer_start ms ∷ es) ys = lags-append es ys
  lags-append (timer_stop ∷ es) ys = lags-append es ys
  lags-append (connect_to h p ∷ es) ys = lags-append es ys
  lags-append (abort ∷ es) ys = lags-append es ys
  lags-append (socket_write bytes ∷ es) ys = lags-append es ys
  lags-append (connectivity_test_finished online ∷ es) ys = lags-append es ys
  lags-append (test_error_string ∷ es) ys = lags-append es ys

  -- The timer is active while the socket connects, and only then.
  abbrev IsTicking : AddressTester Host → Type 0
  IsTicking s = s.timer_active ≡ is_connecting s.socket

  Can-timed_out : {s : AddressTester Host} → Can timed_out s → s.timer_active ≡ true
  Can-timed_out (can_time_out h) = h

  Can-ready_read : {s : AddressTester Host} → Can ready_read s → s.socket ≡ connected
  Can-ready_read (can_read h) = h

  Can-connects :
      {ms : ℕ} {drawn : List ℕ} {s : AddressTester Host}
      → Can (connects ms drawn) s
      → s.socket ≡ connecting
  Can-connects (can_connect h) = h

  Can-failed : {s : AddressTester Host} → Can failed s → open_tests s.socket ≡ 1
  Can-failed (can_fail_to_connect h) = rw h refl
  Can-failed (can_be_cut h) = rw h refl

  timed-connecting :
      (s : AddressTester Host) → IsTicking s → Can timed_out s → s.socket ≡ connecting
  timed-connecting s ticks can = connecting_of s.socket (sym ticks ∙ Can-timed_out can)

  one_open : (s : AddressTester Host) → s.socket ≡ connecting → open_tests s.socket ≡ 1
  one_open s h = rw h refl

  one_connected : (s : AddressTester Host) → s.socket ≡ connected → open_tests s.socket ≡ 1
  one_connected s h = rw h refl

module _ {Host Pipe : Type 0} (q : Qt Host) (crypto : Crypto Pipe) where
  -- A connectivity test goes from `s` to `r.0`: it answers when it ends.
  abbrev Judges : AddressTester Host → AddressTester Host × List (Effect Host) → Type 0
  Judges s r =
      (verdicts r.1 + open_tests r.0.socket ≡ open_tests s.socket)
      × IsTicking r.0
      × (r.0.testing_connectivity ≡ true)

  step-Judges :
      (e : Event) (s : AddressTester Host)
      → Can e s
      → IsTicking s
      → s.testing_connectivity ≡ true
      → Ensures (Judges s) (step q crypto e s)
  unfolding step on_timeout on_socket_error on_connected on_socket_ready_read verdicts
  step-Judges timed_out s can ticks tests =
      (sym (one_open s (timed-connecting s ticks can)), refl, tests)
  step-Judges failed s can ticks tests = (sym (Can-failed can), refl, tests)
  step-Judges (connects ms drawn) s can ticks tests =
      if_elim (Ensures (Judges s)) s.testing_connectivity
        (λ _.
          Ensures-bind (Judges s) (test_request q crypto drawn s) _
            λ bytes. (sym (one_open s (Can-connects can)), refl, tests))
        (λ no. absurd (true≢false (sym tests ∙ no)))
  step-Judges ready_read s can ticks tests = (
    sym (one_connected s (Can-ready_read can)),
    ticks ∙ ap is_connecting (Can-ready_read can),
    tests,
  )

  Run-Judges :
      (s t : AddressTester Host) (es : List (Effect Host))
      → Run q crypto s es t
      → IsTicking s
      → s.testing_connectivity ≡ true
      → Judges s (t, es)
  unfolding verdicts
  Run-Judges s t es rests ticks tests = (omega arith, ticks, tests)
  Run-Judges s t es (goes_on {s' = s'} {es = first} {es' = more} e can ran run) ticks tests =
      let h = Ensures-ok (Judges s) (step q crypto e s) (step-Judges e s can ticks tests) ran in
      let k = Run-Judges s' t more run h.1 h.2 in
      (omega (arith, h.0, k.0, verdicts-append first more), k.1, k.2)

  -- From the start of a connectivity test on, whatever signals come and whatever the socket was
  -- doing before: `connectivityTestFinished` has been emitted once if the socket is idle again, and
  -- not at all as long as it is not.
  pub Run-verdicts :
      (s t : AddressTester Host) (method password : List ℕ) (ms : ℕ) (es : List (Effect Host))
      → Run q crypto (start_connectivity_test method password ms s).0 es t
      → verdicts es + open_tests t.socket ≡ 1
  unfolding start_connectivity_test connect_to_server
  Run-verdicts s t method password ms es run = (Run-Judges _ t es run refl refl).0

  -- A lag test goes from `s` to `r.0`: it answers when it ends, and is never connected.
  abbrev Measures : AddressTester Host → AddressTester Host × List (Effect Host) → Type 0
  Measures s r =
      (lags r.1 + open_tests r.0.socket ≡ open_tests s.socket)
      × IsTicking r.0
      × (r.0.testing_connectivity ≡ false)
      × (is_connected r.0.socket ≡ false)

  step-Measures :
      (e : Event) (s : AddressTester Host)
      → Can e s
      → IsTicking s
      → s.testing_connectivity ≡ false
      → is_connected s.socket ≡ false
      → Ensures (Measures s) (step q crypto e s)
  unfolding step on_timeout on_socket_error on_connected on_socket_ready_read lags
  step-Measures timed_out s can ticks tests apart =
      (sym (one_open s (timed-connecting s ticks can)), refl, tests, refl)
  step-Measures failed s can ticks tests apart = (sym (Can-failed can), refl, tests, refl)
  step-Measures (connects ms drawn) s can ticks tests apart =
      if_elim (Ensures (Measures s)) s.testing_connectivity
        (λ yes. absurd (true≢false (sym yes ∙ tests)))
        (λ _. (sym (one_open s (Can-connects can)), refl, tests, refl))
  step-Measures ready_read s can ticks tests apart =
      absurd (true≢false (sym (ap is_connected (Can-ready_read can)) ∙ apart))

  Run-Measures :
      (s t : AddressTester Host) (es : List (Effect Host))
      → Run q crypto s es t
      → IsTicking s
      → s.testing_connectivity ≡ false
      → is_connected s.socket ≡ false
      → Measures s (t, es)
  unfolding lags
  Run-Measures s t es rests ticks tests apart = (omega arith, ticks, tests, apart)
  Run-Measures s t es (goes_on {s' = s'} {es = first} {es' = more} e can ran run) ticks tests
        apart =
      let h =
        Ensures-ok (Measures s) (step q crypto e s) (step-Measures e s can ticks tests apart) ran in
      let k = Run-Measures s' t more run h.1 h.2 h.3 in
      (omega (arith, h.0, k.0, lags-append first more), k.1, k.2, k.3)

  -- From the start of a lag test on, whatever signals come: `lagTestFinished` has been emitted once
  -- if the socket is idle again, and not at all as long as it is not.
  pub Run-lags :
      (s t : AddressTester Host) (ms : ℕ) (es : List (Effect Host))
      → Run q crypto (start_lag_test ms s).0 es t
      → lags es + open_tests t.socket ≡ 1
  unfolding start_lag_test connect_to_server
  Run-lags s t ms es run = (Run-Measures _ t es run refl refl refl).0

  -- From the start of a connectivity test on, the timer can run out exactly as long as the socket is
  -- connecting. So a test that is not connected can always end by the timer, but one that is
  -- connected never does, however long the server is silent.
  pub Run-timed_out :
      (s t : AddressTester Host) (method password : List ℕ) (ms : ℕ) (es : List (Effect Host))
      → Run q crypto (start_connectivity_test method password ms s).0 es t
      → Can timed_out t ↔ (t.socket ≡ connecting)
  unfolding start_connectivity_test connect_to_server
  Run-timed_out s t method password ms es run =
      let ticks = (Run-Judges _ t es run refl refl).1 in
      (timed-connecting t ticks, λ now. can_time_out (ticks ∙ ap is_connecting now))
