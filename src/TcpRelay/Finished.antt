-- ===== src/TcpRelay/Finished.antt =====
-- The signal `finished` of lib/tcprelay.cpp.
use shadowsocks_qt.Prelude.{
  ℕ, ◌≡◌, inl, inr, Bool-cases, if◌then◌else◌, Ensures-map, refl, true, false, Ensures, arith,
}
use shadowsocks_qt.Qt.{Qt}
use shadowsocks_qt.Crypto.{Crypto}
use shadowsocks_qt.Address.{on_look_up_finished}
use shadowsocks_qt.TcpRelay.{
  TcpRelay, Event, local_ready_read, remote_ready_read, looked_up, remote_connected, local_error,
  remote_error, local_disconnected, remote_disconnected, timeout, is_destroyed, this_closing,
  on_socket_error, on_timeout, on_remote_connected, on_answer, step, the_server, the_remote,
}
use shadowsocks_qt.TcpRelay.Balances.{
  finishes, emissions, IsLive, Balances, close-Balances, flushed_none, dns_resolved-Balances,
  and_timer-Balances, local-Balances, remote-Balances,
}

module _ {Host Pipe : Type 0} (q : Qt Host) (crypto : Crypto Pipe) where
  step-Balances :
      (n : ℕ) (e : Event Host) (s : TcpRelay Host Pipe)
      → IsLive n s
      → Ensures (Balances n) (step q crypto e s)
  unfolding step on_answer on_socket_error on_timeout on_remote_connected finishes
  step-Balances n (local_ready_read bytes) s live =
      and_timer-Balances n q crypto _ (local-Balances n q crypto bytes s live)
  step-Balances n (remote_ready_read bytes) s live =
      and_timer-Balances n q crypto _ (remote-Balances n q crypto bytes s live)
  step-Balances n (looked_up the_server answer) s live =
      let (a, success) = on_look_up_finished s.server_address answer in
      dns_resolved-Balances n q crypto the_server success (record s { server_address = a }) live
  step-Balances n (looked_up the_remote answer) s live =
      let (a, success) = on_look_up_finished s.remote_address answer in
      dns_resolved-Balances n q crypto the_remote success (record s { remote_address = a }) live
  step-Balances n remote_connected s live = omega (arith, flushed_none Host s.data_to_write)
  step-Balances n (local_error true) s live = close-Balances n s live
  step-Balances n (local_error false) s live = close-Balances n s live
  step-Balances n (remote_error true) s live = close-Balances n s live
  step-Balances n (remote_error false) s live = close-Balances n s live
  step-Balances n local_disconnected s live = close-Balances n s live
  step-Balances n remote_disconnected s live = close-Balances n s live
  step-Balances n timeout s live = close-Balances n s live

  -- Each event that a live relay handles, if its slot returns, in every stage and on both sides:
  -- either leaves it alive and emits no `finished`, or destroys it and emits `finished` once, and
  -- once more for each of its two sockets that emits `disconnected` while it is closed.
  pub step-finished :
      (e : Event Host) (s : TcpRelay Host Pipe)
      → is_destroyed s.stage ≡ false
      → Ensures
          (λ r.
            finishes r.1
            ≡ (if is_destroyed r.0.stage then emissions (this_closing s.closings) else 0))
          (step q crypto e s)
  step-finished e s live =
      let n = emissions (this_closing s.closings) in
      Ensures-map (Balances n) _ (step q crypto e s) (step-Balances n e s (live, refl)) (λ r h.
        elim (Bool-cases (is_destroyed r.0.stage)) [
          | inl dead ↦ rw dead (omega (arith, rw dead at h))
          | inr lives ↦ rw lives (omega (arith, rw lives at h))
        ])
