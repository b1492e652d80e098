-- ===== src/TcpRelay/Upstream.antt =====
-- The bytes for the remote socket, in lib/tcprelay.cpp: which events add to them, and which are
-- written.
use shadowsocks_qt.Prelude.{
  ℕ, ◌≡◌, refl, List, [], ◌∷◌, ◌++◌, append-nil, append_assoc, Bool, if◌then◌else◌, Result, ok,
  ◌>>=◌, Never, joined,
}
use shadowsocks_qt.Crypto.{Crypto}
use shadowsocks_qt.Address.{found, failed}
use shadowsocks_qt.Encryptor.{Encryptor, encrypt, decrypt}
use shadowsocks_qt.TcpRelay.{
  Stage, init, addr, udp_assoc, dns, connecting, stream, destroyed, TcpRelay, Effect, info, debug,
  local_write, remote_write, local_close, remote_close, finished, ban, resolve, connect_to,
  bytes_read, latency_available, timer_start, Event, local_ready_read, remote_ready_read, looked_up,
  remote_connected, local_error, remote_error, local_disconnected, remote_disconnected, timeout,
  flushed,
}

-- A relay from its request on: its name is looked up, it connects, or the stream runs, and then
-- nothing waits.
abbrev pub IsOpenAt : Stage → List ℕ → Type 0
IsOpenAt dns waiting = Unit
IsOpenAt connecting waiting = Unit
IsOpenAt stream waiting = waiting ≡ []
IsOpenAt init waiting = Never
IsOpenAt addr waiting = Never
IsOpenAt udp_assoc waiting = Never
IsOpenAt destroyed waiting = Never

abbrev pub IsOpen : {Host Pipe : Type 0} → TcpRelay Host Pipe → Type 0
IsOpen s = IsOpenAt s.stage s.data_to_write

-- The events of a connection that goes well.
abbrev pub IsTraffic : {Host : Type 0} → Event Host → Type 0
IsTraffic (local_ready_read []) = Never
IsTraffic (local_ready_read (b ∷ bs)) = Unit
IsTraffic (remote_ready_read []) = Never
IsTraffic (remote_ready_read (b ∷ bs)) = Unit
IsTraffic (looked_up which failed) = Never
IsTraffic (looked_up which (found hosts)) = Unit
IsTraffic remote_connected = Unit
IsTraffic (local_error e) = Never
IsTraffic (remote_error e) = Never
IsTraffic local_disconnected = Never
IsTraffic remote_disconnected = Never
IsTraffic timeout = Never

abbrev pub AreTraffic : {Host : Type 0} → List (Event Host) → Type 0
AreTraffic [] = Unit
AreTraffic (e ∷ es) = IsTraffic e × AreTraffic es

-- The bytes that effects write to the remote socket.
unfoldable pub upstream : {Host : Type 0} → List (Effect Host) → List ℕ
upstream [] = []
upstream (remote_write bytes ∷ es) = bytes ++ upstream es
upstream (_ ∷ es) = upstream es

pub upstream-append :
    {Host : Type 0} (xs ys : List (Effect Host)) → upstream (xs ++ ys) ≡ upstream xs ++ upstream ys
unfolding upstream
upstream-append [] ys = refl
upstream-append (remote_write bytes ∷ es) ys = rw (upstream-append es ys, append_assoc)
upstream-append (info ∷ es) ys = upstream-append es ys
upstream-append (debug ∷ es) ys = upstream-append es ys
upstream-append (local_write bytes ∷ es) ys = upstream-append es ys
upstream-append (local_close ∷ es) ys = upstream-append es ys
upstream-append (remote_close ∷ es) ys = upstream-append es ys
upstream-append (finished ∷ es) ys = upstream-append es ys
upstream-append (ban h ∷ es) ys = upstream-append es ys
upstream-append (resolve w name ∷ es) ys = upstream-append es ys
upstream-append (connect_to h p ∷ es) ys = upstream-append es ys
upstream-append (bytes_read n ∷ es) ys = upstream-append es ys
upstream-append (latency_available ∷ es) ys = upstream-append es ys
upstream-append (timer_start ∷ es) ys = upstream-append es ys

pub upstream-flushed :
    (Host : Type 0) (waiting : List ℕ) → upstream {Host = Host} (flushed waiting) ≡ waiting
unfolding upstream flushed
upstream-flushed Host [] = refl
upstream-flushed Host (b ∷ bs) = append-nil (b ∷ bs)

module _ {Host Pipe : Type 0} (crypto : Crypto Pipe) where
  -- What an event adds to the stream for the remote side, and the ciphers after it: the bytes of
  -- the local socket encrypted, on the local side, or decrypted, on the server.
  unfoldable pub carried : Bool → Event Host → Encryptor Pipe → Result (Encryptor Pipe × List ℕ)
  carried is_local (local_ready_read bytes) e =
      if is_local then encrypt crypto e bytes else decrypt crypto e bytes
  carried is_local (remote_ready_read bytes) e =
      (if is_local then decrypt crypto e bytes else encrypt crypto e bytes) >>= λ r. ok (r.0, [])
  carried is_local _ e = ok (e, [])

  unfoldable pub all_carried :
      Bool → List (Event Host) → Encryptor Pipe → Result (Encryptor Pipe × List ℕ)
  unfolding carried
  all_carried is_local [] e = ok (e, [])
  all_carried is_local (event ∷ events) e =
      carried is_local event e >>= λ r. (all_carried is_local events r.0 >>= joined r.1)

-- What left for the remote side, and what waits behind it.
abbrev pub passed_on :
    {Host Pipe : Type 0}
    → TcpRelay Host Pipe × List (Effect Host)
    → Result (Encryptor Pipe × List ℕ)
passed_on r = ok (r.0.encryptor, upstream r.1 ++ r.0.data_to_write)
