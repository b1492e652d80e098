-- ===== src/TcpRelay/Downstream.antt =====
-- What a relay that has its request gives back to the local socket, in lib/tcprelay.cpp.
use shadowsocks_qt.Prelude.{
  ℕ, ◌≡◌, refl, ap, ◌∙◌, List, [], ◌∷◌, ◌++◌, append-nil, append_assoc, false, not, Bool-cases, inl,
  inr, if◌then◌else◌, Result, ok, err, ◌>>=◌, >>=_assoc, joined, Result-cases,
}
use shadowsocks_qt.Qt.{Qt}
use shadowsocks_qt.Crypto.{Crypto}
use shadowsocks_qt.Address.{found, failed, on_look_up_finished}
use shadowsocks_qt.Encryptor.{Encryptor, encrypt, decrypt}
use shadowsocks_qt.TcpRelay.{
  Stage, init, addr, udp_assoc, dns, connecting, stream, destroyed, TcpRelay, Effect, info, debug,
  local_write, remote_write, local_close, remote_close, finished, ban, resolve, connect_to,
  bytes_read, latency_available, timer_start, Event, local_ready_read, remote_ready_read, looked_up,
  remote_connected, local_error, remote_error, local_disconnected, remote_disconnected, timeout,
  flushed, on_dns_resolved, on_remote_connected, on_local_data, on_local_ready_read,
  on_remote_ready_read, on_answer, step, run, is_empty, the_server, the_remote, after, Outcome,
  and_timer,
}
use shadowsocks_qt.TcpRelay.Upstream.{AreTraffic, IsOpen, IsOpenAt, IsTraffic, all_carried, carried}
use shadowsocks_qt.TcpRelay.Transport.{fails, goes, from_event}

-- The bytes that effects write to the local socket.
unfoldable pub downstream : {Host : Type 0} → List (Effect Host) → List ℕ
downstream [] = []
downstream (local_write bytes ∷ es) = bytes ++ downstream es
downstream (_ ∷ es) = downstream es

pub downstream-append :
    {Host : Type 0} (xs ys : List (Effect Host))
    → downstream (xs ++ ys) ≡ downstream xs ++ downstream ys
unfolding downstream
downstream-append [] ys = refl
downstream-append (local_write bytes ∷ es) ys = rw (downstream-append es ys, append_assoc)
downstream-append (info ∷ es) ys = downstream-append es ys
downstream-append (debug ∷ es) ys = downstream-append es ys
downstream-append (remote_write bytes ∷ es) ys = downstream-append es ys
downstream-append (local_close ∷ es) ys = downstream-append es ys
downstream-append (remote_close ∷ es) ys = downstream-append es ys
downstream-append (finished ∷ es) ys = downstream-append es ys
downstream-append (ban h ∷ es) ys = downstream-append es ys
downstream-append (resolve w name ∷ es) ys = downstream-append es ys
downstream-append (connect_to h p ∷ es) ys = downstream-append es ys
downstream-append (bytes_read n ∷ es) ys = downstream-append es ys
downstream-append (latency_available ∷ es) ys = downstream-append es ys
downstream-append (timer_start ∷ es) ys = downstream-append es ys

downstream-flushed :
    (Host : Type 0) (waiting : List ℕ) → downstream {Host = Host} (flushed waiting) ≡ []
unfolding downstream flushed
downstream-flushed Host [] = refl
downstream-flushed Host (b ∷ bs) = refl

-- The event with the two sockets exchanged.
abbrev mirror : {Host : Type 0} → Event Host → Event Host
mirror (local_ready_read bytes) = remote_ready_read bytes
mirror (remote_ready_read bytes) = local_ready_read bytes
mirror e = e

abbrev pub mirrored : {Host : Type 0} → List (Event Host) → List (Event Host)
mirrored [] = []
mirrored (e ∷ events) = mirror e ∷ mirrored events

-- What went to the local socket, and the encryptor.
abbrev pub given_back :
    {Host Pipe : Type 0}
    → TcpRelay Host Pipe × List (Effect Host)
    → Result (Encryptor Pipe × List ℕ)
given_back r = ok (r.0.encryptor, downstream r.1)

module _ {Host Pipe : Type 0} (q : Qt Host) (crypto : Crypto Pipe) where
  -- Local data gives nothing back.
  at_stage :
      (s : TcpRelay Host Pipe) (st : Stage) (input : List ℕ)
      → IsOpenAt st s.data_to_write
      → ((on_local_data q crypto st input s >>= and_timer) >>= given_back) ≡ (
          (if s.is_local then encrypt crypto s.encryptor input else ok (s.encryptor, input))
          >>= λ r. ok (r.0, []))
  unfolding on_local_data downstream
  at_stage s dns input o = elim (Bool-cases s.is_local) [
    | inl l ↦ rw l (simp >>=_assoc)
    | inr l ↦ rw l refl
  ]
  at_stage s connecting input o = elim (Bool-cases s.is_local) [
    | inl l ↦ rw l (simp >>=_assoc)
    | inr l ↦ rw l refl
  ]
  at_stage s stream input o = elim (Bool-cases s.is_local) [
    | inl l ↦ rw l (simp >>=_assoc)
    | inr l ↦ rw l refl
  ]
  at_stage s init input o = elim o [ ]
  at_stage s addr input o = elim o [ ]
  at_stage s udp_assoc input o = elim o [ ]
  at_stage s destroyed input o = elim o [ ]

  decrypted :
      (s : TcpRelay Host Pipe) (enc : Encryptor Pipe) (out : List ℕ)
      → IsOpen s
      → s.is_local ≡ false
      → ((((if is_empty out
              then ok (record s { encryptor = enc }, debug ∷ [])
              else on_local_data q crypto s.stage out (record s { encryptor = enc }))
            >>= and_timer)
          >>= given_back))
        ≡ ok (enc, [])
  unfolding downstream
  decrypted s enc [] o l = refl
  decrypted s enc (b ∷ bs) o l =
      at_stage (record s { encryptor = enc }) s.stage (b ∷ bs) o ∙ rw l refl

  given_back-step :
      (s : TcpRelay Host Pipe) (e : Event Host)
      → IsOpen s
      → IsTraffic e
      → (step q crypto e s >>= given_back) ≡ carried crypto (not s.is_local) (mirror e) s.encryptor
  unfolding step carried on_local_ready_read on_remote_ready_read on_answer on_dns_resolved
      on_remote_connected downstream on_look_up_finished
  given_back-step s (local_ready_read []) o t = elim t [ ]
  given_back-step s (local_ready_read (b ∷ bs)) o t = elim (Bool-cases s.is_local) [
    | inl l ↦ let here = at_stage s s.stage (b ∷ bs) o in rw l (rw l at here)
    | inr l ↦ elim (Result-cases (decrypt crypto s.encryptor (b ∷ bs))) [
      | inl (x, e) ↦ rw (l, e) refl
      | inr ((enc, out), e) ↦ let here = decrypted s enc out o l in rw (l, e) (rw l at here)
    ]
  ]
  given_back-step s (remote_ready_read []) o t = elim t [ ]
  given_back-step s (remote_ready_read (b ∷ bs)) o t = elim (Bool-cases s.is_local) [
    | inl l ↦ elim (Result-cases (decrypt crypto s.encryptor (b ∷ bs))) [
      | inl (x, e) ↦ rw (l, e) refl
      | inr (r, e) ↦ rw (l, e) (simp append-nil)
    ]
    | inr l ↦ elim (Result-cases (encrypt crypto s.encryptor (b ∷ bs))) [
      | inl (x, e) ↦ rw (l, e) refl
      | inr (r, e) ↦ rw (l, e) (simp append-nil)
    ]
  ]
  given_back-step s (looked_up which failed) o t = elim t [ ]
  given_back-step s (looked_up the_server (found hosts)) o t = refl
  given_back-step s (looked_up the_remote (found hosts)) o t = refl
  given_back-step s remote_connected o t =
      ap (λ out. ok (s.encryptor, out)) (downstream-flushed Host s.data_to_write)
  given_back-step s (local_error e) o t = elim t [ ]
  given_back-step s (remote_error e) o t = elim t [ ]
  given_back-step s local_disconnected o t = elim t [ ]
  given_back-step s remote_disconnected o t = elim t [ ]
  given_back-step s timeout o t = elim t [ ]

  joined_back :
      (m : Outcome Host Pipe) (es : List (Effect Host))
      → ((m >>= after es) >>= given_back) ≡ ((m >>= given_back) >>= joined (downstream es))
  joined_back (ok r) es = ap (λ o. ok (r.0.encryptor, o)) (downstream-append es r.1)
  joined_back (err x) es = refl

  -- From its request on, and while nothing closes it, what a relay writes to its local socket is
  -- exactly what its encryptor makes of the bytes of the remote socket, in order, whatever comes
  -- between them; the relay fails where the encryptor fails and only there.
  pub run-given_back :
      (s : TcpRelay Host Pipe) (events : List (Event Host))
      → IsOpen s
      → AreTraffic events
      → (run q crypto events s >>= given_back)
        ≡ all_carried crypto (not s.is_local) (mirrored events) s.encryptor
  unfolding run all_carried downstream
  run-given_back s [] o t = refl
  run-given_back s (e ∷ events) o (t, ts) =
      let one = given_back-step s e o t in
      elim (from_event q crypto s e o t) [
        | fails x done moved ↦ let two = rw done at one in rw (done, ← two) refl
        | goes s' es out done moved o' same_side same ↦
            let two = rw done at one in
            rw (done, ← two)
              (joined_back (run q crypto events s') es
                ∙ ap (λ m. m >>= joined (downstream es)) (run-given_back s' events o' ts)
                ∙ ap
                    (λ l.
                      all_carried crypto (not l) (mirrored events) s'.encryptor
                      >>= joined (downstream es))
                    same_side)
      ]
