-- ===== src/TcpRelay/Transport.antt =====
-- What a relay that has its request sends on to the remote socket, in lib/tcprelay.cpp.
use shadowsocks_qt.Prelude.{
  ℕ, ◌≡◌, refl, sym, ap, ◌∙◌, List, [], ◌∷◌, ◌++◌, append-nil, append_assoc, Bool, false,
  Bool-cases, subst, inl, inr, if◌then◌else◌, Result, ok, err, ◌>>=◌, joined, Result-cases, length,
  Failure,
}
use shadowsocks_qt.Qt.{Qt}
use shadowsocks_qt.Crypto.{Crypto}
use shadowsocks_qt.Address.{found, failed, on_look_up_finished}
use shadowsocks_qt.Encryptor.{Encryptor, encrypt, decrypt}
use shadowsocks_qt.TcpRelay.{
  Stage, init, addr, udp_assoc, dns, connecting, stream, destroyed, TcpRelay, Effect, debug,
  local_write, remote_write, bytes_read, timer_start, Event, local_ready_read, remote_ready_read,
  looked_up, remote_connected, local_error, remote_error, local_disconnected, remote_disconnected,
  timeout, on_dns_resolved, on_remote_connected, on_local_data, on_local_ready_read,
  on_remote_ready_read, on_answer, step, run, is_empty, the_server, the_remote, after, Outcome,
  and_timer,
}
use shadowsocks_qt.TcpRelay.Upstream.{
  AreTraffic, IsOpen, IsOpenAt, IsTraffic, all_carried, carried, passed_on, upstream,
  upstream-append, upstream-flushed,
}

-- One event keeps the account.
pub data Kept {Host Pipe : Type 0} (is_local : Bool) (waiting : List ℕ) (done : Outcome Host Pipe)
    (moved : Result (Encryptor Pipe × List ℕ)) : Type 0 where
  fails : (x : Failure) → done ≡ err x → moved ≡ err x → Kept is_local waiting done moved
  goes :
      (s' : TcpRelay Host Pipe) (es : List (Effect Host)) (out : List ℕ)
      → done ≡ ok (s', es)
      → moved ≡ ok (s'.encryptor, out)
      → IsOpen s'
      → s'.is_local ≡ is_local
      → waiting ++ out ≡ upstream es ++ s'.data_to_write
      → Kept is_local waiting done moved

module _ {Host Pipe : Type 0} (q : Qt Host) (crypto : Crypto Pipe) where
  abbrev waits_with : TcpRelay Host Pipe → Encryptor Pipe → List ℕ → TcpRelay Host Pipe
  waits_with s e out = record s { encryptor = e; data_to_write = s.data_to_write ++ out }

  -- Bytes that wait, or go on at once.
  at_stage :
      (s : TcpRelay Host Pipe) (st : Stage) (input : List ℕ)
      → IsOpenAt st s.data_to_write
      → s.stage ≡ st
      → Kept s.is_local s.data_to_write
          (on_local_data q crypto st input s >>= λ r. ok (r.0, r.1 ++ timer_start ∷ []))
          (if s.is_local then encrypt crypto s.encryptor input else ok (s.encryptor, input))
  unfolding on_local_data upstream
  at_stage s dns input o is = elim (Bool-cases s.is_local) [
    | inl l ↦ elim (Result-cases (encrypt crypto s.encryptor input)) [
      | inl (x, e) ↦ fails x (rw (l, e) refl) (rw (l, e) refl)
      | inr (r, e) ↦
          goes (waits_with s r.0 r.1) (timer_start ∷ []) r.1 (rw (l, e) refl) (rw (l, e) refl)
            (subst (λ k. IsOpenAt k (s.data_to_write ++ r.1)) (sym is) tt) refl refl
    ]
    | inr l ↦
        goes (waits_with s s.encryptor input) (timer_start ∷ []) input (rw l refl) (rw l refl)
          (subst (λ k. IsOpenAt k (s.data_to_write ++ input)) (sym is) tt) refl refl
  ]
  at_stage s connecting input o is = elim (Bool-cases s.is_local) [
    | inl l ↦ elim (Result-cases (encrypt crypto s.encryptor input)) [
      | inl (x, e) ↦ fails x (rw (l, e) refl) (rw (l, e) refl)
      | inr (r, e) ↦
          goes (waits_with s r.0 r.1) (timer_start ∷ []) r.1 (rw (l, e) refl) (rw (l, e) refl)
            (subst (λ k. IsOpenAt k (s.data_to_write ++ r.1)) (sym is) tt) refl refl
    ]
    | inr l ↦
        goes (waits_with s s.encryptor input) (timer_start ∷ []) input (rw l refl) (rw l refl)
          (subst (λ k. IsOpenAt k (s.data_to_write ++ input)) (sym is) tt) refl refl
  ]
  at_stage s stream input o is = elim (Bool-cases s.is_local) [
    | inl l ↦ elim (Result-cases (encrypt crypto s.encryptor input)) [
      | inl (x, e) ↦ fails x (rw (l, e) refl) (rw (l, e) refl)
      | inr (r, e) ↦
          goes (record s { encryptor = r.0 }) (remote_write r.1 ∷ timer_start ∷ []) r.1
            (rw (l, e) refl) (rw (l, e) refl) (subst (λ k. IsOpenAt k s.data_to_write) (sym is) o)
            refl (rw o (simp append-nil))
    ]
    | inr l ↦
        goes s (remote_write input ∷ timer_start ∷ []) input (rw l refl) (rw l refl)
          (subst (λ k. IsOpenAt k s.data_to_write) (sym is) o) refl (rw o (simp append-nil))
  ]
  at_stage s init input o is = elim o [ ]
  at_stage s addr input o is = elim o [ ]
  at_stage s udp_assoc input o is = elim o [ ]
  at_stage s destroyed input o is = elim o [ ]

  decrypted :
      (s : TcpRelay Host Pipe) (enc : Encryptor Pipe) (out : List ℕ)
      → IsOpen s
      → s.is_local ≡ false
      → Kept s.is_local s.data_to_write
          ((if is_empty out
              then ok (record s { encryptor = enc }, debug ∷ [])
              else on_local_data q crypto s.stage out (record s { encryptor = enc }))
            >>= and_timer)
          (ok (enc, out))
  unfolding upstream
  decrypted s enc [] o l =
      goes (record s { encryptor = enc }) (debug ∷ timer_start ∷ []) [] refl refl o refl
        (append-nil s.data_to_write)
  decrypted s enc (b ∷ bs) o l =
      let kept = at_stage (record s { encryptor = enc }) s.stage (b ∷ bs) o refl in
      rw l (rw l at kept)

  from_local :
      (s : TcpRelay Host Pipe) (b : ℕ) (bs : List ℕ)
      → IsOpen s
      → Kept s.is_local s.data_to_write
          (step q crypto (local_ready_read (b ∷ bs)) s)
          (carried {Host = Host} crypto s.is_local (local_ready_read (b ∷ bs)) s.encryptor)
  unfolding step on_local_ready_read carried upstream
  from_local s b bs o = elim (Bool-cases s.is_local) [
    | inl l ↦ let kept = at_stage s s.stage (b ∷ bs) o refl in rw l (rw l at kept)
    | inr l ↦ elim (Result-cases (decrypt crypto s.encryptor (b ∷ bs))) [
      | inl (x, e) ↦ fails x (rw (l, e) refl) (rw (l, e) refl)
      | inr ((enc, out), e) ↦ let kept = decrypted s enc out o l in rw (l, e) (rw l at kept)
    ]
  ]

  from_remote :
      (s : TcpRelay Host Pipe) (b : ℕ) (bs : List ℕ)
      → IsOpen s
      → Kept s.is_local s.data_to_write
          (step q crypto (remote_ready_read (b ∷ bs)) s)
          (carried {Host = Host} crypto s.is_local (remote_ready_read (b ∷ bs)) s.encryptor)
  unfolding step on_remote_ready_read carried upstream
  from_remote s b bs o = answered (
      if s.is_local
      then decrypt crypto s.encryptor (b ∷ bs)
      else encrypt crypto s.encryptor (b ∷ bs))
    where
      answered :
          (m : Result (Encryptor Pipe × List ℕ))
          → Kept s.is_local s.data_to_write
              ((m >>= λ r. ok (
                record s { encryptor = r.0 },
                bytes_read (length (b ∷ bs)) ∷ local_write r.1 ∷ [],
              ))
                >>= and_timer)
              (m >>= λ r. ok (r.0, []))
      answered (ok r) =
          goes (record s { encryptor = r.0 })
            (bytes_read (length (b ∷ bs)) ∷ local_write r.1 ∷ timer_start ∷ []) [] refl refl o refl
            (append-nil s.data_to_write)
      answered (err x) = fails x refl refl

  pub from_event :
      (s : TcpRelay Host Pipe) (e : Event Host)
      → IsOpen s
      → IsTraffic e
      → Kept s.is_local s.data_to_write
          (step q crypto e s)
          (carried crypto s.is_local e s.encryptor)
  unfolding step carried on_answer on_dns_resolved on_remote_connected upstream on_look_up_finished
  from_event s (local_ready_read []) o t = elim t [ ]
  from_event s (local_ready_read (b ∷ bs)) o t = from_local s b bs o
  from_event s (remote_ready_read []) o t = elim t [ ]
  from_event s (remote_ready_read (b ∷ bs)) o t = from_remote s b bs o
  from_event s (looked_up which failed) o t = elim t [ ]
  from_event s (looked_up the_server (found hosts)) o t =
      goes _ _ [] refl refl tt refl (append-nil s.data_to_write)
  from_event s (looked_up the_remote (found hosts)) o t =
      goes _ _ [] refl refl tt refl (append-nil s.data_to_write)
  from_event s remote_connected o t = goes _ _ [] refl refl refl refl (
      append-nil s.data_to_write
      ∙ sym
          (ap (λ u. u ++ []) (upstream-flushed Host s.data_to_write) ∙ append-nil s.data_to_write))
  from_event s (local_error e) o t = elim t [ ]
  from_event s (remote_error e) o t = elim t [ ]
  from_event s local_disconnected o t = elim t [ ]
  from_event s remote_disconnected o t = elim t [ ]
  from_event s timeout o t = elim t [ ]

  joined_passed :
      (m : Outcome Host Pipe) (es : List (Effect Host))
      → ((m >>= after es) >>= passed_on) ≡ ((m >>= passed_on) >>= joined (upstream es))
  joined_passed (ok r) es =
      ap (λ o. ok (r.0.encryptor, o))
        (ap (λ u. u ++ r.0.data_to_write) (upstream-append es r.1)
          ∙ append_assoc (upstream es) (upstream r.1) r.0.data_to_write)
  joined_passed (err x) es = refl

  joined_twice :
      (m : Result (Encryptor Pipe × List ℕ)) (out waiting sent waiting' : List ℕ)
      → waiting ++ out ≡ sent ++ waiting'
      → ((m >>= joined waiting') >>= joined sent) ≡ ((m >>= joined out) >>= joined waiting)
  joined_twice (ok r) out waiting sent waiting' same =
      ap (λ o. ok (r.0, o))
        (sym (append_assoc sent waiting' r.1)
          ∙ ap (λ o. o ++ r.1) (sym same)
          ∙ append_assoc waiting out r.1)
  joined_twice (err x) out waiting sent waiting' same = refl

  -- From its request on, through any sequence of local and remote data, resolver answers that
  -- found the host, and connections, a relay loses, repeats and reorders nothing: the bytes that
  -- left for the remote side, with those that still wait, are those that waited at first and then
  -- the local bytes as the encryptor makes them, and the encryptor is the one that made them. The
  -- relay fails where the encryptor fails and only there.
  pub run-carried :
      (s : TcpRelay Host Pipe) (events : List (Event Host))
      → IsOpen s
      → AreTraffic events
      → (run q crypto events s >>= passed_on)
        ≡ (all_carried crypto s.is_local events s.encryptor >>= joined s.data_to_write)
  unfolding run all_carried upstream
  run-carried s [] o t = simp append-nil
  run-carried s (e ∷ events) o (t, ts) = elim (from_event s e o t) [
    | fails x done moved ↦ rw (done, moved) refl
    | goes s' es out done moved o' same_side same ↦
        rw (done, moved)
          (joined_passed (run q crypto events s') es
            ∙ ap (λ m. m >>= joined (upstream es)) (run-carried s' events o' ts)
            ∙ joined_twice (all_carried crypto s'.is_local events s'.encryptor) out s.data_to_write
                (upstream es) s'.data_to_write same
            ∙ ap
                (λ l.
                  (all_carried crypto l events s'.encryptor >>= joined out)
                  >>= joined s.data_to_write)
                same_side)
  ]
