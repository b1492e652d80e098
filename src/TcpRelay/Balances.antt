-- ===== src/TcpRelay/Balances.antt =====
-- How often the slots of lib/tcprelay.cpp emit `finished`, and in which stage they leave the relay.
use shadowsocks_qt.Prelude.{
  ℕ, ◌+◌, ◌≡◌, refl, List, [], ◌∷◌, ◌++◌, Bool, true, false, not, ◌&&◌, ◌==◌, ltb, if_elim,
  if◌then◌else◌, length, drop, Result, ok, err, ◌>>=◌, Ensures, Ensures-bind, byte_at, arith,
}
use shadowsocks_qt.Qt.{Qt}
use shadowsocks_qt.Crypto.{Crypto}
use shadowsocks_qt.Address.{known, asks, look_up, Lookup}
use shadowsocks_qt.Common.Header.{parse_header}
use shadowsocks_qt.Encryptor.{Encryptor, encrypt, decrypt}
use shadowsocks_qt.TcpRelay.{
  Stage, init, addr, udp_assoc, dns, connecting, stream, destroyed, is_destroyed, TcpRelay, Effect,
  info, debug, local_write, remote_write, local_close, remote_close, finished, ban, resolve,
  connect_to, bytes_read, latency_available, timer_start, close, closing, this_closing, flushed,
  on_dns_resolved, start_look_up, handle_header, handle_stage_addr, on_local_data,
  on_local_ready_read, on_remote_ready_read, is_empty, and_timer, Which, the_server, the_remote,
}

-- How often effects emit `finished`.
unfoldable pub finishes : {Host : Type 0} → List (Effect Host) → ℕ
finishes [] = 0
finishes (finished ∷ es) = 1 + finishes es
finishes (_ ∷ es) = finishes es

-- How often one closing emits `finished`.
abbrev pub emissions : Bool × Bool → ℕ
emissions (false, false) = 1
emissions (false, true) = 2
emissions (true, false) = 2
emissions (true, true) = 3

-- 0 for a destroyed relay, `n` for any other.
abbrev pub alive : ℕ → Stage → ℕ
alive n stage = if is_destroyed stage then 0 else n

-- A relay that is not destroyed and emits `finished` so often when it closes.
abbrev pub IsLive : {Host Pipe : Type 0} → ℕ → TcpRelay Host Pipe → Type 0
IsLive n s = (is_destroyed s.stage ≡ false) × (emissions (this_closing s.closings) ≡ n)

-- The relay is destroyed with so many signals, and lives on with none.
abbrev pub Balances : {Host Pipe : Type 0} → ℕ → TcpRelay Host Pipe × List (Effect Host) → Type 0
Balances n r = finishes r.1 + alive n r.0.stage ≡ n

pub finishes-append :
    {Host : Type 0} (xs ys : List (Effect Host)) → finishes (xs ++ ys) ≡ finishes xs + finishes ys
unfolding finishes
finishes-append [] ys = omega arith
finishes-append (finished ∷ es) ys = omega (arith, finishes-append es ys)
finishes-append (remote_write bytes ∷ es) ys = finishes-append es ys
finishes-append (info ∷ es) ys = finishes-append es ys
finishes-append (debug ∷ es) ys = finishes-append es ys
finishes-append (local_write bytes ∷ es) ys = finishes-append es ys
finishes-append (local_close ∷ es) ys = finishes-append es ys
finishes-append (remote_close ∷ es) ys = finishes-append es ys
finishes-append (ban h ∷ es) ys = finishes-append es ys
finishes-append (resolve w name ∷ es) ys = finishes-append es ys
finishes-append (connect_to h p ∷ es) ys = finishes-append es ys
finishes-append (bytes_read n ∷ es) ys = finishes-append es ys
finishes-append (latency_available ∷ es) ys = finishes-append es ys
finishes-append (timer_start ∷ es) ys = finishes-append es ys

pub closing-emissions :
    (Host : Type 0) (c : Bool × Bool) → finishes {Host = Host} (closing c) ≡ emissions c
unfolding finishes
closing-emissions Host (false, false) = refl
closing-emissions Host (false, true) = refl
closing-emissions Host (true, false) = refl
closing-emissions Host (true, true) = refl

module _ {Host Pipe : Type 0} (n : ℕ) where
  pub close-Balances : (s : TcpRelay Host Pipe) → IsLive n s → Balances n (close s)
  unfolding close finishes
  close-Balances s live =
      rw (live.0) (omega (arith, closing-emissions Host (this_closing s.closings), live.1))

  still : (s : TcpRelay Host Pipe) → IsLive n s → 0 + alive n s.stage ≡ n
  still s live = rw (live.0) (omega arith)

pub flushed_none : (Host : Type 0) (bytes : List ℕ) → finishes {Host = Host} (flushed bytes) ≡ 0
unfolding finishes flushed
flushed_none Host [] = refl
flushed_none Host (b ∷ bs) = refl

module _ {Host Pipe : Type 0} (n : ℕ) (q : Qt Host) (crypto : Crypto Pipe) where
  pub dns_resolved-Balances :
      (which : Which) (success : Bool) (s : TcpRelay Host Pipe)
      → IsLive n s
      → Balances n (on_dns_resolved q crypto which success s)
  unfolding on_dns_resolved finishes
  dns_resolved-Balances which true s live = omega arith
  dns_resolved-Balances which false s live = close-Balances n s live

  start_look_up-Balances :
      (which : Which) (s : TcpRelay Host Pipe)
      → IsLive n s
      → Balances n (start_look_up q crypto which s)
  unfolding start_look_up finishes
  start_look_up-Balances the_server s live = by_answer (look_up s.server_address)
    where
      by_answer :
          (l : Lookup)
          → Balances {Host = Host} {Pipe = Pipe} n
              (elim l as (λ _. TcpRelay Host Pipe × List (Effect Host)) [
                | known ↦ on_dns_resolved q crypto the_server true s
                | asks name ↦ (s, resolve the_server name ∷ [])
              ])
      by_answer known = dns_resolved-Balances the_server true s live
      by_answer (asks name) = still n s live
  start_look_up-Balances the_remote s live = by_answer (look_up s.remote_address)
    where
      by_answer :
          (l : Lookup)
          → Balances {Host = Host} {Pipe = Pipe} n
              (elim l as (λ _. TcpRelay Host Pipe × List (Effect Host)) [
                | known ↦ on_dns_resolved q crypto the_remote true s
                | asks name ↦ (s, resolve the_remote name ∷ [])
              ])
      by_answer known = dns_resolved-Balances the_remote true s live
      by_answer (asks name) = still n s live

  abbrev Keeps : Result (TcpRelay Host Pipe × List (Effect Host)) → Type 0
  Keeps = Ensures (Balances n)

  header-Balances :
      (input : List ℕ) (s : TcpRelay Host Pipe)
      → IsLive n s
      → Keeps (handle_header q crypto input s)
  unfolding handle_header finishes
  header-Balances input s live =
      Ensures-bind (Balances n) (parse_header q input s.remote_address) _ λ parsed.
        let s1 = record s { remote_address = parsed.0 } in
        let closes = close-Balances n s1 live in
        if_elim Keeps (parsed.1 == 0)
          (λ _.
            if_elim
              (λ (bans : List (Effect Host)).
                finishes (info ∷ bans ++ (close s1).1) + alive n (close s1).0.stage ≡ n)
              (not s.is_local && s.auto_ban) (λ _. closes) (λ _. closes))
          (λ _.
            if_elim Keeps s.is_local
              (λ _. Ensures-bind (Balances n) (encrypt crypto s.encryptor input) _ λ r.
                start_look_up-Balances the_server
                  (record s1 {
                    stage = dns;
                    encryptor = r.0;
                    data_to_write = s1.data_to_write ++ r.1;
                  })
                  (refl, live.1))
              (λ _.
                start_look_up-Balances the_remote
                  (record s1 {
                    stage = dns;
                    data_to_write =
                        if ltb parsed.1 (length input)
                        then s1.data_to_write ++ drop parsed.1 input
                        else s1.data_to_write;
                  })
                  (refl, live.1)))

  addr-Balances :
      (input : List ℕ) (s : TcpRelay Host Pipe)
      → IsLive n s
      → Keeps (handle_stage_addr q crypto input s)
  unfolding handle_stage_addr finishes
  addr-Balances input s live =
      if_elim Keeps s.is_local
        (λ _. Ensures-bind (Balances n) (byte_at input 1) _ λ cmd.
          if_elim Keeps (cmd == 3) (λ _. omega arith)
            (λ _.
              if_elim Keeps (cmd == 1) (λ _. header-Balances (drop 3 input) s live)
                (λ _. close-Balances n s live)))
        (λ _. header-Balances input s live)

  -- A slot that changes neither the stage nor the connection.
  keeps :
      (m : Result (Encryptor Pipe × List ℕ))
      (f : Encryptor Pipe × List ℕ → TcpRelay Host Pipe × List (Effect Host))
      → ((r : Encryptor Pipe × List ℕ) → Balances n (f r))
      → Keeps (m >>= λ r. ok (f r))
  keeps (ok r) f h = h r
  keeps (err x) f h = tt

  data-Balances :
      (stage : Stage) (input : List ℕ) (s : TcpRelay Host Pipe)
      → IsLive n s
      → Keeps (on_local_data q crypto stage input s)
  unfolding on_local_data finishes
  data-Balances init input s live =
      if_elim Keeps s.is_local
        (λ _. Ensures-bind (Balances n) (byte_at input 0) _ λ version.
          if_elim (λ (es : List (Effect Host)). finishes es + n ≡ n) (not (version == 5))
            (λ _. omega arith) (λ _. omega arith))
        (λ _. addr-Balances input s live)
  data-Balances addr input s live =
      if_elim Keeps s.is_local (λ _. addr-Balances input s live) (λ _. still n s live)
  data-Balances connecting input s live =
      if_elim Keeps s.is_local
        (λ _. keeps (encrypt crypto s.encryptor input) _ (λ r. still n s live))
        (λ _. still n s live)
  data-Balances dns input s live =
      if_elim Keeps s.is_local
        (λ _. keeps (encrypt crypto s.encryptor input) _ (λ r. still n s live))
        (λ _. still n s live)
  data-Balances stream input s live =
      if_elim Keeps s.is_local
        (λ _. keeps (encrypt crypto s.encryptor input) _ (λ r. still n s live))
        (λ _. still n s live)
  data-Balances udp_assoc input s live = still n s live
  data-Balances destroyed input s live = still n s live

  pub and_timer-Balances :
      (m : Result (TcpRelay Host Pipe × List (Effect Host)))
      → Ensures (Balances n) m
      → Ensures (Balances n) (m >>= and_timer)
  unfolding finishes
  and_timer-Balances (ok r) h = omega (arith, h, finishes-append r.1 (timer_start ∷ []))
  and_timer-Balances (err x) h = tt

  pub local-Balances :
      (input : List ℕ) (s : TcpRelay Host Pipe)
      → IsLive n s
      → Ensures (Balances n) (on_local_ready_read q crypto input s)
  unfolding on_local_ready_read finishes
  local-Balances [] s live = close-Balances n s live
  local-Balances (b ∷ bs) s live =
      if_elim Keeps s.is_local (λ _. data-Balances s.stage (b ∷ bs) s live)
        (λ _. Ensures-bind (Balances n) (decrypt crypto s.encryptor (b ∷ bs)) _ λ r.
          if_elim Keeps (is_empty r.1) (λ _. still n s live)
            (λ _. data-Balances s.stage r.1 (record s { encryptor = r.0 }) live))

  pub remote-Balances :
      (input : List ℕ) (s : TcpRelay Host Pipe)
      → IsLive n s
      → Ensures (Balances n) (on_remote_ready_read q crypto input s)
  unfolding on_remote_ready_read finishes
  remote-Balances [] s live = close-Balances n s live
  remote-Balances (b ∷ bs) s live =
      keeps
        (if s.is_local
          then decrypt crypto s.encryptor (b ∷ bs)
          else encrypt crypto s.encryptor (b ∷ bs))
        _ (λ r. still n s live)
