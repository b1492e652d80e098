-- ===== src/Tunnel/Runs.antt =====
-- A run of a relay behind the piece that brought its request, in lib/tcprelay.cpp.
use shadowsocks_qt.Prelude.{
  ℕ, ◌≡◌, sym, ap, ◌∙◌, List, [], ◌∷◌, ◌++◌, Bool, Result, ok, ◌>>=◌, >>=-eq-ok, ok_injective,
  joined, over_segments,
}
use shadowsocks_qt.Qt.{Qt}
use shadowsocks_qt.Crypto.{Crypto}
use shadowsocks_qt.Encryptor.{Encryptor}
use shadowsocks_qt.Encryptor.Halves.{sealed}
use shadowsocks_qt.TcpRelay.{
  TcpRelay, Effect, Event, timer_start, local_ready_read, on_local_ready_read, run, step, after,
  and_timer,
}
use shadowsocks_qt.TcpRelay.Upstream.{AreTraffic, IsOpen, upstream, passed_on, all_carried}
use shadowsocks_qt.TcpRelay.Transport.{run-carried}
use shadowsocks_qt.Tunnel.Streams.{local_pieces, pieces_of-all_carried}

module _ {Host Pipe : Type 0} (q : Qt Host) (crypto : Crypto Pipe) where
  -- What a run does behind its first local data.
  pub record Continued (b : Bool) (s1 s' : TcpRelay Host Pipe) (es1 es : List (Effect Host))
      (events : List (Event Host)) : Type 0 where
    pub made : Encryptor Pipe
    pub out : List ℕ
    pub later : List (Effect Host)
    pub carries :
        over_segments (sealed crypto b) s1.encryptor (local_pieces events) ≡ ok (made, out)
    pub effects : es ≡ (es1 ++ timer_start ∷ []) ++ later
    pub runs : run q crypto events s1 ≡ ok (s', later)
    pub passes : upstream later ++ s'.data_to_write ≡ s1.data_to_write ++ out

  pub continued :
      (b : Bool) (s s1 s' : TcpRelay Host Pipe) (es1 es : List (Effect Host)) (bytes : List ℕ)
      (events : List (Event Host))
      → on_local_ready_read q crypto bytes s ≡ ok (s1, es1)
      → run q crypto (local_ready_read bytes ∷ events) s ≡ ok (s', es)
      → IsOpen s1
      → AreTraffic events
      → s1.is_local ≡ b
      → Continued b s1 s' es1 es events
  unfolding run step
  continued b s s1 s' es1 es bytes events first ran opened traffic side =
      let ran1 : (run q crypto events s1 >>= after (es1 ++ timer_start ∷ [])) ≡ ok (s', es) =
        ap
          (λ (m : Result (TcpRelay Host Pipe × List (Effect Host))).
            ((m >>= and_timer) >>= λ r. (run q crypto events r.0 >>= after r.1)))
          (sym first)
        ∙ ran in
      let (m, rest, is) =
        >>=-eq-ok (run q crypto events s1) (after (es1 ++ timer_start ∷ [])) ran1 in
      let same : (m.0, (es1 ++ timer_start ∷ []) ++ m.1) ≡ (s', es) = ok_injective is in
      let (u, did, sum) =
        >>=-eq-ok (all_carried crypto s1.is_local events s1.encryptor) (joined s1.data_to_write) (
          sym (run-carried q crypto s1 events opened traffic)
          ∙ ap (λ (o : Result (TcpRelay Host Pipe × List (Effect Host))). o >>= passed_on) rest) in
      let (t, pieces) =
        pieces_of-all_carried crypto b events s1.encryptor u.0 u.1
          (ap (λ side. all_carried crypto side events s1.encryptor) (sym side) ∙ did) in
      record {
        made = t;
        out = u.1;
        later = m.1;
        carries = pieces;
        effects = sym (ap (λ (p : TcpRelay Host Pipe × List (Effect Host)). p.1) same);
        runs =
            rest
            ∙ ap (λ (r : TcpRelay Host Pipe). ok (r, m.1))
                (ap (λ (p : TcpRelay Host Pipe × List (Effect Host)). p.0) same);
        passes =
            ap (λ (p : TcpRelay Host Pipe × List (Effect Host)). upstream m.1 ++ p.0.data_to_write)
              (sym same)
            ∙ sym (ap (λ (p : Encryptor Pipe × List ℕ). p.1) (ok_injective sum));
      }
