-- ===== src/Tunnel/Begun.antt =====
-- Both relays of a connection from its request on, in lib/tcprelay.cpp.
use shadowsocks_qt.Prelude.{
  ℕ, ◌≤◌, ◌<◌, ◌≡◌, refl, sym, ap, ◌∙◌, subst, List, [], ◌∷◌, ◌++◌, append_assoc, true, false,
  length, drop, take, drop-append_le, take-append_le, take-append_eq, drop-append_eq,
  take-append-drop, ok, ◌>>=◌, >>=-eq-ok, ok_injective, joined, over_segments, arith,
}
use shadowsocks_qt.Qt.{Qt, QtLaws}
use shadowsocks_qt.Crypto.{Crypto}
use shadowsocks_qt.Encryptor.{Encryptor, encrypt, decrypt}
use shadowsocks_qt.Encryptor.Halves.{sealed}
use shadowsocks_qt.TcpRelay.{
  init, addr, connecting, TcpRelay, Effect, Event, info, timer_start, local_ready_read,
  on_local_ready_read, run, step, and_timer,
}
use shadowsocks_qt.TcpRelay.Upstream.{AreTraffic, upstream}
use shadowsocks_qt.TcpRelay.Requests.{request_effects}
use shadowsocks_qt.Tunnel.Streams.{local_pieces, one_more}
use shadowsocks_qt.Tunnel.Destination.{
  Destination, begins_at, reaches, target, header_of, IsReachable, begins-IsOpen, upstream-reaches,
  asked, opened,
}
use shadowsocks_qt.Tunnel.Runs.{Continued, continued}

-- A piece that holds a whole header in front of a stream.
pub behind_header :
    (header piece more rest : List ℕ)
    → length header ≤ length piece
    → piece ++ more ≡ header ++ rest
    → (piece ≡ header ++ drop (length header) piece) × (drop (length header) piece ++ more ≡ rest)
behind_header header piece more rest le e = (
  sym (take-append-drop (length header) piece)
      ∙ ap (λ w. w ++ drop (length header) piece)
          (sym (take-append_le (length header) piece more le)
            ∙ ap (take (length header)) e
            ∙ take-append_eq (length header) header rest refl),
  sym (drop-append_le (length header) piece more le)
      ∙ ap (drop (length header)) e
      ∙ drop-append_eq (length header) header rest refl,
)

module _ {Host Pipe : Type 0} (q : Qt Host) where
  -- A local relay that has taken a request and what its encryptor made of it.
  abbrev pub requested :
      TcpRelay Host Pipe → Destination Host → Encryptor Pipe × List ℕ → TcpRelay Host Pipe
  requested c d r = record c {
    stage = connecting;
    remote_address = target q d;
    encryptor = r.0;
    data_to_write = c.data_to_write ++ r.1;
  }

  -- A server relay that has taken the header, and the bytes behind it.
  abbrev pub opened_to :
      TcpRelay Host Pipe → Destination Host → Encryptor Pipe → List ℕ → TcpRelay Host Pipe
  opened_to v d e payload = record v {
    stage = begins_at d;
    remote_address = target q d;
    encryptor = e;
    data_to_write = v.data_to_write ++ payload;
  }

module _ {Host Pipe : Type 0} (q : Qt Host) (laws : QtLaws q) (crypto : Crypto Pipe) where
  -- A local relay that has taken a request and returned.
  pub client_asked :
      (c c' : TcpRelay Host Pipe) (es : List (Effect Host)) (first : List ℕ)
      (events : List (Event Host)) (d : Destination Host) (ip : Host) (ips : List Host)
      → c.is_local ≡ true
      → c.stage ≡ addr
      → c.server_address.ip_addr_list ≡ ip ∷ ips
      → IsReachable q d
      → run q crypto (local_ready_read (5 ∷ 1 ∷ 0 ∷ header_of q d ++ first) ∷ events) c
        ≡ ok (c', es)
      → (r : Encryptor Pipe × List ℕ) × (encrypt crypto c.encryptor (header_of q d ++ first) ≡ ok r)
        × (on_local_ready_read q crypto (5 ∷ 1 ∷ 0 ∷ header_of q d ++ first) c
            ≡ ok (requested q c d r, request_effects ip c.server_address.port))
  unfolding run step
  client_asked c c' es first events d ip ips client waits knows reachable ran =
      let text = header_of q d ++ first in
      let taken = asked q laws crypto c first d ip ips client waits knows reachable in
      let (r0, did, _) =
        >>=-eq-ok (on_local_ready_read q crypto (5 ∷ 1 ∷ 0 ∷ text) c >>= and_timer) _ ran in
      let (x, done, _) =
        >>=-eq-ok (on_local_ready_read q crypto (5 ∷ 1 ∷ 0 ∷ text) c) and_timer did in
      let (r, sent, is) = >>=-eq-ok (encrypt crypto c.encryptor text) _ (sym taken ∙ done) in
      (r, sent, done ∙ sym is)

  pub client_started :
      (c c' : TcpRelay Host Pipe) (es : List (Effect Host)) (first : List ℕ)
      (events : List (Event Host)) (d : Destination Host) (ip : Host) (ips : List Host)
      → c.is_local ≡ true
      → c.stage ≡ addr
      → c.server_address.ip_addr_list ≡ ip ∷ ips
      → IsReachable q d
      → AreTraffic events
      → run q crypto (local_ready_read (5 ∷ 1 ∷ 0 ∷ header_of q d ++ first) ∷ events) c
        ≡ ok (c', es)
      → (r : Encryptor Pipe × List ℕ) × (encrypt crypto c.encryptor (header_of q d ++ first) ≡ ok r)
        × Continued q crypto true
            (requested q c d r)
            c'
            (request_effects ip c.server_address.port)
            es
            events
  client_started c c' es first events d ip ips client waits knows reachable traffic ran =
      let (r, sent, done) =
        client_asked c c' es first events d ip ips client waits knows reachable ran in
      (
        r,
        sent,
        continued q crypto true c (requested q c d r) c' (request_effects ip c.server_address.port)
            es (5 ∷ 1 ∷ 0 ∷ header_of q d ++ first) events done ran tt traffic client,
      )

  -- All that a local relay encrypts for its server is one stream, which begins with the header.
  pub client_stream :
      (c c' : TcpRelay Host Pipe) (es : List (Effect Host)) (first : List ℕ)
      (events : List (Event Host)) (d : Destination Host) (ip : Host) (ips : List Host)
      → c.is_local ≡ true
      → c.stage ≡ addr
      → c.data_to_write ≡ []
      → c.server_address.ip_addr_list ≡ ip ∷ ips
      → IsReachable q d
      → AreTraffic events
      → run q crypto (local_ready_read (5 ∷ 1 ∷ 0 ∷ header_of q d ++ first) ∷ events) c
        ≡ ok (c', es)
      → (a : Encryptor Pipe) × (over_segments
            (sealed crypto true)
            c.encryptor
            ((header_of q d ++ first) ∷ local_pieces events)
          ≡ ok (a, upstream es ++ c'.data_to_write))
  unfolding upstream
  client_stream c c' es first events d ip ips client waits none knows reachable traffic ran =
      let (r, sent, k) =
        client_started c c' es first events d ip ips client waits knows reachable traffic ran in
      (
        k.made,
        one_more crypto true c.encryptor (header_of q d ++ first) (local_pieces events) r k.made
            (upstream es ++ c'.data_to_write) k.out sent k.carries
            (ap (λ w. w ++ (r.1 ++ k.out)) (sym none)
              ∙ sym (append_assoc c.data_to_write r.1 k.out)
              ∙ sym k.passes
              ∙ ap (λ l. upstream l ++ c'.data_to_write) (sym k.effects)),
      )

  pub server_started :
      (v v' : TcpRelay Host Pipe) (es : List (Effect Host)) (piece payload : List ℕ)
      (e : Encryptor Pipe) (events : List (Event Host)) (d : Destination Host)
      → v.is_local ≡ false
      → v.stage ≡ init
      → IsReachable q d
      → AreTraffic events
      → 0 < length piece
      → decrypt crypto v.encryptor piece ≡ ok (e, header_of q d ++ payload)
      → run q crypto (local_ready_read piece ∷ events) v ≡ ok (v', es)
      → Continued q crypto false (opened_to q v d e payload) v' (info ∷ reaches d ∷ []) es events
  server_started v v' es [] payload e events d server fresh reachable traffic some_bytes opens ran =
      absurd (omega arith)
  server_started v v' es (b ∷ bs) payload e events d server fresh reachable traffic some_bytes opens
        ran =
      continued q crypto false v (opened_to q v d e payload) v' (info ∷ reaches d ∷ []) es (b ∷ bs)
        events (opened q laws crypto v b bs payload d e server fresh reachable opens) ran
        (begins-IsOpen d (v.data_to_write ++ payload)) traffic server

  -- All that a server relay decrypts is one stream; behind the header it goes to the destination.
  pub server_stream :
      (v v' : TcpRelay Host Pipe) (es : List (Effect Host)) (piece opened rest : List ℕ)
      (e a : Encryptor Pipe) (events : List (Event Host)) (d : Destination Host)
      → v.is_local ≡ false
      → v.stage ≡ init
      → v.data_to_write ≡ []
      → IsReachable q d
      → AreTraffic events
      → 0 < length piece
      → length (header_of q d) ≤ length opened
      → decrypt crypto v.encryptor piece ≡ ok (e, opened)
      → over_segments (sealed crypto false) v.encryptor (piece ∷ local_pieces events)
        ≡ ok (a, header_of q d ++ rest)
      → run q crypto (local_ready_read piece ∷ events) v ≡ ok (v', es)
      → (upstream es ++ v'.data_to_write ≡ rest)
        × ((later : List (Effect Host)) × (es ≡ info ∷ reaches d ∷ timer_start ∷ later))
  unfolding over_segments upstream
  server_stream v v' es piece opened rest e a events d server fresh none reachable traffic
        some_bytes long opens whole ran =
      let header = header_of q d in
      let (r, first, tail) = >>=-eq-ok (decrypt crypto v.encryptor piece) _ whole in
      let is_opened : r ≡ (e, opened) = ok_injective (sym first ∙ opens) in
      let (m, more, sum) =
        >>=-eq-ok (over_segments (sealed crypto false) e (local_pieces events)) (joined opened) (
          subst
            (λ (x : Encryptor Pipe × List ℕ).
              (over_segments (sealed crypto false) x.0 (local_pieces events) >>= joined x.1)
              ≡ ok (a, header ++ rest))
            is_opened tail) in
      let (shape, behind) =
        behind_header header opened m.1 rest long
          (ap (λ (x : Encryptor Pipe × List ℕ). x.1) (ok_injective sum)) in
      let payload = drop (length header) opened in
      let k =
        server_started v v' es piece payload e events d server fresh reachable traffic some_bytes
          (opens ∙ ap (λ t. ok (e, t)) shape) ran in
      let same : m.1 ≡ k.out =
        ap (λ (x : Encryptor Pipe × List ℕ). x.1) (ok_injective (sym more ∙ k.carries)) in
      (
        ap (λ l. upstream l ++ v'.data_to_write) k.effects
            ∙ ap (λ w. w ++ v'.data_to_write) (upstream-reaches d (timer_start ∷ k.later))
            ∙ k.passes
            ∙ ap (λ w. (w ++ payload) ++ k.out) none
            ∙ ap (λ w. payload ++ w) (sym same)
            ∙ behind,
        (k.later, k.effects),
      )
