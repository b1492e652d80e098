-- ===== src/Tunnel/Answers.antt =====
-- The bytes of the destination on their way back to the SOCKS client: through the relay of the
-- server, the connection between the relays, and the local relay, in lib/tcprelay.cpp.
use shadowsocks_qt.Prelude.{
  ℕ, ◌≤◌, ◌<◌, ◌≡◌, refl, sym, ap, ◌∙◌, List, [], ◌∷◌, ◌++◌, append_assoc, Bool, true, false, not,
  length, flatten, Result, ok, ◌>>=◌, ok_injective, over_segments,
}
use shadowsocks_qt.Qt.{Qt, QtLaws}
use shadowsocks_qt.Crypto.{Crypto, CryptoLaws}
use shadowsocks_qt.EncryptorPrivate.{EncryptorPrivate}
use shadowsocks_qt.Encryptor.{Encryptor, Handle, create, encrypt, decrypt}
use shadowsocks_qt.Encryptor.Halves.{sealed, beside, opposite-beside, segments_of-beside}
use shadowsocks_qt.Encryptor.Tcp.{decrypt_segments-encrypt_segments}
use shadowsocks_qt.TcpRelay.{
  timer_start, init, addr, TcpRelay, Effect, Event, local_ready_read, remote_ready_read, looked_up,
  remote_connected, local_error, remote_error, local_disconnected, remote_disconnected, timeout,
  run,
}
use shadowsocks_qt.TcpRelay.Upstream.{AreTraffic, IsOpen, all_carried}
use shadowsocks_qt.TcpRelay.Downstream.{downstream, mirrored, given_back, run-given_back}
use shadowsocks_qt.Tunnel.Streams.{local_pieces, pieces_of-all_carried}
use shadowsocks_qt.Tunnel.Arrivals.{opened_so_far}
use shadowsocks_qt.Tunnel.Destination.{
  Destination, header_of, IsReachable, begins-IsOpen, downstream-reaches,
}
use shadowsocks_qt.Tunnel.Begun.{requested, opened_to, client_started, server_started}

-- What the remote socket of a relay is read, piece by piece.
abbrev pub remote_pieces : {Host : Type 0} → List (Event Host) → List (List ℕ)
remote_pieces [] = []
remote_pieces (remote_ready_read bytes ∷ events) = bytes ∷ remote_pieces events
remote_pieces (_ ∷ events) = remote_pieces events

-- The answer of `handleStageAddr` to a CONNECT request.
abbrev pub socks_reply : List ℕ
socks_reply = 5 ∷ 0 ∷ 0 ∷ 1 ∷ 0 ∷ 0 ∷ 0 ∷ 0 ∷ 16 ∷ 16 ∷ []

local_pieces-mirrored :
    {Host : Type 0} (events : List (Event Host))
    → local_pieces (mirrored events) ≡ remote_pieces events
local_pieces-mirrored [] = refl
local_pieces-mirrored (local_ready_read bytes ∷ events) = local_pieces-mirrored events
local_pieces-mirrored (remote_ready_read bytes ∷ events) =
    ap (◌∷◌ bytes) (local_pieces-mirrored events)
local_pieces-mirrored (looked_up which answer ∷ events) = local_pieces-mirrored events
local_pieces-mirrored (remote_connected ∷ events) = local_pieces-mirrored events
local_pieces-mirrored (local_error e ∷ events) = local_pieces-mirrored events
local_pieces-mirrored (remote_error e ∷ events) = local_pieces-mirrored events
local_pieces-mirrored (local_disconnected ∷ events) = local_pieces-mirrored events
local_pieces-mirrored (remote_disconnected ∷ events) = local_pieces-mirrored events
local_pieces-mirrored (timeout ∷ events) = local_pieces-mirrored events

module _ {Host Pipe : Type 0} (q : Qt Host) (crypto : Crypto Pipe) where
  -- What a relay gives back is one stream of an encryptor that was fresh in that direction.
  given_stream :
      (b : Bool) (s s' : TcpRelay Host Pipe) (es : List (Effect Host)) (events : List (Event Host))
      (e : Encryptor Pipe) (other : Handle Pipe)
      → not s.is_local ≡ b
      → IsOpen s
      → AreTraffic events
      → run q crypto events s ≡ ok (s', es)
      → s.encryptor ≡ beside b other e
      → (t : Encryptor Pipe) × (over_segments (sealed crypto b) e (remote_pieces events)
          ≡ ok (t, downstream es))
  given_stream b s s' es events e other side opened traffic ran is =
      let gives : all_carried crypto b (mirrored events) s.encryptor
          ≡ ok (s'.encryptor, downstream es) =
        ap (λ side. all_carried crypto side (mirrored events) s.encryptor) (sym side)
        ∙ sym (run-given_back q crypto s events opened traffic)
        ∙ ap (λ (m : Result (TcpRelay Host Pipe × List (Effect Host))). m >>= given_back) ran in
      let (t, pieces) =
        pieces_of-all_carried crypto b (mirrored events) s.encryptor s'.encryptor (downstream es)
          gives in
      segments_of-beside crypto b other e (remote_pieces events) (
        ap (λ x. over_segments (sealed crypto b) x (remote_pieces events)) (sym is)
        ∙ ap (over_segments (sealed crypto b) s.encryptor) (sym (local_pieces-mirrored events))
        ∙ pieces)

module _ {Host Pipe : Type 0} (q : Qt Host) (laws : QtLaws q) (crypto : Crypto Pipe)
    (crypto_laws : CryptoLaws crypto) where
  module _ (c v c' v' : TcpRelay Host Pipe) (es_c es_v : List (Effect Host)) (ep : EncryptorPrivate)
      (drawn drawn' first piece payload xs ys : List ℕ) (more rest : List (List ℕ))
      (e : Encryptor Pipe) (events_c events_v : List (Event Host)) (d : Destination Host)
      (ip : Host) (ips : List Host) (client : c.is_local ≡ true) (waits : c.stage ≡ addr)
      (fresh_c : c.encryptor ≡ create ep drawn) (knows : c.server_address.ip_addr_list ≡ ip ∷ ips)
      (server : v.is_local ≡ false) (fresh : v.stage ≡ init)
      (fresh_v : v.encryptor ≡ create ep drawn') (enough : ep.iv_len ≤ length drawn')
      (reachable : IsReachable q d) (traffic_c : AreTraffic events_c)
      (traffic_v : AreTraffic events_v)
      (ran_c : run q crypto (local_ready_read (5 ∷ 1 ∷ 0 ∷ header_of q d ++ first) ∷ events_c) c
        ≡ ok (c', es_c))
      (ran_v : run q crypto (local_ready_read piece ∷ events_v) v ≡ ok (v', es_v))
      (some_bytes : 0 < length piece)
      (opens : decrypt crypto v.encryptor piece ≡ ok (e, header_of q d ++ payload))
      (answers : remote_pieces events_v ≡ xs ∷ more) (pieces : remote_pieces events_c ≡ ys ∷ rest)
      (whole_iv : ep.iv_len ≤ length ys) where
    server_answers :
        (a : Encryptor Pipe) × (over_segments (encrypt crypto) (create ep drawn') (xs ∷ more)
          ≡ ok (a, downstream es_v))
    unfolding downstream
    server_answers =
        let k =
          server_started q laws crypto v v' es_v piece payload e events_v d server fresh reachable
            traffic_v some_bytes opens ran_v in
        let (other, changed) = opposite-beside crypto true v.encryptor piece opens in
        let (t, sent) =
          given_stream q crypto true (opened_to q v d e payload) v' k.later events_v
            (create ep drawn') other (ap not server) (begins-IsOpen d (v.data_to_write ++ payload))
            traffic_v k.runs (changed ∙ ap (beside true other) fresh_v) in
        (
          t,
          ap (over_segments (encrypt crypto) (create ep drawn')) (sym answers)
              ∙ sent
              ∙ ap (λ w. ok (t, w))
                  (sym (ap downstream k.effects ∙ downstream-reaches d (timer_start ∷ k.later))),
        )

    client_gives :
        (a : Encryptor Pipe) × (out : List ℕ) × (over_segments
            (decrypt crypto)
            (create ep drawn)
            (ys ∷ rest)
          ≡ ok (a, out))
        × (downstream es_c ≡ socks_reply ++ out)
    unfolding downstream
    client_gives =
        let (r, sent, k) =
          client_started q laws crypto c c' es_c first events_c d ip ips client waits knows
            reachable traffic_c ran_c in
        let (other, changed) =
          opposite-beside crypto false c.encryptor (header_of q d ++ first) sent in
        let (t, got) =
          given_stream q crypto false (requested q c d r) c' k.later events_c (create ep drawn)
            other (ap not client) tt traffic_c k.runs (changed ∙ ap (beside false other) fresh_c) in
        (
          t,
          downstream k.later,
          ap (over_segments (decrypt crypto) (create ep drawn)) (sym pieces) ∙ got,
          ap downstream k.effects,
        )

    -- In a connection of a fresh local relay that knows an IP address of its server and a fresh
    -- relay of the server with the same settings, begun by the request of a SOCKS client for a
    -- reachable destination with a port below 2 ^ 16 (an IPv4 address; one that is not null and is
    -- made again of its sixteen bytes; or a host name that is no IP address, has no spaces around
    -- it, is at most 255 bytes long in the local encoding and is made again of these bytes), after
    -- any runs of both that return, in which nothing closes them, where the first piece for the
    -- server opens to the whole header: if all that the server wrote back has arrived, cut in any
    -- way, but with the whole IV in the first piece, the client has been given the answer to its
    -- request and then exactly the bytes of the destination.
    pub answers_delivered :
        flatten (ys ∷ rest) ≡ downstream es_v
        → downstream es_c ≡ socks_reply ++ flatten (remote_pieces events_v)
    answers_delivered came =
        let (a, sent) = server_answers in
        let (t, out, got, given) = client_gives in
        let (b, back) =
          decrypt_segments-encrypt_segments crypto crypto_laws ep drawn' drawn xs ys more rest a
            (downstream es_v) enough whole_iv sent came in
        given
        ∙ ap (λ w. socks_reply ++ w)
            (ap (λ (x : Encryptor Pipe × List ℕ). x.1) (ok_injective (sym got ∙ back))
              ∙ ap flatten (sym answers))

    -- In a connection of a fresh local relay that knows an IP address of its server and a fresh
    -- relay of the server with the same settings, begun by the request of a SOCKS client for a
    -- reachable destination with a port below 2 ^ 16 (an IPv4 address; one that is not null and is
    -- made again of its sixteen bytes; or a host name that is no IP address, has no spaces around
    -- it, is at most 255 bytes long in the local encoding and is made again of these bytes), after
    -- any runs of both that return, in which nothing closes them, where the first piece for the
    -- server opens to the whole header: if some of what the server wrote back has arrived, cut in
    -- any way, but with the whole IV in the first piece, what the client has been given is the
    -- beginning of the answer to its request and the bytes of the destination behind it.
    pub answers_so_far :
        (flight : List ℕ)
        → flatten (ys ∷ rest) ++ flight ≡ downstream es_v
        → (late : List ℕ) × (downstream es_c ++ late
            ≡ socks_reply ++ flatten (remote_pieces events_v))
    answers_so_far flight came =
        let (a, sent) = server_answers in
        let (t, out, got, given) = client_gives in
        let (b, seen, late, back, begins) =
          opened_so_far crypto crypto_laws ep drawn' drawn xs ys flight more rest a
            (downstream es_v) enough whole_iv sent came in
        (
          late,
          ap (λ w. w ++ late)
                (given
                  ∙ ap (λ w. socks_reply ++ w)
                      (ap (λ (x : Encryptor Pipe × List ℕ). x.1) (ok_injective (sym got ∙ back))))
              ∙ append_assoc socks_reply seen late
              ∙ ap (λ w. socks_reply ++ w) (begins ∙ ap flatten (sym answers)),
        )
