-- ===== src/Tunnel/Session.antt =====
-- A proxied connection from the request of a SOCKS client on, through both relays, in
-- lib/tcprelay.cpp.
use shadowsocks_qt.Prelude.{
  ℕ, ◌≤◌, ◌<◌, ◌≡◌, sym, ap, ◌∙◌, List, [], ◌∷◌, ◌++◌, append-nil, append_assoc, true, false,
  length, drop, length-append, flatten, ok, >>=-eq-ok, ok_injective, joined, over_segments, arith,
}
use shadowsocks_qt.Qt.{Qt, QtLaws}
use shadowsocks_qt.Crypto.{Crypto, CryptoLaws}
use shadowsocks_qt.EncryptorPrivate.{EncryptorPrivate}
use shadowsocks_qt.Encryptor.{Encryptor, create, encrypt, decrypt}
use shadowsocks_qt.Encryptor.Tcp.{decrypt_segments-encrypt_segments}
use shadowsocks_qt.TcpRelay.{
  init, addr, TcpRelay, Effect, Event, info, timer_start, local_ready_read, run,
}
use shadowsocks_qt.TcpRelay.Upstream.{AreTraffic, upstream}
use shadowsocks_qt.Tunnel.Streams.{local_pieces}
use shadowsocks_qt.Tunnel.Arrivals.{opened_so_far}
use shadowsocks_qt.Tunnel.Destination.{Destination, header_of, IsReachable, reaches}
use shadowsocks_qt.Tunnel.Begun.{client_stream, server_stream, behind_header}

module _ {Host Pipe : Type 0} (q : Qt Host) (laws : QtLaws q) (crypto : Crypto Pipe)
    (crypto_laws : CryptoLaws crypto) where
  module _ (c v c' v' : TcpRelay Host Pipe) (es_c es_v : List (Effect Host)) (ep : EncryptorPrivate)
      (drawn drawn' first piece opened : List ℕ) (e : Encryptor Pipe)
      (events_c events_v : List (Event Host)) (d : Destination Host) (ip : Host) (ips : List Host)
      (client : c.is_local ≡ true) (waits : c.stage ≡ addr)
      (fresh_c : c.encryptor ≡ create ep drawn) (none_c : c.data_to_write ≡ [])
      (knows : c.server_address.ip_addr_list ≡ ip ∷ ips) (server : v.is_local ≡ false)
      (fresh : v.stage ≡ init) (fresh_v : v.encryptor ≡ create ep drawn')
      (none_v : v.data_to_write ≡ []) (enough : ep.iv_len ≤ length drawn)
      (reachable : IsReachable q d) (traffic_c : AreTraffic events_c)
      (traffic_v : AreTraffic events_v)
      (ran_c : run q crypto (local_ready_read (5 ∷ 1 ∷ 0 ∷ header_of q d ++ first) ∷ events_c) c
        ≡ ok (c', es_c))
      (ran_v : run q crypto (local_ready_read piece ∷ events_v) v ≡ ok (v', es_v))
      (some_bytes : 0 < length piece) (whole_iv : ep.iv_len ≤ length piece)
      (opens : decrypt crypto v.encryptor piece ≡ ok (e, opened))
      (long : length (header_of q d) ≤ length opened) where
    one_stream :
        (a : Encryptor Pipe) × (over_segments
            (encrypt crypto)
            (create ep drawn)
            ((header_of q d ++ first) ∷ local_pieces events_c)
          ≡ ok (a, upstream es_c ++ c'.data_to_write))
    one_stream =
        let (a, sent) =
          client_stream q laws crypto c c' es_c first events_c d ip ips client waits none_c knows
            reachable traffic_c ran_c in
        (
          a,
          ap
                (λ x.
                  over_segments (encrypt crypto) x
                    ((header_of q d ++ first) ∷ local_pieces events_c))
                (sym fresh_c)
              ∙ sent,
        )

    -- The request of a SOCKS client for a reachable destination with a port below 2 ^ 16 (an IPv4
    -- address; one that is not null and is made again of its sixteen bytes; or a host name that is
    -- no IP address, has no spaces around it, is at most 255 bytes long in the local encoding and
    -- is made again of these bytes) comes to a fresh local relay that knows an IP address of its
    -- server, and a fresh relay of the server has the same settings. After any runs of both that
    -- return, in which nothing closes them, with the bytes cut in any way between them, of which
    -- the first piece holds the IV and the header: the server has first connected to exactly that
    -- address and port, or asked for exactly that name, and if all that left the local relay has
    -- arrived, and nothing waits there, what the server has written to the destination, with what
    -- waits for it, is exactly what the client sent behind its request.
    pub session_delivers :
        flatten (piece ∷ local_pieces events_v) ≡ upstream es_c
        → c'.data_to_write ≡ []
        → (upstream es_v ++ v'.data_to_write ≡ flatten (first ∷ local_pieces events_c))
          × ((later : List (Effect Host)) × (es_v ≡ info ∷ reaches d ∷ timer_start ∷ later))
    unfolding flatten
    session_delivers came none =
        let (a, sent) = one_stream in
        let (b, back) =
          decrypt_segments-encrypt_segments crypto crypto_laws ep drawn drawn'
            (header_of q d ++ first) piece (local_pieces events_c) (local_pieces events_v) a
            (upstream es_c ++ c'.data_to_write) enough whole_iv sent
            (came ∙ sym (append-nil (upstream es_c)) ∙ ap (λ w. upstream es_c ++ w) (sym none)) in
        server_stream q laws crypto v v' es_v piece opened (flatten (first ∷ local_pieces events_c))
          e b events_v d server fresh none_v reachable traffic_v some_bytes long opens
          (ap (λ x. over_segments (decrypt crypto) x (piece ∷ local_pieces events_v)) fresh_v
            ∙ back
            ∙ ap (λ o. ok (b, o))
                (append_assoc (header_of q d) first (flatten (local_pieces events_c))))
          ran_v

    -- The request of a SOCKS client for a reachable destination with a port below 2 ^ 16 (an IPv4
    -- address; one that is not null and is made again of its sixteen bytes; or a host name that is
    -- no IP address, has no spaces around it, is at most 255 bytes long in the local encoding and
    -- is made again of these bytes) comes to a fresh local relay that knows an IP address of its
    -- server, and a fresh relay of the server has the same settings. After any runs of both that
    -- return, in which nothing closes them, where some of the bytes that left the local relay or
    -- wait there have arrived, cut in any way, but with the IV and the header in the first piece:
    -- what the server has written to the destination, with what waits for it, is the beginning of
    -- what the client sent behind its request.
    pub session_so_far :
        (flight : List ℕ)
        → flatten (piece ∷ local_pieces events_v) ++ flight ≡ upstream es_c ++ c'.data_to_write
        → (late : List ℕ) × ((upstream es_v ++ v'.data_to_write) ++ late
            ≡ flatten (first ∷ local_pieces events_c))
    unfolding flatten over_segments
    session_so_far flight came =
        let header = header_of q d in
        let (a, sent) = one_stream in
        let (b, got, late, back, begins) =
          opened_so_far crypto crypto_laws ep drawn drawn' (header ++ first) piece flight
            (local_pieces events_c) (local_pieces events_v) a (upstream es_c ++ c'.data_to_write)
            enough whole_iv sent came in
        let back_v : over_segments (decrypt crypto) v.encryptor (piece ∷ local_pieces events_v)
            ≡ ok (b, got) =
          ap (λ x. over_segments (decrypt crypto) x (piece ∷ local_pieces events_v)) fresh_v
          ∙ back in
        let (r, one, tail) = >>=-eq-ok (decrypt crypto v.encryptor piece) _ back_v in
        let (m, _, sum) =
          >>=-eq-ok (over_segments (decrypt crypto) r.0 (local_pieces events_v)) (joined r.1)
            tail in
        let is_got : opened ++ m.1 ≡ got =
          ap (λ (x : Encryptor Pipe × List ℕ). x.1 ++ m.1) (ok_injective (sym opens ∙ one))
          ∙ ap (λ (x : Encryptor Pipe × List ℕ). x.1) (ok_injective sum) in
        let (shape, behind) =
          behind_header header got late (flatten (first ∷ local_pieces events_c))
            (omega (arith, long, length-append opened m.1, ap length is_got))
            (begins ∙ append_assoc header first (flatten (local_pieces events_c))) in
        let (written, _) =
          server_stream q laws crypto v v' es_v piece opened (drop (length header) got) e b events_v
            d server fresh none_v reachable traffic_v some_bytes long opens
            (back_v ∙ ap (λ o. ok (b, o)) shape) ran_v in
        (late, ap (λ w. w ++ late) written ∙ behind)
