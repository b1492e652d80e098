-- ===== src/Tunnel/Total.antt =====
-- Failures of the relays of a connection behind its request, in lib/tcprelay.cpp.
use shadowsocks_qt.Prelude.{
  ℕ, ◌≤◌, ◌<◌, ◌≡◌, sym, ap, ◌∙◌, subst, List, [], ◌∷◌, ◌++◌, true, false, length, Result, ok,
  ◌>>=◌, Returns, Returns-ok, arith,
}
use shadowsocks_qt.Qt.{Qt, QtLaws}
use shadowsocks_qt.Crypto.{Crypto, CryptoLaws}
use shadowsocks_qt.Cipher.{is_chacha}
use shadowsocks_qt.EncryptorPrivate
use shadowsocks_qt.EncryptorPrivate.{EncryptorPrivate}
use shadowsocks_qt.Encryptor.{Encryptor, create, encrypt, decrypt}
use shadowsocks_qt.Encryptor.Sound.{
  IsMaking, IsSound, create-IsSound, encrypt-IsSound, decrypt-IsSound, chacha-IsMaking,
}
use shadowsocks_qt.TcpRelay.{init, addr, TcpRelay, Event, local_ready_read, run, info}
use shadowsocks_qt.TcpRelay.Requests.{request_effects}
use shadowsocks_qt.TcpRelay.Connections.{IsPast}
use shadowsocks_qt.TcpRelay.Total.{first-IsFit, returned}
use shadowsocks_qt.Tunnel.Destination.{Destination, reaches, header_of, IsReachable, asked, opened}
use shadowsocks_qt.Tunnel.Begun.{requested, opened_to}
use shadowsocks_qt.Tunnel.Reached.{begins-IsPast}

module _ {Host Pipe : Type 0} (q : Qt Host) (laws : QtLaws q) (crypto : Crypto Pipe) where
  fresh-IsSound :
      (e : Encryptor Pipe) (ep : EncryptorPrivate) (drawn : List ℕ)
      → IsMaking crypto ep
      → e ≡ create ep drawn
      → ep.iv_len ≤ length drawn
      → IsSound crypto e
  fresh-IsSound e ep drawn making fresh enough =
      subst (IsSound crypto) (sym fresh) (create-IsSound crypto ep drawn making enough)

  client_goes_on :
      (c : TcpRelay Host Pipe) (first : List ℕ) (events : List (Event Host)) (d : Destination Host)
      (ip : Host) (ips : List Host)
      → IsSound crypto c.encryptor
      → c.is_local ≡ true
      → c.stage ≡ addr
      → c.server_address.ip_addr_list ≡ ip ∷ ips
      → IsReachable q d
      → Returns
          (λ r. IsPast r.0.stage)
          (run q crypto (local_ready_read (5 ∷ 1 ∷ 0 ∷ header_of q d ++ first) ∷ events) c)
  client_goes_on c first events d ip ips sound client waits knows reachable =
      let text = header_of q d ++ first in
      let (r, sent, after_sound) =
        Returns-ok (λ r. IsSound crypto r.0) (encrypt crypto c.encryptor text)
          (encrypt-IsSound crypto c.encryptor text sound) in
      returned q crypto _ (
        first-IsFit q crypto c (requested q c d r) (request_effects ip c.server_address.port)
          (5 ∷ 1 ∷ 0 ∷ text) events
          (asked q laws crypto c first d ip ips client waits knows reachable
            ∙ ap
                (λ (m : Result (Encryptor Pipe × List ℕ)).
                  m >>= λ r. ok (requested q c d r, request_effects ip c.server_address.port))
                sent)
          (tt, after_sound))

  server_goes_on :
      (v : TcpRelay Host Pipe) (piece payload : List ℕ) (e : Encryptor Pipe)
      (events : List (Event Host)) (d : Destination Host)
      → IsSound crypto v.encryptor
      → v.is_local ≡ false
      → v.stage ≡ init
      → IsReachable q d
      → 0 < length piece
      → decrypt crypto v.encryptor piece ≡ ok (e, header_of q d ++ payload)
      → Returns (λ r. IsPast r.0.stage) (run q crypto (local_ready_read piece ∷ events) v)
  server_goes_on v [] payload e events d sound server fresh reachable some_bytes opens =
      absurd (omega arith)
  server_goes_on v (b ∷ bs) payload e events d sound server fresh reachable some_bytes opens =
      returned q crypto _ (
        first-IsFit q crypto v (opened_to q v d e payload) (info ∷ reaches d ∷ []) (b ∷ bs) events
          (opened q laws crypto v b bs payload d e server fresh reachable opens)
          (
            begins-IsPast d,
            subst (Returns (λ r. IsSound crypto r.0)) opens
                (decrypt-IsSound crypto v.encryptor (b ∷ bs) sound),
          ))

  -- The request of a SOCKS client for a reachable destination with a port below 2 ^ 16 (an IPv4
  -- address; one that is not null and is made again of its sixteen bytes; or a host name that is no
  -- IP address, has no spaces around it, is at most 255 bytes long in the local encoding and is
  -- made again of these bytes) comes to a fresh local relay that knows an IP address of its server,
  -- and the first piece for a fresh relay of a server opens to its header, where both have the
  -- settings of a ChaCha method and draw enough random bytes. Whatever comes to both later, errors
  -- and ends included, no step of either fails: both runs return, and neither goes back to a stage
  -- in which a request is read.
  pub both_return :
      (crypto_laws : CryptoLaws crypto) (m pwd : List ℕ) (ep : EncryptorPrivate)
      (drawn drawn' : List ℕ) (c v : TcpRelay Host Pipe) (first piece payload : List ℕ)
      (e : Encryptor Pipe) (events_c events_v : List (Event Host)) (d : Destination Host)
      (ip : Host) (ips : List Host)
      → EncryptorPrivate.create crypto q m pwd ≡ ok ep
      → is_chacha ep.method ≡ true
      → ep.iv_len ≤ length drawn
      → ep.iv_len ≤ length drawn'
      → c.encryptor ≡ create ep drawn
      → v.encryptor ≡ create ep drawn'
      → c.is_local ≡ true
      → c.stage ≡ addr
      → c.server_address.ip_addr_list ≡ ip ∷ ips
      → v.is_local ≡ false
      → v.stage ≡ init
      → IsReachable q d
      → 0 < length piece
      → decrypt crypto v.encryptor piece ≡ ok (e, header_of q d ++ payload)
      → Returns
          (λ r. IsPast r.0.stage)
          (run q crypto (local_ready_read (5 ∷ 1 ∷ 0 ∷ header_of q d ++ first) ∷ events_c) c)
        × Returns (λ r. IsPast r.0.stage) (run q crypto (local_ready_read piece ∷ events_v) v)
  both_return crypto_laws m pwd ep drawn drawn' c v first piece payload e events_c events_v d ip ips
        made own enough enough' fresh_c fresh_v client waits knows server fresh reachable some_bytes
        opens =
      let making = chacha-IsMaking crypto q crypto_laws m pwd ep made own in
      (
        client_goes_on c first events_c d ip ips
            (fresh-IsSound c.encryptor ep drawn making fresh_c enough) client waits knows reachable,
        server_goes_on v piece payload e events_v d
            (fresh-IsSound v.encryptor ep drawn' making fresh_v enough') server fresh reachable
            some_bytes opens,
      )
