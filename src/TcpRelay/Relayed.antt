-- ===== src/TcpRelay/Relayed.antt =====
-- Both sides of a proxied connection: the local relay and the relay of the server, in
-- lib/tcprelay.cpp.
use shadowsocks_qt.Prelude.{
  ℕ, ◌^◌, ◌≤◌, ◌<◌, ◌≡◌, refl, sym, ap, ◌∙◌, List, [], ◌∷◌, ◌++◌, append-nil, true, false, length,
  length-append, flatten, Result, ok, >>=-eq-ok, ok_injective, arith, over_segments,
}
use shadowsocks_qt.Qt.{Qt, QtLaws}
use shadowsocks_qt.Crypto.{Crypto, CryptoLaws}
use shadowsocks_qt.Cipher
use shadowsocks_qt.Address.{of_host}
use shadowsocks_qt.Common.Header.{pack_host}
use shadowsocks_qt.Common.Header.Hosts.{IsPlainHost}
use shadowsocks_qt.EncryptorPrivate.{EncryptorPrivate}
use shadowsocks_qt.Encryptor.{Encryptor, create, encrypt, decrypt}
use shadowsocks_qt.Cipher.Create.{random_iv-length}
use shadowsocks_qt.Encryptor.Tcp.{decrypt_segments-encrypt_segments}
use shadowsocks_qt.TcpRelay.{
  init, addr, connecting, TcpRelay, Effect, info, connect_to, on_local_ready_read,
}
use shadowsocks_qt.TcpRelay.Requests.{on_local_ready_read-pack_host, on_local_ready_read-connect}

module _ {Pipe : Type 0} (crypto : Crypto Pipe) where
  one_segment :
      (f : Encryptor Pipe → List ℕ → Result (Encryptor Pipe × List ℕ)) (e : Encryptor Pipe)
      (xs : List ℕ) {r : Encryptor Pipe × List ℕ}
      → f e xs ≡ ok r
      → over_segments f e (xs ∷ []) ≡ ok r
  unfolding over_segments
  one_segment f e xs h = rw h (simp append-nil)

  from_one_segment :
      (f : Encryptor Pipe → List ℕ → Result (Encryptor Pipe × List ℕ)) (e : Encryptor Pipe)
      (xs : List ℕ) {r : Encryptor Pipe × List ℕ}
      → over_segments f e (xs ∷ []) ≡ ok r
      → f e xs ≡ ok r
  unfolding over_segments
  from_one_segment f e xs h =
      let (s, done, same) = >>=-eq-ok (f e xs) _ h in
      done ∙ ap (λ out. ok (s.0, out)) (sym (append-nil s.1)) ∙ same

  -- The first bytes of an encryptor hold the whole IV.
  pub first_length :
      (ep : EncryptorPrivate) (drawn xs out : List ℕ) (a : Encryptor Pipe)
      → ep.iv_len ≤ length drawn
      → encrypt crypto (create ep drawn) xs ≡ ok (a, out)
      → ep.iv_len ≤ length out
  unfolding encrypt create
  first_length ep drawn xs out a enough sent =
      let (c, _, sent1) =
        >>=-eq-ok (Cipher.create crypto ep.method ep.key (Cipher.random_iv ep.iv_len drawn) true) _
          sent in
      let (r, _, is_out) = >>=-eq-ok (Cipher.update crypto c xs) _ sent1 in
      let shape : out ≡ Cipher.random_iv ep.iv_len drawn ++ r.1 =
        sym (ap (λ p. p.1) (ok_injective is_out)) in
      omega (
        arith,
        ap length shape,
        length-append (Cipher.random_iv ep.iv_len drawn) r.1,
        random_iv-length ep.iv_len drawn enough,
      )

module _ {Pipe : Type 0} (crypto : Crypto Pipe) (crypto_laws : CryptoLaws crypto) where
  -- The first bytes of an encryptor, received in one piece.
  pub opened_whole :
      (ep : EncryptorPrivate) (drawn drawn' xs out : List ℕ) (a : Encryptor Pipe)
      → ep.iv_len ≤ length drawn
      → encrypt crypto (create ep drawn) xs ≡ ok (a, out)
      → (b : Encryptor Pipe) × (decrypt crypto (create ep drawn') out ≡ ok (b, xs))
  unfolding flatten
  opened_whole ep drawn drawn' xs out a enough sent =
      let (b, back) =
        decrypt_segments-encrypt_segments crypto crypto_laws ep drawn drawn' xs out [] [] a out
          enough (first_length crypto ep drawn xs out a enough sent)
          (one_segment crypto (encrypt crypto) (create ep drawn) xs sent) (append-nil out) in
      (
        b,
        from_one_segment crypto (decrypt crypto) (create ep drawn') out
            (back ∙ ap (λ o. ok (b, o)) (append-nil xs)),
      )

module _ {Host Pipe : Type 0} (q : Qt Host) (laws : QtLaws q) (crypto : Crypto Pipe)
    (crypto_laws : CryptoLaws crypto) where
  received :
      (v : TcpRelay Host Pipe) (ep : EncryptorPrivate) (out rest : List ℕ) (h : Host) (p : ℕ)
      (e : Encryptor Pipe)
      → 0 < length out
      → v.is_local ≡ false
      → v.stage ≡ init
      → v.data_to_write ≡ []
      → p < 2 ^ 16
      → IsPlainHost q h
      → decrypt crypto v.encryptor out ≡ ok (e, pack_host q h p ++ rest)
      → (v' : TcpRelay Host Pipe) × (on_local_ready_read q crypto out v
          ≡ ok (v', info ∷ connect_to h p ∷ []))
        × (v'.stage ≡ connecting)
        × (v'.data_to_write ≡ rest)
  received v ep [] rest h p e some_bytes server fresh none bound plain opened = absurd (omega arith)
  received v ep (b ∷ bs) rest h p e some_bytes server fresh none bound plain opened = (
    record v {
      stage = connecting;
      remote_address = of_host q h p;
      encryptor = e;
      data_to_write = v.data_to_write ++ rest;
    },
    on_local_ready_read-pack_host q laws crypto v b bs rest h p e server fresh bound plain opened,
    refl,
    ap (λ w. w ++ rest) none,
  )

  -- A local relay that knows an IP address of its server and has a fresh encryptor, with an IV
  -- that is not empty, returns from the request of a SOCKS client for an IP address (an IPv4
  -- address, or one that is not null and is made again of its sixteen bytes), with bytes behind
  -- it. What then waits to be sent makes a fresh relay of a server with the same settings connect
  -- to exactly that address and port, and exactly the bytes behind the request wait there.
  relayed_request :
      (c v c' : TcpRelay Host Pipe) (es : List (Effect Host)) (ep : EncryptorPrivate)
      (drawn drawn' rest : List ℕ) (h : Host) (p : ℕ) (ip : Host) (ips : List Host)
      → c.is_local ≡ true
      → c.stage ≡ addr
      → c.encryptor ≡ create ep drawn
      → c.data_to_write ≡ []
      → c.server_address.ip_addr_list ≡ ip ∷ ips
      → v.is_local ≡ false
      → v.stage ≡ init
      → v.encryptor ≡ create ep drawn'
      → v.data_to_write ≡ []
      → 0 < ep.iv_len
      → ep.iv_len ≤ length drawn
      → p < 2 ^ 16
      → IsPlainHost q h
      → on_local_ready_read q crypto (5 ∷ 1 ∷ 0 ∷ pack_host q h p ++ rest) c ≡ ok (c', es)
      → (v' : TcpRelay Host Pipe) × (on_local_ready_read q crypto c'.data_to_write v
          ≡ ok (v', info ∷ connect_to h p ∷ []))
        × (v'.stage ≡ connecting)
        × (v'.data_to_write ≡ rest)
  relayed_request c v c' es ep drawn drawn' rest h p ip ips client waits fresh_c none_c knows server
        fresh fresh_v none_v some_iv enough bound plain ran =
      let text = pack_host q h p ++ rest in
      let (r, sent0, after) = >>=-eq-ok (encrypt crypto c.encryptor text) _ (
        sym (
          on_local_ready_read-connect q laws crypto c rest h p ip ips client waits knows bound
            plain)
        ∙ ran) in
      let sent : encrypt crypto (create ep drawn) text ≡ ok r =
        ap (λ e. encrypt crypto e text) (sym fresh_c) ∙ sent0 in
      let waiting : c'.data_to_write ≡ r.1 =
        sym (
          ap (λ (x : TcpRelay Host Pipe × List (Effect Host)). x.0.data_to_write)
            (ok_injective after))
        ∙ ap (λ w. w ++ r.1) none_c in
      let long : ep.iv_len ≤ length r.1 = first_length crypto ep drawn text r.1 r.0 enough sent in
      let (b, opened) = opened_whole crypto crypto_laws ep drawn drawn' text r.1 r.0 enough sent in
      rw waiting (
        received v ep r.1 rest h p b (omega arith) server fresh none_v bound plain
          (ap (λ e. decrypt crypto e r.1) fresh_v ∙ opened))
