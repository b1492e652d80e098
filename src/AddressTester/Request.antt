-- ===== src/AddressTester/Request.antt =====
-- The request of lib/addresstester.cpp as the server of lib/tcprelay.cpp takes it.
use shadowsocks_qt.Prelude.{
  ℕ, ◌≡◌, ◌≤◌, ◌<◌, refl, sym, ap, ◌∙◌, List, [], ◌∷◌, ◌++◌, true, false, length, ok, >>=-eq-ok,
  ok_injective, if_true, arith,
}
use shadowsocks_qt.Qt.{Qt, QtLaws}
use shadowsocks_qt.Crypto.{Crypto, CryptoLaws}
use shadowsocks_qt.Address.{of_name}
use shadowsocks_qt.Cipher.{codes}
use shadowsocks_qt.Common.Header.{pack_address}
use shadowsocks_qt.EncryptorPrivate
use shadowsocks_qt.EncryptorPrivate.{EncryptorPrivate}
use shadowsocks_qt.Encryptor
use shadowsocks_qt.Encryptor.{Encryptor, encrypt, decrypt}
use shadowsocks_qt.TcpRelay.{TcpRelay, init, dns, info, resolve, the_remote, on_local_ready_read}
use shadowsocks_qt.TcpRelay.Relayed.{first_length, opened_whole}
use shadowsocks_qt.TcpRelay.Names.{IsPlainName, on_local_ready_read-pack_address}
use shadowsocks_qt.AddressTester.{
  AddressTester, Effect, timer_stop, lag_test_finished, msecs, socket_write, payload, test_request,
  on_connected,
}

module _ {Host Pipe : Type 0} (q : Qt Host) (laws : QtLaws q) (crypto : Crypto Pipe)
    (crypto_laws : CryptoLaws crypto) where
  abbrev google : List ℕ
  google = codes "www.google.com"

  taken :
      (v : TcpRelay Host Pipe) (out : List ℕ) (e : Encryptor Pipe)
      → 0 < length out
      → v.is_local ≡ false
      → v.stage ≡ init
      → v.data_to_write ≡ []
      → IsPlainName q google
      → decrypt crypto v.encryptor out ≡ ok (e, pack_address q (of_name q google 80) ++ payload)
      → (v' : TcpRelay Host Pipe) × (on_local_ready_read q crypto out v
          ≡ ok (v', info ∷ resolve the_remote google ∷ []))
        × (v'.stage ≡ dns)
        × (v'.data_to_write ≡ payload)
  taken v [] e some_bytes server fresh waits plain opened = absurd (omega arith)
  taken v (b ∷ bs) e some_bytes server fresh waits plain opened = (
    record v {
      stage = dns;
      remote_address = of_name q google 80;
      encryptor = e;
      data_to_write = v.data_to_write ++ payload;
    },
    on_local_ready_read-pack_address q laws crypto v b bs google payload 80 e server fresh
        (omega arith) plain opened,
    refl,
    ap (λ w. w ++ payload) waits,
  )

  -- When a connectivity test is connected and the slot returns, and its method and password make
  -- settings with an IV that is not empty and for which enough random bytes were drawn: it stops its
  -- timer, reports the latency and writes bytes, and a fresh relay of a server with the same settings
  -- that receives these bytes in one piece looks up www.google.com, with exactly the HTTP request
  -- waiting for it. The name must be no IP address, have no spaces around it, and be made again of
  -- its bytes, of which there are at most 255.
  pub on_connected-looked_up :
      (s : AddressTester Host) (v : TcpRelay Host Pipe) (ep : EncryptorPrivate) (ms : ℕ)
      (drawn drawn' : List ℕ) (r : AddressTester Host × List (Effect Host))
      → s.testing_connectivity ≡ true
      → EncryptorPrivate.create crypto q s.encryption_method s.encryption_password ≡ ok ep
      → 0 < ep.iv_len
      → ep.iv_len ≤ length drawn
      → v.is_local ≡ false
      → v.stage ≡ init
      → v.encryptor ≡ Encryptor.create ep drawn'
      → v.data_to_write ≡ []
      → IsPlainName q (codes "www.google.com")
      → on_connected q crypto ms drawn s ≡ ok r
      → (bytes : List ℕ) × (r.1
          ≡ timer_stop ∷ lag_test_finished (msecs ms) ∷ socket_write bytes ∷ [])
        × (v' : TcpRelay Host Pipe) × (on_local_ready_read q crypto bytes v
            ≡ ok (v', info ∷ resolve the_remote (codes "www.google.com") ∷ []))
        × (v'.stage ≡ dns)
        × (v'.data_to_write ≡ payload)
  unfolding on_connected
  on_connected-looked_up s v ep ms drawn drawn' r tests made some_iv enough server fresh fresh_v
        waits plain ran =
      let (bytes, wrote, is_r) =
        >>=-eq-ok (test_request q crypto drawn s) _ (sym (if_true tests _ _) ∙ ran) in
      let (ep', made', sent0) =
        >>=-eq-ok (EncryptorPrivate.create crypto q s.encryption_method s.encryption_password) _
          wrote in
      let text = pack_address q (of_name q google 80) ++ payload in
      let same : ep' ≡ ep = ok_injective (sym made' ∙ made) in
      let (x, sent1, is_bytes) =
        >>=-eq-ok (encrypt crypto (Encryptor.create ep' drawn) text) _ sent0 in
      let sent : encrypt crypto (Encryptor.create ep drawn) text ≡ ok (x.0, bytes) =
        ap (λ p. encrypt crypto (Encryptor.create p drawn) text) (sym same)
        ∙ sent1
        ∙ ap (λ o. ok (x.0, o)) (ok_injective is_bytes) in
      let long : ep.iv_len ≤ length bytes =
        first_length crypto ep drawn text bytes x.0 enough sent in
      let (b, opened) =
        opened_whole crypto crypto_laws ep drawn drawn' text bytes x.0 enough sent in
      let (v', took, looks, keeps) =
        taken v bytes b (omega arith) server fresh waits plain
          (ap (λ e. decrypt crypto e bytes) fresh_v ∙ opened) in
      (
        bytes,
        ap (λ (t : AddressTester Host × List (Effect Host)). t.1) (sym (ok_injective is_r)),
        v',
        took,
        looks,
        keeps,
      )
