-- ===== src/Controller/Setup.antt =====
-- `setup` of lib/controller.cpp and the encryptor that its UDP relay was made with.
use shadowsocks_qt.Prelude.{
  ℕ, ◌≡◌, refl, subst, ap, ◌∙◌, List, [], Bool, true, false, length, ok, err, >>=-eq-ok,
  ok_injective, length_error, inl, inr, Ensures, Ensures-bind_of, Ensures-bind, if_elim,
  if◌then◌else◌, arith,
}
use shadowsocks_qt.Qt.{Qt}
use shadowsocks_qt.Crypto.{Crypto, CryptoLaws}
use shadowsocks_qt.ChaCha.Create.{IsIvLength, create_refused}
use shadowsocks_qt.Cipher
use shadowsocks_qt.Cipher.{is_chacha, random_iv}
use shadowsocks_qt.EncryptorPrivate
use shadowsocks_qt.EncryptorPrivate.{EncryptorPrivate}
use shadowsocks_qt.EncryptorPrivate.Methods.{chacha_key}
use shadowsocks_qt.Encryptor
use shadowsocks_qt.Encryptor.{Encryptor, null, encrypt_all}
use shadowsocks_qt.TcpServer
use shadowsocks_qt.UdpRelay
use shadowsocks_qt.Profile.{Profile}
use shadowsocks_qt.Controller.{
  Controller, Network, Effect, create, create_with, setup, refer, close_tcp, close_udp, server_of,
}

module _ {Host Pipe : Type 0} (q : Qt Host) (n : Network Host) (crypto : Crypto Pipe) where
  -- Made by the constructor that is given a profile.
  made_with :
      (p : Profile) (is_local auto_ban : Bool) (concurrency : ℕ) (banned : List Host)
      (drawn : List ℕ) (received sent : ℕ) (r : Controller Host Pipe × List (Effect Host))
      → create_with q n crypto p is_local auto_ban concurrency banned drawn received sent ≡ ok r
      → (EncryptorPrivate.create crypto q p.method p.password ≡ ok r.0.ep)
        × (r.0.udp_relay.encryptor.ep ≡ r.0.ep)
        × (r.0.udp_relay.encryptor.en_cipher_iv ≡ [])
        × (r.0.udp_relay.encryptor.en_cipher ≡ null)
  unfolding create_with setup create refer TcpServer.create UdpRelay.create Encryptor.create
      random_iv
  made_with p is_local auto_ban concurrency banned drawn received sent r h =
      let (ep, made, rest) = >>=-eq-ok (EncryptorPrivate.create crypto q p.method p.password) _ h in
      subst
        (λ (r : Controller Host Pipe × List (Effect Host)).
          (EncryptorPrivate.create crypto q p.method p.password ≡ ok r.0.ep)
          × (r.0.udp_relay.encryptor.ep ≡ r.0.ep)
          × (r.0.udp_relay.encryptor.en_cipher_iv ≡ [])
          × (r.0.udp_relay.encryptor.en_cipher ≡ null))
        (ok_injective rest) (made, refl, refl, refl)

  empty_iv : ¬ IsIvLength 0
  empty_iv (inl h) = omega arith
  empty_iv (inr h) = omega arith

  no_iv :
      (laws : CryptoLaws crypto) (e : Encryptor Pipe) (drawn input : List ℕ)
      → e.en_cipher_iv ≡ []
      → e.en_cipher ≡ null
      → is_chacha e.ep.method ≡ true
      → length e.ep.key ≡ 32
      → encrypt_all crypto e drawn input ≡ err length_error
  unfolding encrypt_all Cipher.create
  no_iv laws e drawn input none fresh own long =
      rw (fresh, none, own)
        (rw (create_refused crypto.botan e.ep.key [] (omega (arith, long)) empty_iv) refl)

  -- A controller whose constructor returns with a profile of a ChaCha method: the encryptor of its
  -- UDP relay was made before the settings, with an empty IV, so the first datagram that it is to
  -- encrypt, whatever it is, ends in the exception of the cipher for the length of its IV.
  pub encrypt_all_first :
      (laws : CryptoLaws crypto) (p : Profile) (is_local auto_ban : Bool) (concurrency : ℕ)
      (banned : List Host) (drawn drawn' input : List ℕ) (received sent : ℕ)
      (r : Controller Host Pipe × List (Effect Host))
      → create_with q n crypto p is_local auto_ban concurrency banned drawn received sent ≡ ok r
      → is_chacha r.0.ep.method ≡ true
      → encrypt_all crypto r.0.udp_relay.encryptor drawn' input ≡ err length_error
  encrypt_all_first laws p is_local auto_ban concurrency banned drawn drawn' input received sent r h
        own =
      let (made, same, none, fresh) =
        made_with p is_local auto_ban concurrency banned drawn received sent r h in
      no_iv laws r.0.udp_relay.encryptor drawn' input none fresh
        (ap (λ (e : EncryptorPrivate). is_chacha e.method) same ∙ own)
        (ap (λ (e : EncryptorPrivate). length e.key) same
          ∙ chacha_key q crypto laws p.method p.password r.0.ep made own)

  -- Whatever listened before: when `setup` returns, neither the TCP server nor the UDP relay
  -- listens, the controller is valid exactly if its new settings are, and it has the new profile.
  pub setup-stopped :
      (p : Profile) (drawn : List ℕ) (s : Controller Host Pipe)
      → Ensures
          (λ r.
            (r.0.tcp_server.is_listening ≡ false)
            × (r.0.udp_listening ≡ false)
            × (r.0.valid ≡ r.0.ep.valid)
            × (r.0.profile ≡ p))
          (setup q n crypto p drawn s)
  unfolding setup close_tcp close_udp refer TcpServer.close
  setup-stopped p drawn s =
      let a = (server_of q n p s.server_address).0 in
      Ensures-bind Stopped (EncryptorPrivate.create crypto q p.method p.password) _ λ ep.
        let s1 = refer a ep (record s { profile = p; valid = ep.valid }) in
        let s2 = if s1.tcp_server.is_listening then close_tcp s1 else s1 in
        let off : Closed s2 =
          if_elim Closed s1.tcp_server.is_listening (λ _. (refl, refl, refl))
            (λ h. (h, refl, refl)) in
        Ensures-bind_of Off Stopped (if s2.udp_listening then close_udp drawn s2 else ok s2) _
          (if_elim (Ensures Off) s2.udp_listening
            (λ _.
              Ensures-bind Off (UdpRelay.close drawn s2.udp_relay) _
                λ r. (off.0, refl, off.1, off.2))
            (λ h. (off.0, h, off.1, off.2)))
          λ s3 h. h
    where
      Closed : Controller Host Pipe → Type 0
      Closed t = (t.tcp_server.is_listening ≡ false) × (t.valid ≡ t.ep.valid) × (t.profile ≡ p)

      Off : Controller Host Pipe → Type 0
      Off t =
          (t.tcp_server.is_listening ≡ false)
          × (t.udp_listening ≡ false)
          × (t.valid ≡ t.ep.valid)
          × (t.profile ≡ p)

      Stopped : Controller Host Pipe × List (Effect Host) → Type 0
      Stopped r = Off r.0
