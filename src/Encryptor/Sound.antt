-- ===== src/Encryptor/Sound.antt =====
-- Encryptors whose ciphers are ready for use, in lib/encryptor.cpp.
use shadowsocks_qt.Prelude.{
  ℕ, ◌≤◌, ◌≡◌, refl, sym, subst, List, Bool, Bool-cases, inl, inr, Option, some, none, ◌==◌, ==_iff,
  length, take, drop, ok, Returns, Returns-bind, Never, arith, true, false,
}
use shadowsocks_qt.Qt.{Qt}
use shadowsocks_qt.Crypto.{Crypto, CryptoLaws}
use shadowsocks_qt.ChaCha.{ChaCha}
use shadowsocks_qt.ChaCha
use shadowsocks_qt.ChaCha.Stream.{IsReady, advances-IsReady}
use shadowsocks_qt.ChaCha.Update.{update-masked}
use shadowsocks_qt.Cipher
use shadowsocks_qt.Cipher.{Cipher}
use shadowsocks_qt.Cipher.Create.{random_iv-length}
use shadowsocks_qt.ChaCha.Create.{IsIvLength, create-IsReady}
use shadowsocks_qt.EncryptorPrivate
use shadowsocks_qt.EncryptorPrivate.{EncryptorPrivate}
use shadowsocks_qt.EncryptorPrivate.Methods.{chacha_lengths}
use shadowsocks_qt.Encryptor.{
  Encryptor, Handle, null, live, deleted, create, encrypt, decrypt, encrypt_with, decrypt_with,
}

module _ {Pipe : Type 0} where
  abbrev IsReadyWith : Option ChaCha → Option Pipe → Type 0
  IsReadyWith (some k) p = IsReady k
  IsReadyWith none (some p) = Unit
  IsReadyWith none none = Never

  -- A cipher that works: a filled buffer of its own, or a pipe.
  abbrev pub IsWorking : Cipher Pipe → Type 0
  IsWorking c = IsReadyWith c.chacha c.pipe

  abbrev IsUsable : Handle Pipe → Type 0
  IsUsable null = Unit
  IsUsable (live c) = IsWorking c
  IsUsable deleted = Never

module _ {Pipe : Type 0} (crypto : Crypto Pipe) where
  -- Settings with which a cipher is made for every IV of their length.
  abbrev pub IsMaking : EncryptorPrivate → Type 0
  IsMaking ep =
      (iv : List ℕ) (encode : Bool)
      → length iv ≡ ep.iv_len
      → Returns IsWorking (Cipher.create crypto ep.method ep.key iv encode)

  abbrev pub IsSound : Encryptor Pipe → Type 0
  IsSound e =
      IsMaking e.ep
      × (length e.en_cipher_iv ≡ e.ep.iv_len)
      × IsUsable e.en_cipher
      × IsUsable e.de_cipher

  update_with-IsWorking :
      (k : Option ChaCha) (p : Option Pipe) (c : Cipher Pipe) (input : List ℕ)
      → IsReadyWith k p
      → c.chacha ≡ k
      → Returns (λ r. IsWorking r.0) (Cipher.update_with crypto c k p input)
  update_with-IsWorking (some k) p c input ready is =
      rw (update-masked crypto.botan k input ready)
        (advances-IsReady crypto.botan (length input) k ready)
  update_with-IsWorking none (some p) c input ready is = rw is tt
  update_with-IsWorking none none c input ready is = elim ready [ ]

  update-IsWorking :
      (c : Cipher Pipe) (input : List ℕ)
      → IsWorking c
      → Returns (λ r. IsWorking r.0) (Cipher.update crypto c input)
  unfolding Cipher.update
  update-IsWorking c input works = update_with-IsWorking c.chacha c.pipe c input works refl

  encrypt_with-IsSound :
      (h : Handle Pipe) (e : Encryptor Pipe) (input : List ℕ)
      → IsUsable h
      → IsSound e
      → Returns (λ r. IsSound r.0) (encrypt_with crypto e h input)
  encrypt_with-IsSound null e input usable s =
      Returns-bind IsWorking (λ r. IsSound r.0)
        (Cipher.create crypto e.ep.method e.ep.key e.en_cipher_iv true) _
        (s.0 e.en_cipher_iv true s.1)
        (λ c works.
          Returns-bind (λ r. IsWorking r.0) (λ r. IsSound r.0) (Cipher.update crypto c input) _
            (update-IsWorking c input works) (λ r w. (s.0, s.1, w, s.3)))
  encrypt_with-IsSound (live c) e input usable s =
      Returns-bind (λ r. IsWorking r.0) (λ r. IsSound r.0) (Cipher.update crypto c input) _
        (update-IsWorking c input usable) (λ r w. (s.0, s.1, w, s.3))
  encrypt_with-IsSound deleted e input usable s = elim usable [ ]

  decrypt_with-IsSound :
      (h : Handle Pipe) (e : Encryptor Pipe) (input : List ℕ)
      → IsUsable h
      → IsSound e
      → Returns (λ r. IsSound r.0) (decrypt_with crypto e h input)
  decrypt_with-IsSound null e input usable s =
      elim (Bool-cases (length (take e.ep.iv_len input) == e.ep.iv_len)) [
        | inl whole ↦ rw whole (
            Returns-bind IsWorking (λ r. IsSound r.0)
              (Cipher.create crypto e.ep.method e.ep.key (take e.ep.iv_len input) false) _
              (s.0 (take e.ep.iv_len input) false ((==_iff _ _).0 whole))
              (λ c works.
                Returns-bind (λ r. IsWorking r.0) (λ r. IsSound r.0)
                  (Cipher.update crypto c (drop e.ep.iv_len input)) _
                  (update-IsWorking c (drop e.ep.iv_len input) works) (λ r w. (s.0, s.1, s.2, w))))
        | inr part ↦ rw part s
      ]
  decrypt_with-IsSound (live c) e input usable s =
      Returns-bind (λ r. IsWorking r.0) (λ r. IsSound r.0) (Cipher.update crypto c input) _
        (update-IsWorking c input usable) (λ r w. (s.0, s.1, s.2, w))
  decrypt_with-IsSound deleted e input usable s = elim usable [ ]

  pub encrypt-IsSound :
      (e : Encryptor Pipe) (input : List ℕ)
      → IsSound e
      → Returns (λ r. IsSound r.0) (encrypt crypto e input)
  unfolding encrypt
  encrypt-IsSound e input s = encrypt_with-IsSound e.en_cipher e input s.2 s

  pub decrypt-IsSound :
      (e : Encryptor Pipe) (input : List ℕ)
      → IsSound e
      → Returns (λ r. IsSound r.0) (decrypt crypto e input)
  unfolding decrypt
  decrypt-IsSound e input s = decrypt_with-IsSound e.de_cipher e input s.3 s

  pub create-IsSound :
      (ep : EncryptorPrivate) (drawn : List ℕ)
      → IsMaking ep
      → ep.iv_len ≤ length drawn
      → IsSound (create ep drawn)
  unfolding create
  create-IsSound ep drawn makes enough = (makes, random_iv-length ep.iv_len drawn enough, tt, tt)

  -- Settings of a ChaCha method make a cipher for every IV of their length.
  pub chacha-IsMaking :
      {Host : Type 0} (q : Qt Host) (laws : CryptoLaws crypto) (m pwd : List ℕ)
      (ep : EncryptorPrivate)
      → EncryptorPrivate.create crypto q m pwd ≡ ok ep
      → Cipher.is_chacha ep.method ≡ true
      → IsMaking ep
  unfolding Cipher.create
  chacha-IsMaking q laws m pwd ep made own iv encode long =
      let (key, fits) = chacha_lengths q crypto laws m pwd ep made own in
      rw own (
        Returns-bind IsReady IsWorking (ChaCha.create crypto.botan ep.key iv) _
          (create-IsReady crypto.botan ep.key iv (omega (arith, key))
            (subst IsIvLength (sym long) fits))
          (λ c ready. ready))
