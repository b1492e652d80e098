-- ===== src/Encryptor/Udp.antt =====
-- Datagrams through `encryptAll` and `decryptAll`.
use shadowsocks_qt.Prelude.{
  ℕ, ◌≤◌, ◌<◌, ◌≡◌, refl, sym, ap, ◌∙◌, List, [], ◌∷◌, ◌++◌, append-nil, true, false, ◌==◌, length,
  length-append, length-take, subst, take, drop, flatten, ok, err, ◌>>=◌, >>=-eq-ok, ok_injective,
  over_segments, dangling, arith,
}
use shadowsocks_qt.Crypto.{Crypto, CryptoLaws}
use shadowsocks_qt.Cipher
use shadowsocks_qt.Cipher.{Cipher}
use shadowsocks_qt.Cipher.Stream.{create-Reads}
use shadowsocks_qt.EncryptorPrivate.{EncryptorPrivate}
use shadowsocks_qt.Encryptor.{Encryptor, Handle, live, delete_later, encrypt_all, decrypt_all}
use shadowsocks_qt.Encryptor.Tcp.{behind_iv}

module _ {Pipe : Type 0} (crypto : Crypto Pipe) where
  -- One call of a cipher is a stream of one segment.
  one_segment :
      (c : Cipher Pipe) (xs : List ℕ) {r : Cipher Pipe × List ℕ}
      → Cipher.update crypto c xs ≡ ok r
      → Cipher.update_all crypto c (xs ∷ []) ≡ ok r
  unfolding over_segments
  one_segment c xs e = rw e (simp append-nil)

  from_one_segment :
      (c : Cipher Pipe) (xs : List ℕ) {r : Cipher Pipe × List ℕ}
      → Cipher.update_all crypto c (xs ∷ []) ≡ ok r
      → Cipher.update crypto c xs ≡ ok r
  unfolding over_segments
  from_one_segment c xs e =
      let (s, done, same) = >>=-eq-ok (Cipher.update crypto c xs) _ e in
      done ∙ ap (λ out. ok (s.0, out)) (sym (append-nil s.1)) ∙ same

  decrypt_whole :
      (b : Encryptor Pipe) (out iv plain : List ℕ) (left : Handle Pipe) (d d' : Cipher Pipe)
      → delete_later b.de_cipher ≡ ok left
      → b.ep.iv_len ≤ length out
      → take b.ep.iv_len out ≡ iv
      → Cipher.create crypto b.ep.method b.ep.key iv false ≡ ok d
      → Cipher.update crypto d (drop b.ep.iv_len out) ≡ ok (d', plain)
      → decrypt_all crypto b out ≡ ok (record b { de_cipher = live d' }, plain)
  unfolding decrypt_all
  decrypt_whole b out iv plain left d d' alive enough front made ran =
      rw (alive, whole, front, made, ran) refl
    where
      whole : (length (take b.ep.iv_len out) == b.ep.iv_len) ≡ true
      whole = ground (arith, length-take b.ep.iv_len out)

  -- A datagram that is too short leaves a pointer to a deleted cipher, where there was one; then
  -- every later datagram, whatever it holds, uses the deleted object.
  pub decrypt_all_dangling :
      (e : Encryptor Pipe) (c : Cipher Pipe) (xs ys : List ℕ)
      → e.de_cipher ≡ live c
      → length xs < e.ep.iv_len
      → (decrypt_all crypto e xs >>= λ r. decrypt_all crypto r.0 ys) ≡ err dangling
  unfolding decrypt_all
  decrypt_all_dangling e c xs ys here short = rw here (rw part refl)
    where
      part : (length (take e.ep.iv_len xs) == e.ep.iv_len) ≡ false
      part = ground (arith, length-take e.ep.iv_len xs)

module _ {Pipe : Type 0} (crypto : Crypto Pipe) (laws : CryptoLaws crypto) where
  -- What one encryptor, with an IV of the length of its settings, makes of a datagram, another
  -- with the same settings turns back into the datagram, whatever either has done before, unless
  -- the cipher of the other is a deleted object.
  pub decrypt_all-encrypt_all :
      (a a' b : Encryptor Pipe) (drawn xs out : List ℕ) (left : Handle Pipe)
      → length a.en_cipher_iv ≡ a.ep.iv_len
      → a.ep ≡ b.ep
      → delete_later b.de_cipher ≡ ok left
      → encrypt_all crypto a drawn xs ≡ ok (a', out)
      → (b' : Encryptor Pipe) × (decrypt_all crypto b out ≡ ok (b', xs))
  unfolding encrypt_all flatten
  decrypt_all-encrypt_all a a' b drawn xs out left size same alive sent =
      let iv = a.en_cipher_iv in
      let n = a.ep.iv_len in
      let (h, _, sent1) = >>=-eq-ok (delete_later a.en_cipher) _ sent in
      let (c, made, sent2) =
        >>=-eq-ok (Cipher.create crypto a.ep.method a.ep.key iv true) _ sent1 in
      let (r, done, is_out) = >>=-eq-ok (Cipher.update crypto c xs) _ sent2 in
      let shape : out ≡ iv ++ r.1 = sym (ap (λ p. p.1) (ok_injective is_out)) in
      let fits : n ≤ length out = omega (arith, ap length shape, length-append iv r.1, size) in
      let (front, body) = behind_iv n iv r.1 out [] size fits (append-nil out ∙ shape) in
      let (d, made_d, reads) = create-Reads crypto laws a.ep.method a.ep.key iv c made in
      let (d', back) =
        reads (xs ∷ []) (drop n out ∷ []) r.0 r.1 (one_segment crypto c xs done) body in
      let back' : Cipher.update crypto d (drop n out) ≡ ok (d', xs) =
        from_one_segment crypto d (drop n out) back ∙ ap (λ o. ok (d', o)) (append-nil xs) in
      (
        record b { de_cipher = live d' },
        decrypt_whole crypto b out iv xs left d d' alive
            (subst (λ (ep : EncryptorPrivate). ep.iv_len ≤ length out) same fits)
            (subst (λ (ep : EncryptorPrivate). take ep.iv_len out ≡ iv) same front)
            (subst
              (λ (ep : EncryptorPrivate). Cipher.create crypto ep.method ep.key iv false ≡ ok d)
              same made_d)
            (subst
              (λ (ep : EncryptorPrivate). Cipher.update crypto d (drop ep.iv_len out) ≡ ok (d', xs))
              same back'),
      )
