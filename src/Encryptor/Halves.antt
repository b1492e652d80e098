-- ===== src/Encryptor/Halves.antt =====
-- The two directions of an encryptor, in lib/encryptor.cpp: neither touches the cipher of the
-- other.
use shadowsocks_qt.Prelude.{
  ℕ, ◌≡◌, refl, sym, ap, ◌∙◌, List, Bool, true, false, if◌then◌else◌, ◌==◌, Bool-cases, inl, inr,
  length, take, drop, Result, ok, ◌>>=◌, >>=-eq-ok, >>=_assoc, ok_injective, lifted, over_segments,
  over_segments-lifted,
}
use shadowsocks_qt.Crypto.{Crypto}
use shadowsocks_qt.Cipher
use shadowsocks_qt.Encryptor.{
  Encryptor, Handle, null, live, deleted, encrypt, decrypt, encrypt_with, decrypt_with,
}

module _ {Pipe : Type 0} where
  -- The encryptor with another cipher for the other direction; the flag names the direction that
  -- stays, `true` for encryption.
  abbrev pub beside : Bool → Handle Pipe → Encryptor Pipe → Encryptor Pipe
  beside true h e = record e { de_cipher = h }
  beside false h e = record e { en_cipher = h }

module _ {Pipe : Type 0} (crypto : Crypto Pipe) where
  -- One direction, and the other.
  abbrev pub sealed : Bool → Encryptor Pipe → List ℕ → Result (Encryptor Pipe × List ℕ)
  sealed is_local e bytes = if is_local then encrypt crypto e bytes else decrypt crypto e bytes

  abbrev pub opposite : Bool → Encryptor Pipe → List ℕ → Result (Encryptor Pipe × List ℕ)
  opposite is_local e bytes = if is_local then decrypt crypto e bytes else encrypt crypto e bytes

  encrypt_with-beside :
      (h d : Handle Pipe) (e : Encryptor Pipe) (bytes : List ℕ)
      → encrypt_with crypto (beside true d e) h bytes
        ≡ (encrypt_with crypto e h bytes >>= lifted (beside true d))
  encrypt_with-beside null d e bytes = simp >>=_assoc
  encrypt_with-beside (live c) d e bytes = simp >>=_assoc
  encrypt_with-beside deleted d e bytes = refl

  decrypt_with-beside :
      (h d : Handle Pipe) (e : Encryptor Pipe) (bytes : List ℕ)
      → decrypt_with crypto (beside false d e) h bytes
        ≡ (decrypt_with crypto e h bytes >>= lifted (beside false d))
  decrypt_with-beside null d e bytes =
      elim (Bool-cases (length (take e.ep.iv_len bytes) == e.ep.iv_len)) [
        | inl whole ↦ rw whole (simp >>=_assoc)
        | inr part ↦ rw part refl
      ]
  decrypt_with-beside (live c) d e bytes = simp >>=_assoc
  decrypt_with-beside deleted d e bytes = refl

  -- A direction runs in the same way, whatever the cipher of the other is.
  sealed-beside :
      (b : Bool) (h : Handle Pipe) (e : Encryptor Pipe) (bytes : List ℕ)
      → sealed b (beside b h e) bytes ≡ (sealed b e bytes >>= lifted (beside b h))
  unfolding encrypt decrypt
  sealed-beside true h e bytes = encrypt_with-beside e.en_cipher h e bytes
  sealed-beside false h e bytes = decrypt_with-beside e.de_cipher h e bytes

  decrypt_with_changes :
      (h : Handle Pipe) (e : Encryptor Pipe) (bytes : List ℕ) {r : Encryptor Pipe × List ℕ}
      → decrypt_with crypto e h bytes ≡ ok r
      → (d : Handle Pipe) × (r.0 ≡ beside true d e)
  decrypt_with_changes null e bytes done =
      elim (Bool-cases (length (take e.ep.iv_len bytes) == e.ep.iv_len)) [
        | inl whole ↦
            let (c, _, ran) =
              >>=-eq-ok (Cipher.create crypto e.ep.method e.ep.key (take e.ep.iv_len bytes) false) _
                (rw whole at done) in
            let (u, _, is) = >>=-eq-ok (Cipher.update crypto c (drop e.ep.iv_len bytes)) _ ran in
            (live u.0, sym (ap (λ (p : Encryptor Pipe × List ℕ). p.0) (ok_injective is)))
        | inr part ↦ (
          e.de_cipher,
          sym (ap (λ (p : Encryptor Pipe × List ℕ). p.0) (ok_injective (rw part at done))),
        )
      ]
  decrypt_with_changes (live c) e bytes done =
      let (u, _, is) = >>=-eq-ok (Cipher.update crypto c bytes) _ done in
      (live u.0, sym (ap (λ (p : Encryptor Pipe × List ℕ). p.0) (ok_injective is)))
  decrypt_with_changes deleted e bytes done = cc

  encrypt_with_changes :
      (h : Handle Pipe) (e : Encryptor Pipe) (bytes : List ℕ) {r : Encryptor Pipe × List ℕ}
      → encrypt_with crypto e h bytes ≡ ok r
      → (d : Handle Pipe) × (r.0 ≡ beside false d e)
  encrypt_with_changes null e bytes done =
      let (c, _, ran) =
        >>=-eq-ok (Cipher.create crypto e.ep.method e.ep.key e.en_cipher_iv true) _ done in
      let (u, _, is) = >>=-eq-ok (Cipher.update crypto c bytes) _ ran in
      (live u.0, sym (ap (λ (p : Encryptor Pipe × List ℕ). p.0) (ok_injective is)))
  encrypt_with_changes (live c) e bytes done =
      let (u, _, is) = >>=-eq-ok (Cipher.update crypto c bytes) _ done in
      (live u.0, sym (ap (λ (p : Encryptor Pipe × List ℕ). p.0) (ok_injective is)))
  encrypt_with_changes deleted e bytes done = cc

  -- The other direction changes nothing but its own cipher.
  pub opposite-beside :
      (b : Bool) (e : Encryptor Pipe) (bytes : List ℕ) {r : Encryptor Pipe × List ℕ}
      → opposite b e bytes ≡ ok r
      → (h : Handle Pipe) × (r.0 ≡ beside b h e)
  unfolding encrypt decrypt
  opposite-beside true e bytes done = decrypt_with_changes e.de_cipher e bytes done
  opposite-beside false e bytes done = encrypt_with_changes e.en_cipher e bytes done

  -- A stream in one direction, next to any cipher of the other.
  pub segments-beside :
      (b : Bool) (h : Handle Pipe) (e : Encryptor Pipe) (segments : List (List ℕ))
      → over_segments (sealed b) (beside b h e) segments
        ≡ (over_segments (sealed b) e segments >>= lifted (beside b h))
  segments-beside b h = over_segments-lifted (beside b h) (sealed b) (sealed b) (sealed-beside b h)

  pub segments_of-beside :
      (b : Bool) (h : Handle Pipe) (e : Encryptor Pipe) (segments : List (List ℕ))
      {e' : Encryptor Pipe} {out : List ℕ}
      → over_segments (sealed b) (beside b h e) segments ≡ ok (e', out)
      → (e'' : Encryptor Pipe) × (over_segments (sealed b) e segments ≡ ok (e'', out))
  segments_of-beside b h e segments done =
      let (t, ran, is) =
        >>=-eq-ok (over_segments (sealed b) e segments) (lifted (beside b h))
          (sym (segments-beside b h e segments) ∙ done) in
      (
        t.0,
        ran ∙ ap (λ o. ok (t.0, o)) (ap (λ (p : Encryptor Pipe × List ℕ). p.1) (ok_injective is)),
      )
