-- ===== src/Encryptor/Auth/Headers.antt =====
-- `addHeaderAuth` and `verifyHeaderAuth` of lib/encryptor.cpp.
use shadowsocks_qt.Prelude.{
  ℕ, ◌-◌, ◌≤◌, ◌≡◌, refl, sym, ap, ◌∙◌, List, [], ◌∷◌, ◌++◌, append-nil, append_assoc, true,
  ==_refl, ◌=ˢ◌, length, length-append, length-take, take, drop, take-append_length,
  drop-append_length, take-append_eq, ok, arith,
}
use shadowsocks_qt.Crypto.{Crypto, CryptoLaws}
use shadowsocks_qt.Cipher.{Cipher, hmac_sha1}
use shadowsocks_qt.Encryptor.{Encryptor, live}
use shadowsocks_qt.Encryptor.Auth.{add_header_auth, insert_header_auth, verify_header_auth, insert}

pub same_text : (xs : List ℕ) → (xs =ˢ xs) ≡ true
same_text [] = refl
same_text (x ∷ xs) = rw (==_refl x) (same_text xs)

module _ {Pipe : Type 0} (crypto : Crypto Pipe) (laws : CryptoLaws crypto) where
  hmac_sha1-length : (key msg : List ℕ) → length (hmac_sha1 crypto key msg) ≡ 10
  unfolding hmac_sha1
  hmac_sha1-length key msg =
      omega (arith, length-take 10 (crypto.hmac msg key), laws.hmac_length msg key)

  verify_whole :
      (a b : Encryptor Pipe) (c : Cipher Pipe) (header rest : List ℕ)
      → b.de_cipher ≡ live c
      → c.iv ≡ a.en_cipher_iv
      → b.ep.key ≡ a.ep.key
      → verify_header_auth crypto b
          (header ++ (hmac_sha1 crypto (a.en_cipher_iv ++ a.ep.key) header ++ rest))
          (length header)
        ≡ ok true
  unfolding verify_header_auth
  verify_whole a b c header rest opened same_iv same_key =
      let code = hmac_sha1 crypto (a.en_cipher_iv ++ a.ep.key) header in
      rw
        (
          opened,
          same_iv,
          same_key,
          take-append_length header (code ++ rest),
          drop-append_length header (code ++ rest),
        )
        (rw
          (
            take-append_eq 10 code rest (hmac_sha1-length (a.en_cipher_iv ++ a.ep.key) header),
            same_text code,
          )
          refl)

  insert_within :
      (bytes more : List ℕ) (i : ℕ)
      → i ≤ length bytes
      → insert bytes i more ≡ take i bytes ++ (more ++ drop i bytes)
  unfolding insert
  insert_within bytes more i within =
      let nothing : i - length bytes ≡ 0 = omega arith in
      rw nothing (simp (append-nil, append_assoc))

  -- What either `addHeaderAuth` makes of a header, with any bytes behind it, `verifyHeaderAuth`
  -- accepts on the other side, where the receiving cipher has the IV of the sender and both have
  -- the same key; the second form leaves the bytes behind the header where they were, behind the
  -- code.
  pub verify_header_auth-add_header_auth :
      (a b : Encryptor Pipe) (c : Cipher Pipe) (header rest : List ℕ)
      → b.de_cipher ≡ live c
      → c.iv ≡ a.en_cipher_iv
      → b.ep.key ≡ a.ep.key
      → (verify_header_auth crypto b (add_header_auth crypto a header ++ rest) (length header)
          ≡ ok true)
        × (insert_header_auth crypto a (header ++ rest) (length header)
            ≡ add_header_auth crypto a header ++ rest)
  unfolding add_header_auth insert_header_auth
  verify_header_auth-add_header_auth a b c header rest opened same_iv same_key =
      let code = hmac_sha1 crypto (a.en_cipher_iv ++ a.ep.key) header in
      (
        ap (λ (o : List ℕ). verify_header_auth crypto b o (length header))
              (append_assoc header code rest)
            ∙ verify_whole a b c header rest opened same_iv same_key,
        insert_within (header ++ rest) _ (length header) (omega (arith, length-append header rest))
            ∙ rw (take-append_length header rest, drop-append_length header rest)
                (sym (append_assoc header code rest)),
      )
