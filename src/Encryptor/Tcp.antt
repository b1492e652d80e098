-- ===== src/Encryptor/Tcp.antt =====
-- A TCP stream through `encrypt` on one side and `decrypt` on the other.
use shadowsocks_qt.Prelude.{
  ℕ, ◌≤◌, ◌<◌, ◌≡◌, refl, sym, ap, ◌∙◌, List, [], ◌∷◌, ◌++◌, append_assoc, true, false, ◌==◌,
  length, take, drop, flatten, length-take, take-append_le, drop-append_le, take-append_eq,
  drop-append_eq, Result, over_segments, over_segments-lifted, lifted, joined, ok, err, ◌>>=◌,
  >>=-eq-ok, >>=_assoc, >>=_cong, lifted-joined, unjoined, ok_injective, ==_iff, arith,
}
use shadowsocks_qt.Crypto.{Crypto, CryptoLaws}
use shadowsocks_qt.Cipher
use shadowsocks_qt.Cipher.{Cipher, random_iv}
use shadowsocks_qt.Cipher.Create.{random_iv-length}
use shadowsocks_qt.Cipher.Stream.{create-Reads}
use shadowsocks_qt.EncryptorPrivate.{EncryptorPrivate}
use shadowsocks_qt.Encryptor.{Encryptor, null, live, create, encrypt, decrypt}

-- The bytes behind the IV, when the first segment holds all of it.
pub behind_iv :
    (n : ℕ) (iv body xs : List ℕ) (rest : List (List ℕ))
    → length iv ≡ n
    → n ≤ length xs
    → xs ++ flatten rest ≡ iv ++ body
    → (take n xs ≡ iv) × (drop n xs ++ flatten rest ≡ body)
behind_iv n iv body xs rest size le e = (
  sym (take-append_le n xs (flatten rest) le) ∙ ap (take n) e ∙ take-append_eq n iv body size,
  sym (drop-append_le n xs (flatten rest) le) ∙ ap (drop n) e ∙ drop-append_eq n iv body size,
)

module _ {Pipe : Type 0} (crypto : Crypto Pipe) where
  -- The calls of one connection, one after another, and all that they give.
  abbrev pub encrypt_segments : Encryptor Pipe → List (List ℕ) → Result (Encryptor Pipe × List ℕ)
  encrypt_segments = over_segments (encrypt crypto)

  abbrev pub decrypt_segments : Encryptor Pipe → List (List ℕ) → Result (Encryptor Pipe × List ℕ)
  decrypt_segments = over_segments (decrypt crypto)

  abbrev encrypting : Encryptor Pipe → Cipher Pipe → Encryptor Pipe
  encrypting e c = record e { en_cipher = live c }

  abbrev decrypting : Encryptor Pipe → Cipher Pipe → Encryptor Pipe
  decrypting e c = record e { de_cipher = live c }

  -- Once there is a cipher, the calls are those of the cipher.
  encrypt_segments-live :
      (e : Encryptor Pipe) (c : Cipher Pipe) (segments : List (List ℕ))
      → encrypt_segments (encrypting e c) segments
        ≡ (Cipher.update_all crypto c segments >>= lifted (encrypting e))
  unfolding encrypt
  encrypt_segments-live e =
      over_segments-lifted (encrypting e) (Cipher.update crypto) (encrypt crypto) (λ c xs. refl)

  decrypt_segments-live :
      (e : Encryptor Pipe) (c : Cipher Pipe) (segments : List (List ℕ))
      → decrypt_segments (decrypting e c) segments
        ≡ (Cipher.update_all crypto c segments >>= lifted (decrypting e))
  unfolding decrypt
  decrypt_segments-live e =
      over_segments-lifted (decrypting e) (Cipher.update crypto) (decrypt crypto) (λ c xs. refl)

  -- The result of a connection of which the cipher has run: the IV goes in front of the output.
  abbrev sent_as : Encryptor Pipe → Cipher Pipe × List ℕ → Result (Encryptor Pipe × List ℕ)
  sent_as e r = ok (encrypting e r.0, e.en_cipher_iv ++ r.1)

  iv_in_front :
      (e : Encryptor Pipe) (out : List ℕ) (m : Result (Cipher Pipe × List ℕ))
      → ((m >>= lifted (encrypting e)) >>= joined (e.en_cipher_iv ++ out))
        ≡ ((m >>= joined out) >>= sent_as e)
  iv_in_front e out (ok r) = simp append_assoc
  iv_in_front e out (err x) = refl

  -- The first call makes the cipher; the rest is the cipher on the whole stream.
  first_encrypt :
      (e : Encryptor Pipe) (xs : List ℕ) (rest : List (List ℕ))
      → encrypt_segments (record e { en_cipher = null }) (xs ∷ rest) ≡ (
          Cipher.create crypto e.ep.method e.ep.key e.en_cipher_iv true >>= λ c.
          (Cipher.update_all crypto c (xs ∷ rest) >>= sent_as e))
  unfolding over_segments encrypt
  first_encrypt e xs rest =
      >>=_assoc (Cipher.create crypto e.ep.method e.ep.key e.en_cipher_iv true) _ _
      ∙ >>=_cong _ _ _ λ c.
        >>=_assoc (Cipher.update crypto c xs) (sent_as e) _
        ∙ >>=_cong (Cipher.update crypto c xs) _ _ (λ r.
          rw (encrypt_segments-live e r.0 rest)
            (iv_in_front e r.1 (Cipher.update_all crypto r.0 rest)))
        ∙ sym (>>=_assoc (Cipher.update crypto c xs) _ (sent_as e))

  -- With a whole IV in the first segment, the rest of it begins the stream.
  first_decrypt :
      (b : Encryptor Pipe) (xs : List ℕ) (rest : List (List ℕ))
      → b.ep.iv_len ≤ length xs
      → decrypt_segments (record b { de_cipher = null }) (xs ∷ rest) ≡ (
          Cipher.create crypto b.ep.method b.ep.key (take b.ep.iv_len xs) false >>= λ d.
          (Cipher.update_all crypto d (drop b.ep.iv_len xs ∷ rest) >>= lifted (decrypting b)))
  unfolding over_segments decrypt
  first_decrypt b xs rest enough = rw whole (
      >>=_assoc (Cipher.create crypto b.ep.method b.ep.key (take b.ep.iv_len xs) false) _ _
      ∙ >>=_cong _ _ _ λ d.
        let first = Cipher.update crypto d (drop b.ep.iv_len xs) in
        >>=_assoc first (lifted (decrypting b)) _
        ∙ >>=_cong first _ _ (λ r.
          rw (decrypt_segments-live b r.0 rest)
            (lifted-joined (decrypting b) r.1 (Cipher.update_all crypto r.0 rest)))
        ∙ sym (>>=_assoc first _ (lifted (decrypting b))))
    where
      whole : (length (take b.ep.iv_len xs) == b.ep.iv_len) ≡ true
      whole = (==_iff _ b.ep.iv_len).1 (omega (arith, length-take b.ep.iv_len xs))

module _ {Pipe : Type 0} (crypto : Crypto Pipe) (laws : CryptoLaws crypto) where
  -- Two fresh encryptors with the same settings, of which the first drew enough random bytes for
  -- its IV: what the first writes for a stream of segments, if it returns, the second turns back
  -- into that stream, however the bytes are cut on the way, if the first piece that arrives holds
  -- the whole IV.
  pub decrypt_segments-encrypt_segments :
      (ep : EncryptorPrivate) (drawn drawn' xs ys : List ℕ) (more rest : List (List ℕ))
      (a : Encryptor Pipe) (out : List ℕ)
      → ep.iv_len ≤ length drawn
      → ep.iv_len ≤ length ys
      → encrypt_segments crypto (create ep drawn) (xs ∷ more) ≡ ok (a, out)
      → flatten (ys ∷ rest) ≡ out
      → (b : Encryptor Pipe) × (decrypt_segments crypto (create ep drawn') (ys ∷ rest)
          ≡ ok (b, flatten (xs ∷ more)))
  unfolding create flatten
  decrypt_segments-encrypt_segments ep drawn drawn' xs ys more rest a out iv_drawn iv_came sent
        came =
      let e = create ep drawn in
      let iv = e.en_cipher_iv in
      let (c, made, ran) =
        >>=-eq-ok (Cipher.create crypto ep.method ep.key iv true) _
          (sym (first_encrypt crypto e xs more) ∙ sent) in
      let (r, ran_c, is_out) = >>=-eq-ok (Cipher.update_all crypto c (xs ∷ more)) _ ran in
      let (d, made_d, reads) = create-Reads crypto laws ep.method ep.key iv c made in
      let (iv_same, body) =
        behind_iv ep.iv_len iv r.1 ys rest (random_iv-length ep.iv_len drawn iv_drawn) iv_came
          (came ∙ sym (ap (λ p. p.1) (ok_injective is_out))) in
      let (d', back) = reads (xs ∷ more) (drop ep.iv_len ys ∷ rest) r.0 r.1 ran_c body in
      (
        record (create ep drawn') { de_cipher = live d' },
        first_decrypt crypto (create ep drawn') ys rest iv_came ∙ rw (iv_same, made_d, back) refl,
      )

-- Each piece is shorter than so many bytes.
abbrev pub AreShorter : ℕ → List (List ℕ) → Type 0
AreShorter n [] = Unit
AreShorter n (xs ∷ pieces) = (length xs < n) × AreShorter n pieces

module _ {Pipe : Type 0} (crypto : Crypto Pipe) (laws : CryptoLaws crypto) where
  decrypt_segments_short :
      (ep : EncryptorPrivate) (drawn xs : List ℕ) (rest : List (List ℕ))
      → length xs < ep.iv_len
      → decrypt_segments crypto (create ep drawn) (xs ∷ rest)
        ≡ decrypt_segments crypto (create ep drawn) rest
  unfolding create decrypt over_segments
  decrypt_segments_short ep drawn xs rest short =
      rw part (unjoined (over_segments (decrypt crypto) (create ep drawn) rest))
    where
      part : (length (take ep.iv_len xs) == ep.iv_len) ≡ false
      part = ground (arith, length-take ep.iv_len xs)

  all_short :
      (ep : EncryptorPrivate) (drawn : List ℕ) (pieces rest : List (List ℕ))
      → AreShorter ep.iv_len pieces
      → decrypt_segments crypto (create ep drawn) (pieces ++ rest)
        ≡ decrypt_segments crypto (create ep drawn) rest
  all_short ep drawn [] rest short = refl
  all_short ep drawn (xs ∷ pieces) rest short =
      decrypt_segments_short ep drawn xs (pieces ++ rest) short.0
      ∙ all_short ep drawn pieces rest short.1

  -- Any number of pieces shorter than the IV that come to a fresh encryptor first are lost, however
  -- many bytes they hold together: when the whole stream that another fresh encryptor with the same
  -- settings and enough random bytes writes, if it returns, comes behind them, cut in any way but
  -- with the whole IV in its first piece, it is decrypted as if they had never come.
  pub decrypt_segments_trickled :
      (ep : EncryptorPrivate) (drawn drawn' xs ys : List ℕ) (pieces more rest : List (List ℕ))
      (a : Encryptor Pipe) (out : List ℕ)
      → AreShorter ep.iv_len pieces
      → ep.iv_len ≤ length drawn
      → ep.iv_len ≤ length ys
      → encrypt_segments crypto (create ep drawn) (xs ∷ more) ≡ ok (a, out)
      → flatten (ys ∷ rest) ≡ out
      → (b : Encryptor Pipe) × (decrypt_segments crypto (create ep drawn') (pieces ++ ys ∷ rest)
          ≡ ok (b, flatten (xs ∷ more)))
  decrypt_segments_trickled ep drawn drawn' xs ys pieces more rest a out short iv_drawn iv_came sent
        came =
      let (b, back) =
        decrypt_segments-encrypt_segments crypto laws ep drawn drawn' xs ys more rest a out iv_drawn
          iv_came sent came in
      (b, all_short ep drawn' pieces (ys ∷ rest) short ∙ back)
