-- ===== src/Tunnel/Arrivals.antt =====
-- A TCP stream that has arrived in part, in lib/encryptor.cpp.
use shadowsocks_qt.Prelude.{
  ℕ, ◌≤◌, ◌≡◌, sym, ap, ◌∙◌, List, [], ◌∷◌, ◌++◌, append-nil, length, flatten, flatten-append, ok,
  >>=-eq-ok, ok_injective, joined, over_segments, over_segments-append,
}
use shadowsocks_qt.Crypto.{Crypto, CryptoLaws}
use shadowsocks_qt.EncryptorPrivate.{EncryptorPrivate}
use shadowsocks_qt.Encryptor.{Encryptor, create, decrypt}
use shadowsocks_qt.Encryptor.Tcp.{
  encrypt_segments, decrypt_segments, decrypt_segments-encrypt_segments,
}

flatten_one : (xs : List ℕ) → flatten (xs ∷ []) ≡ xs
unfolding flatten
flatten_one xs = append-nil xs

module _ {Pipe : Type 0} (crypto : Crypto Pipe) (laws : CryptoLaws crypto) where
  -- What has arrived so far opens to the beginning of what was sent; `flight` is on the way.
  pub opened_so_far :
      (ep : EncryptorPrivate) (drawn drawn' xs ys flight : List ℕ) (more rest : List (List ℕ))
      (a : Encryptor Pipe) (out : List ℕ)
      → ep.iv_len ≤ length drawn
      → ep.iv_len ≤ length ys
      → encrypt_segments crypto (create ep drawn) (xs ∷ more) ≡ ok (a, out)
      → flatten (ys ∷ rest) ++ flight ≡ out
      → (b : Encryptor Pipe) × (got : List ℕ) × (late : List ℕ) × (decrypt_segments crypto
            (create ep drawn')
            (ys ∷ rest)
          ≡ ok (b, got))
        × (got ++ late ≡ flatten (xs ∷ more))
  opened_so_far ep drawn drawn' xs ys flight more rest a out iv_drawn iv_came sent came =
      let (b, whole) =
        decrypt_segments-encrypt_segments crypto laws ep drawn drawn' xs ys more
          (rest ++ flight ∷ []) a out iv_drawn iv_came sent (one_more ys flight rest ∙ came) in
      let (r, got, left) = >>=-eq-ok (decrypt_segments crypto (create ep drawn') (ys ∷ rest)) _ (
        sym (over_segments-append (decrypt crypto) (create ep drawn') (ys ∷ rest) (flight ∷ []))
        ∙ whole) in
      let (t, _, sum) =
        >>=-eq-ok (over_segments (decrypt crypto) r.0 (flight ∷ [])) (joined r.1) left in
      (r.0, r.1, t.1, got, ap (λ (p : Encryptor Pipe × List ℕ). p.1) (ok_injective sum))
    where
      one_more :
          (ys flight : List ℕ) (rest : List (List ℕ))
          → flatten (ys ∷ (rest ++ flight ∷ [])) ≡ flatten (ys ∷ rest) ++ flight
      one_more ys flight rest =
          flatten-append (ys ∷ rest) (flight ∷ [])
          ∙ ap (λ w. flatten (ys ∷ rest) ++ w) (flatten_one flight)
