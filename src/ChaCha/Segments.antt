-- ===== src/ChaCha/Segments.antt =====
-- A stream that is masked in segments, and unmasked in other segments.
use shadowsocks_qt.Prelude.{
  ℕ, ◌≡◌, refl, sym, ap, ◌∙◌, List, [], ◌∷◌, length, flatten, length-append, over_segments, ok,
  ok_injective,
}
use shadowsocks_qt.Botan.{Botan}
use shadowsocks_qt.ChaCha.{ChaCha, update_all}
use shadowsocks_qt.ChaCha.Stream.{
  IsReady, advances, masked, length-masked, masked-append, masked-masked, advances-IsReady,
  advances-add,
}
use shadowsocks_qt.ChaCha.Update.{update-masked}

module _ (botan : Botan) where
  -- However a stream is cut into segments, the output is the whole stream masked, and the cipher
  -- has moved on by all its bytes.
  pub update_all-masked :
      (c : ChaCha) (segments : List (List ℕ))
      → IsReady c
      → update_all botan c segments
        ≡ ok (advances botan (length (flatten segments)) c, masked botan c (flatten segments))
  unfolding over_segments advances masked flatten
  update_all-masked c [] r = refl
  update_all-masked c (xs ∷ rest) r =
      let c1 = advances botan (length xs) c in
      rw
        (
          update-masked botan c xs r,
          update_all-masked c1 rest (advances-IsReady botan (length xs) c r),
          length-append xs (flatten rest),
          advances-add botan (length xs) (length (flatten rest)) c,
          masked-append botan c xs (flatten rest),
        )
        refl

  unmask :
      (c : ChaCha) (xs ys : List ℕ)
      → ys ≡ masked botan c xs
      → ◌≡◌ {A = ChaCha × List ℕ}
          (advances botan (length ys) c, masked botan c ys)
          (advances botan (length xs) c, xs)
  unmask c xs ys e = rw (e, length-masked botan c xs, masked-masked botan c xs) refl

  -- Masking a stream that arrives in some segments, and then what came out of it in any other
  -- segments from a cipher in the same state, gives the stream back and leaves both ciphers in
  -- the same state.
  pub update_all_twice :
      (c : ChaCha) (segments others : List (List ℕ)) (c' : ChaCha) (out : List ℕ)
      → IsReady c
      → update_all botan c segments ≡ ok (c', out)
      → flatten others ≡ out
      → update_all botan c others ≡ ok (c', flatten segments)
  update_all_twice c segments others c' out r sent recut =
      let e = ok_injective (sym (update_all-masked c segments r) ∙ sent) in
      update_all-masked c others r
      ∙ ap ok (unmask c (flatten segments) (flatten others) (recut ∙ sym (ap (λ p. p.1) e)))
      ∙ ap (λ d. ok (d, flatten segments)) (ap (λ p. p.0) e)
