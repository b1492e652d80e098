-- ===== src/Cipher/Stream.antt =====
-- The two directions of a cipher undo one another, however the stream is cut into segments.
use shadowsocks_qt.Prelude.{
  ℕ, ◌≡◌, refl, sym, subst, ap, ◌∙◌, List, [], ◌∷◌, true, false, Bool-cases, inl, inr, none, some,
  Option-cases, flatten, length, ◌==◌, Result, over_segments, over_segments-lifted, lifted, ok, err,
  ◌>>=◌, >>=-eq-ok, ok_injective, Ensures, Ensures-bind, Ensures-ok, arith,
}
use shadowsocks_qt.Botan.{Botan}
use shadowsocks_qt.ChaCha
use shadowsocks_qt.ChaCha.{ChaCha}
use shadowsocks_qt.ChaCha.Stream.{IsReady, chacha-IsReady}
use shadowsocks_qt.ChaCha.Segments.{update_all_twice}
use shadowsocks_qt.Crypto.{Crypto, CryptoLaws}
use shadowsocks_qt.Cipher.{Cipher, is_chacha, create, update, update_all}

set_iv-IsReady :
    (botan : Botan) (c : ChaCha) (iv : List ℕ) → Ensures IsReady (ChaCha.set_iv botan c iv)
unfolding ChaCha.set_iv
set_iv-IsReady botan c iv = elim (Bool-cases (length iv == 8)) [
  | inl e ↦ rw e (
      Ensures-bind IsReady (ChaCha.load_word botan iv 0) _
        λ w14. Ensures-bind IsReady (ChaCha.load_word botan iv 1) _ λ w15. chacha-IsReady botan _)
  | inr e ↦ rw e (elim (Bool-cases (length iv == 12)) [
    | inl f ↦ rw f (
        Ensures-bind IsReady (ChaCha.load_word botan iv 0) _ λ w13.
          Ensures-bind IsReady (ChaCha.load_word botan iv 1) _ λ w14.
            Ensures-bind IsReady (ChaCha.load_word botan iv 2) _ λ w15. chacha-IsReady botan _)
    | inr f ↦ rw f tt
  ])
]

-- Whenever the constructor of `ChaCha` returns, its cipher is ready.
chacha_create-IsReady :
    (botan : Botan) (key iv : List ℕ) → Ensures IsReady (ChaCha.create botan key iv)
unfolding ChaCha.create
chacha_create-IsReady botan key iv = Ensures-bind IsReady (ChaCha.load_word botan key 0) _ λ k0.
    Ensures-bind IsReady (ChaCha.load_word botan key 1) _ λ k1.
      Ensures-bind IsReady (ChaCha.load_word botan key 2) _ λ k2.
        Ensures-bind IsReady (ChaCha.load_word botan key 3) _ λ k3.
          Ensures-bind IsReady (ChaCha.load_word botan key 4) _ λ k4.
            Ensures-bind IsReady (ChaCha.load_word botan key 5) _ λ k5.
              Ensures-bind IsReady (ChaCha.load_word botan key 6) _ λ k6.
                Ensures-bind IsReady (ChaCha.load_word botan key 7) _
                  λ k7. set_iv-IsReady botan _ iv

module _ {Pipe : Type 0} (crypto : Crypto Pipe) (laws : CryptoLaws crypto) where
  open crypto use {botan, get_cipher, process_msg}

  abbrev of_chacha : List ℕ → ChaCha → Cipher Pipe
  of_chacha iv k = record { pipe = none; chacha = some k; iv = iv }

  abbrev of_pipe : List ℕ → Pipe → Cipher Pipe
  of_pipe iv p = record { pipe = some p; chacha = none; iv = iv }

  chacha_step :
      (iv : List ℕ) (k : ChaCha) (xs : List ℕ)
      → update crypto (of_chacha iv k) xs
        ≡ (ChaCha.update_step botan k xs >>= lifted (of_chacha iv))
  unfolding update
  chacha_step iv k xs = step (ChaCha.update botan k xs)
    where
      step :
          (m : Result ChaCha.Updated)
          → (m >>= λ u. lifted (of_chacha iv) (u.cipher, u.output))
            ≡ ((m >>= λ u. ok (u.cipher, u.output)) >>= lifted (of_chacha iv))
      step (ok u) = refl
      step (err e) = refl

  -- A cipher over ChaCha does what ChaCha does.
  update_all-chacha :
      (iv : List ℕ) (k : ChaCha) (segments : List (List ℕ))
      → update_all crypto (of_chacha iv k) segments
        ≡ (ChaCha.update_all botan k segments >>= lifted (of_chacha iv))
  update_all-chacha iv =
      over_segments-lifted (of_chacha iv) (ChaCha.update_step botan) (update crypto)
        (chacha_step iv)

  -- A pipe gives on segments what it gives on the whole stream.
  update_all-pipe :
      (iv : List ℕ) (p : Pipe) (segments : List (List ℕ))
      → let r = process_msg p (flatten segments) in
        update_all crypto (of_pipe iv p) segments ≡ ok (of_pipe iv r.1, r.0)
  unfolding over_segments update flatten
  update_all-pipe iv p [] = rw (laws.process_nil p) refl
  update_all-pipe iv p (xs ∷ rest) =
      rw (update_all-pipe iv (process_msg p xs).1 rest, laws.process-append p xs (flatten rest))
        refl

  -- Two ciphers of which the second reads what the first writes, however it is cut into segments.
  abbrev pub Reads : Cipher Pipe → Cipher Pipe → Type 0
  Reads d e =
      (segments others : List (List ℕ)) (e' : Cipher Pipe) (out : List ℕ)
      → update_all crypto e segments ≡ ok (e', out)
      → flatten others ≡ out
      → (d' : Cipher Pipe) × (update_all crypto d others ≡ ok (d', flatten segments))

  chacha-Reads : (iv : List ℕ) (k : ChaCha) → IsReady k → Reads (of_chacha iv k) (of_chacha iv k)
  chacha-Reads iv k ready segments others e' out sent recut =
      let (r, done, same) =
        >>=-eq-ok (ChaCha.update_all botan k segments) _
          (sym (update_all-chacha iv k segments) ∙ sent) in
      let here : r.1 ≡ out = ap (λ p. p.1) (ok_injective same) in
      (
        of_chacha iv r.0,
        update_all-chacha iv k others
            ∙ rw (update_all_twice botan k segments others r.0 r.1 ready done (recut ∙ sym here))
                refl,
      )

  pipe-Reads :
      (iv : List ℕ) (p d : Pipe)
      → ((xs : List ℕ) → (process_msg d (process_msg p xs).0).0 ≡ xs)
      → Reads (of_pipe iv d) (of_pipe iv p)
  pipe-Reads iv p d inverse segments others e' out sent recut =
      let here : (process_msg p (flatten segments)).0 ≡ out =
        ap (λ r. r.1) (ok_injective (sym (update_all-pipe iv p segments) ∙ sent)) in
      (
        of_pipe iv (process_msg d (flatten others)).1,
        update_all-pipe iv d others
            ∙ ap (λ (o : List ℕ). ok (of_pipe iv (process_msg d (flatten others)).1, o))
                (rw (recut, ← here) (inverse (flatten segments))),
      )

  create-Reads_chacha :
      (method key iv : List ℕ) (e : Cipher Pipe)
      → is_chacha method ≡ true
      → create crypto method key iv true ≡ ok e
      → (d : Cipher Pipe) × (create crypto method key iv false ≡ ok d) × Reads d e
  unfolding create
  create-Reads_chacha method key iv e own made =
      let (k, made_k, same) = >>=-eq-ok (ChaCha.create botan key iv) _ (rw own at made) in
      (
        of_chacha iv k,
        rw (own, made_k) refl,
        subst (λ x. Reads (of_chacha iv k) x) (ok_injective same)
            (chacha-Reads iv k (Ensures-ok IsReady _ (chacha_create-IsReady botan key iv) made_k)),
      )

  create-Reads_pipe :
      (method key iv : List ℕ) (e : Cipher Pipe)
      → is_chacha method ≡ false
      → create crypto method key iv true ≡ ok e
      → (d : Cipher Pipe) × (create crypto method key iv false ≡ ok d) × Reads d e
  unfolding create
  create-Reads_pipe method key iv e other made =
      elim (Option-cases (get_cipher method key iv true)) [
        | inl none_e ↦ absurd (ground (arith, made, other, none_e))
        | inr (p, some_e) ↦
            let (d, some_d) = laws.both_directions method key iv p some_e in
            (
              of_pipe iv d,
              rw (other, some_d) refl,
              subst (λ x. Reads (of_pipe iv d) x) (ok_injective (rw (other, some_e) at made))
                  (pipe-Reads iv p d (λ xs. laws.inverse method key iv p d xs some_e some_d)),
            )
      ]

  -- When the constructor makes a cipher that encrypts, it makes one that decrypts from the same
  -- method, key and IV; and whatever stream of segments the first turns into whatever bytes, the
  -- second turns those bytes, cut into any segments, back into the stream.
  pub create-Reads :
      (method key iv : List ℕ) (e : Cipher Pipe)
      → create crypto method key iv true ≡ ok e
      → (d : Cipher Pipe) × (create crypto method key iv false ≡ ok d) × Reads d e
  create-Reads method key iv e made = elim (Bool-cases (is_chacha method)) [
    | inl own ↦ create-Reads_chacha method key iv e own made
    | inr other ↦ create-Reads_pipe method key iv e other made
  ]
