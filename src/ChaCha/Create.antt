-- ===== src/ChaCha/Create.antt =====
-- The constructor of `ChaCha`: which keys and IVs it takes, and the cipher that it makes.
use shadowsocks_qt.Prelude.{
  ℕ, ◌+◌, ◌*◌, ◌≤◌, ◌<◌, ◌≡◌, ◌⊎◌, inl, inr, List, length, raw_byte, raw_byte-Returns, Any, Result,
  err, ◌>>=◌, length_error, Returns, Returns-bind, Returns-ok, arith,
}
use shadowsocks_qt.Botan.{Botan}
use shadowsocks_qt.ChaCha.{ChaCha, load_word, set_iv, create}
use shadowsocks_qt.ChaCha.Stream.{IsReady, chacha-IsReady}

-- The lengths that the constructor takes: eight bytes, or the twelve of the IETF variant.
abbrev pub IsIvLength : ℕ → Type 0
IsIvLength n = (n ≡ 8) ⊎ (n ≡ 12)

module _ (botan : Botan) where
  load_word-Returns :
      (bytes : List ℕ) (i : ℕ) → 4 * i + 3 ≤ length bytes → Returns Any (load_word botan bytes i)
  unfolding load_word
  load_word-Returns bytes i h =
      Returns-bind Any Any (raw_byte bytes (4 * i)) _ (raw_byte-Returns bytes (4 * i) (omega arith))
        λ a _.
          Returns-bind Any Any (raw_byte bytes (4 * i + 1)) _
            (raw_byte-Returns bytes (4 * i + 1) (omega arith))
            λ b _.
              Returns-bind Any Any (raw_byte bytes (4 * i + 2)) _
                (raw_byte-Returns bytes (4 * i + 2) (omega arith))
                λ c _.
                  Returns-bind Any Any (raw_byte bytes (4 * i + 3)) _
                    (raw_byte-Returns bytes (4 * i + 3) (omega arith)) λ d _. tt

  abbrev Loads : List ℕ → ℕ → Type 0
  Loads bytes n = (i : ℕ) → i < n → Returns Any (load_word botan bytes i)

  loads : (bytes : List ℕ) (n : ℕ) → 4 * n ≤ length bytes + 1 → Loads bytes n
  loads bytes n h i lt = load_word-Returns bytes i (omega arith)

  -- One word more, when it can be loaded: the rest decides what comes of it.
  with_word {ℓ κ} :
      {A : Type ℓ} (R : Result A → Type κ) (bytes : List ℕ) (n i : ℕ) (f : ℕ → Result A)
      → Loads bytes n
      → i < n
      → ((w : ℕ) → R (f w))
      → R (load_word botan bytes i >>= f)
  with_word R bytes n i f ready lt k =
      let (w, e, _) = Returns-ok Any (load_word botan bytes i) (ready i lt) in rw e (k w)

  set_iv-IsReady :
      (c : ChaCha) (iv : List ℕ) → IsIvLength (length iv) → Returns IsReady (set_iv botan c iv)
  unfolding set_iv
  set_iv-IsReady c iv (inl e) =
      let ready = loads iv 2 (omega arith) in
      rw e (
        with_word (Returns IsReady) iv 2 0 _ ready (omega arith) λ w14.
          with_word (Returns IsReady) iv 2 1 _ ready (omega arith) λ w15. chacha-IsReady botan _)
  set_iv-IsReady c iv (inr e) =
      let ready = loads iv 3 (omega arith) in
      rw e (
        with_word (Returns IsReady) iv 3 0 _ ready (omega arith) λ w13.
          with_word (Returns IsReady) iv 3 1 _ ready (omega arith) λ w14.
            with_word (Returns IsReady) iv 3 2 _ ready (omega arith) λ w15. chacha-IsReady botan _)

  set_iv_refused :
      (c : ChaCha) (iv : List ℕ) → ¬ IsIvLength (length iv) → set_iv botan c iv ≡ err length_error
  unfolding set_iv
  set_iv_refused c iv h = ground arith

  -- The words of the key, read one after another before the rest.
  key_words {ℓ κ} :
      {A : Type ℓ} (R : Result A → Type κ) (key : List ℕ)
      (f : ℕ → ℕ → ℕ → ℕ → ℕ → ℕ → ℕ → ℕ → Result A)
      → 32 ≤ length key
      → ((a b c d e g h i : ℕ) → R (f a b c d e g h i))
      → R (do
        k0 ← load_word botan key 0
        k1 ← load_word botan key 1
        k2 ← load_word botan key 2
        k3 ← load_word botan key 3
        k4 ← load_word botan key 4
        k5 ← load_word botan key 5
        k6 ← load_word botan key 6
        k7 ← load_word botan key 7
        f k0 k1 k2 k3 k4 k5 k6 k7)
  key_words R key f h k =
      let ready = loads key 8 (omega arith) in
      with_word R key 8 0 _ ready (omega arith) λ k0.
        with_word R key 8 1 _ ready (omega arith) λ k1.
          with_word R key 8 2 _ ready (omega arith) λ k2.
            with_word R key 8 3 _ ready (omega arith) λ k3.
              with_word R key 8 4 _ ready (omega arith) λ k4.
                with_word R key 8 5 _ ready (omega arith) λ k5.
                  with_word R key 8 6 _ ready (omega arith)
                    λ k6. with_word R key 8 7 _ ready (omega arith) λ k7. k k0 k1 k2 k3 k4 k5 k6 k7

  -- A key of at least thirty-two bytes and an IV of eight or twelve make a cipher that is ready
  -- for use.
  pub create-IsReady :
      (key iv : List ℕ)
      → 32 ≤ length key
      → IsIvLength (length iv)
      → Returns IsReady (create botan key iv)
  unfolding create
  create-IsReady key iv h e =
      key_words (Returns IsReady) key _ h (λ a b c d e' f g k. set_iv-IsReady _ iv e)

  -- With such a key any other length of the IV is the exception of `setIV`.
  pub create_refused :
      (key iv : List ℕ)
      → 32 ≤ length key
      → ¬ IsIvLength (length iv)
      → create botan key iv ≡ err length_error
  unfolding create
  create_refused key iv h e =
      key_words (λ r. r ≡ err length_error) key _ h (λ a b c d e' f g k. set_iv_refused _ iv e)
