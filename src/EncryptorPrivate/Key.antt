-- ===== src/EncryptorPrivate/Key.antt =====
-- `EncryptorPrivate::evpBytesToKey` against the derivation of keys that it implements.
use shadowsocks_qt.Prelude.{
  ℕ, zero, suc, ◌+◌, ◌-◌, ◌*◌, ◌≤◌, ◌<◌, ◌≡◌, refl, sym, ap, ◌∙◌, List, [], ◌∷◌, ◌++◌, append-nil,
  append_assoc, false, ◌==◌, lt→ltb, le→not-ltb, if◌then◌else◌, length, length-append, get_elem?,
  take, flatten, some, Result, ok, ◌>>=◌, or_fail, bad_read, ok_injective, length-take, arith,
}
use native.Mathlib.Nat.{zero-sub}
use shadowsocks_qt.Crypto.{Crypto, CryptoLaws}
use shadowsocks_qt.Cipher
use shadowsocks_qt.EncryptorPrivate.{evp_loop, evp_bytes_to_key}

take-append : (k : ℕ) (xs ys : List ℕ) → take k (xs ++ ys) ≡ take k xs ++ take (k - length xs) ys
take-append zero [] ys = refl
take-append zero (x ∷ xs) ys = rw zero-sub refl
take-append (suc k) [] ys = ap (λ (j : ℕ). take j ys) {x = suc k} {y = suc k - 0} (omega arith)
take-append (suc k) (x ∷ xs) ys = ap (◌∷◌ x) (
    take-append k xs ys
    ∙ ap (λ (j : ℕ). take k xs ++ take j ys) {x = k - length xs} {y = suc k - suc (length xs)}
        (omega arith))

get_elem?-last : {A : Type 0} (xs : List A) (x : A) → get_elem? (xs ++ x ∷ []) (length xs) ≡ some x
get_elem?-last [] x = refl
get_elem?-last (y ∷ xs) x = get_elem?-last xs x

module _ {Pipe : Type 0} (crypto : Crypto Pipe) where
  -- The chain of hashes behind `last`: each is the hash of the one before it and the password.
  unfoldable pub hash_chain : List ℕ → List ℕ → ℕ → List (List ℕ)
  hash_chain password last zero = []
  hash_chain password last (suc n) =
      let h = crypto.md5 (last ++ password) in h ∷ hash_chain password h n

  -- The text that the loop hashes next.
  abbrev next_text : List (List ℕ) → List ℕ → Result (List ℕ)
  next_text hashes password =
      if length hashes == 0
      then ok password
      else (or_fail (get_elem? hashes (length hashes - 1)) bad_read >>= λ last.
          ok (last ++ password))

  next_text-append :
      (hashes : List (List ℕ)) (h password : List ℕ)
      → next_text (hashes ++ h ∷ []) password ≡ ok (h ++ password)
  next_text-append hashes h password =
      let size : length (hashes ++ h ∷ []) ≡ suc (length hashes) =
        omega (arith, length-append hashes (h ∷ [])) in
      let some_hash : (length (hashes ++ h ∷ []) == 0) ≡ false = ground (arith, size) in
      let last : length (hashes ++ h ∷ []) - 1 ≡ length hashes = omega (arith, size) in
      rw (some_hash, last, get_elem?-last hashes h) refl

  evp_loop-hash_chain :
      (fuel left want : ℕ) (password last : List ℕ) (hashes : List (List ℕ))
      → length hashes + left ≡ want
      → left < fuel
      → next_text hashes password ≡ ok (last ++ password)
      → evp_loop crypto fuel want password hashes ≡ ok (hashes ++ hash_chain password last left)
  unfolding evp_loop hash_chain Cipher.md5_hash
  evp_loop-hash_chain zero left want password last hashes e h t = absurd (omega arith)
  evp_loop-hash_chain (suc fuel) zero want password last hashes e h t =
      rw (le→not-ltb (length hashes) want (omega arith)) (simp append-nil)
  evp_loop-hash_chain (suc fuel) (suc left) want password last hashes e h t =
      let x = crypto.md5 (last ++ password) in
      rw (evp_loop, lt→ltb (length hashes) want (omega arith), t)
        (evp_loop-hash_chain fuel left want password x (hashes ++ x ∷ [])
            (omega (arith, length-append hashes (x ∷ []))) (omega arith)
            (next_text-append hashes x password)
          ∙ ap ok (append_assoc hashes (x ∷ []) (hash_chain password x left)))

  take_chain :
      (md5_length : (xs : List ℕ) → length (crypto.md5 xs) ≡ 16) (k n m : ℕ)
      (password last : List ℕ)
      → k ≤ 16 * n
      → k ≤ 16 * m
      → take k (flatten (hash_chain password last n))
        ≡ take k (flatten (hash_chain password last m))
  unfolding hash_chain flatten
  take_chain md5_length zero n m password last a b = refl
  take_chain md5_length (suc k) zero m password last a b = absurd (omega arith)
  take_chain md5_length (suc k) (suc n) zero password last a b = absurd (omega arith)
  take_chain md5_length (suc k) (suc n) (suc m) password last a b =
      let h = crypto.md5 (last ++ password) in
      take-append (suc k) h (flatten (hash_chain password h n))
      ∙ ap (λ o. take (suc k) h ++ o)
          (take_chain md5_length (suc k - length h) n m password h
            (omega (arith, md5_length (last ++ password)))
            (omega (arith, md5_length (last ++ password))))
      ∙ sym (take-append (suc k) h (flatten (hash_chain password h m)))

  -- The loop ends, it reads nothing outside its vector, and the key is the first `key_len` bytes of
  -- the chain of hashes of the password, for any number of hashes that have as many bytes, in
  -- particular the least. The loop itself makes `key_len + iv_len` of them.
  pub evp_bytes_to_key-hash_chain :
      (laws : CryptoLaws crypto) (key_len iv_len n : ℕ) (password : List ℕ)
      → key_len ≤ 16 * n
      → evp_bytes_to_key crypto key_len iv_len password
        ≡ ok (take key_len (flatten (hash_chain password [] n)))
  unfolding evp_bytes_to_key
  evp_bytes_to_key-hash_chain laws key_len iv_len n password enough =
      rw
        (evp_loop-hash_chain (suc (key_len + iv_len)) (key_len + iv_len) (key_len + iv_len) password
          [] [] (omega arith) (omega arith) refl)
        (ap ok (
          take_chain laws.md5_length key_len (key_len + iv_len) n password [] (omega arith) enough))

  chain_length :
      (md5_length : (xs : List ℕ) → length (crypto.md5 xs) ≡ 16) (password last : List ℕ) (n : ℕ)
      → length (flatten (hash_chain password last n)) ≡ 16 * n
  unfolding hash_chain flatten
  chain_length md5_length password last zero = refl
  chain_length md5_length password last (suc n) =
      let h = crypto.md5 (last ++ password) in
      omega (
        arith,
        length-append h (flatten (hash_chain password h n)),
        md5_length (last ++ password),
        chain_length md5_length password h n,
      )

  -- The key has the length of the method.
  pub evp_bytes_to_key-length :
      (laws : CryptoLaws crypto) (key_len iv_len : ℕ) (password key : List ℕ)
      → evp_bytes_to_key crypto key_len iv_len password ≡ ok key
      → length key ≡ key_len
  evp_bytes_to_key-length laws key_len iv_len password key e =
      let chain = flatten (hash_chain password [] key_len) in
      let same : take key_len chain ≡ key = ok_injective (
        sym (evp_bytes_to_key-hash_chain laws key_len iv_len key_len password (omega arith)) ∙ e) in
      omega (
        arith,
        ap length same,
        length-take key_len chain,
        chain_length laws.md5_length password [] key_len,
      )
