-- ===== src/Encryptor/Auth/Frames.antt =====
-- One chunk, as the loop of `verifyExtractChunkAuth` of lib/encryptor.cpp takes it.
use shadowsocks_qt.Prelude.{
  ℕ, suc, ◌+◌, ◌%◌, ◌^◌, ◌≤◌, ◌<◌, ◌≡◌, refl, sym, ap, ap₂, get_or, ◌∙◌, List, [], ◌∷◌, ◌++◌,
  append_assoc, true, false, ltb, lt→ltb, le→not-ltb, length, length-append, length-take, take,
  drop, take-append_length, take-append_eq, drop-append_eq, take-append_le, drop-append_le,
  take-append-drop, ok, arith,
}
use native.Mathlib.Nat.{mod-eq_of_lt}
use shadowsocks_qt.Qt.{Qt, QtLaws}
use shadowsocks_qt.Crypto.{Crypto, CryptoLaws}
use shadowsocks_qt.Cipher.{hmac_sha1}
use shadowsocks_qt.Encryptor.{Handle}
use shadowsocks_qt.Encryptor.Auth.Headers.{same_text}
use shadowsocks_qt.Encryptor.Auth.{next_id, chunk_code, extract_loop, de_cipher_iv}

-- A front that is there in full comes off.
pub split_front :
    (n : ℕ) (front body xs rest : List ℕ)
    → length front ≡ n
    → n ≤ length xs
    → xs ++ rest ≡ front ++ body
    → (xs ≡ front ++ drop n xs) × (drop n xs ++ rest ≡ body)
split_front n front body xs rest size le e = (
  sym (take-append-drop n xs)
      ∙ ap (λ (o : List ℕ). o ++ drop n xs)
          (sym (take-append_le n xs rest le) ∙ ap (take n) e ∙ take-append_eq n front body size),
  sym (drop-append_le n xs rest le) ∙ ap (drop n) e ∙ drop-append_eq n front body size,
)

-- Every chunk has a length that fits.
abbrev pub AreShort : List (List ℕ) → Type 0
AreShort [] = Unit
AreShort (c ∷ cs) = (length c < 2 ^ 16) × AreShort cs

abbrev pub last_id : ℕ → List (List ℕ) → ℕ
last_id id [] = id
last_id id (c ∷ cs) = last_id (next_id id) cs

module _ {Host Pipe : Type 0} (q : Qt Host) (crypto : Crypto Pipe) where
  -- A chunk as it is sent: the length, the code, the bytes.
  abbrev pub frame : List ℕ → ℕ → List ℕ → List ℕ
  frame iv id chunk =
      let (hi, lo) = q.to_big_endian16 (length chunk % 2 ^ 16) in
      (hi ∷ lo ∷ chunk_code q crypto iv id chunk) ++ chunk

  abbrev pub frames : List ℕ → ℕ → List (List ℕ) → List ℕ
  frames iv id [] = []
  frames iv id (c ∷ cs) = frame iv id c ++ frames iv (next_id id) cs

module _ {Host Pipe : Type 0} (q : Qt Host) (laws : QtLaws q) (crypto : Crypto Pipe)
    (crypto_laws : CryptoLaws crypto) where
  pub code_length : (iv : List ℕ) (id : ℕ) (c : List ℕ) → length (chunk_code q crypto iv id c) ≡ 10
  unfolding chunk_code hmac_sha1
  code_length iv id c =
      let (x, y, z, w) = q.to_big_endian32 id in
      omega (
        arith,
        length-take 10 (crypto.hmac c (iv ++ x ∷ y ∷ z ∷ w ∷ [])),
        crypto_laws.hmac_length c (iv ++ x ∷ y ∷ z ∷ w ∷ []),
      )

  pub length-frame :
      (iv : List ℕ) (id : ℕ) (c : List ℕ) → length (frame q crypto iv id c) ≡ 12 + length c
  length-frame iv id c =
      omega (arith, length-append (chunk_code q crypto iv id c) c, code_length iv id c)

  -- A whole chunk at the front is taken.
  pub loop_frame :
      (fuel : ℕ) (h : Handle Pipe) (iv : List ℕ) (id : ℕ) (c ys out : List ℕ)
      → de_cipher_iv h ≡ ok iv
      → length c < 2 ^ 16
      → extract_loop q crypto (suc fuel) h id (frame q crypto iv id c ++ ys) out
        ≡ extract_loop q crypto fuel h (next_id id) ys (out ++ c)
  unfolding extract_loop
  loop_frame fuel h iv id c ys out opened short =
      let code = chunk_code q crypto iv id c in
      let n =
        q.from_big_endian16 (q.to_big_endian16 (length c % 2 ^ 16)).0
          (q.to_big_endian16 (length c % 2 ^ 16)).1 in
      let same : n ≡ length c =
        laws.big_endian16 (length c % 2 ^ 16) (omega arith) ∙ mod-eq_of_lt short in
      let whole = (code ++ c) ++ ys in
      let parts : whole ≡ code ++ (c ++ ys) = append_assoc code c ys in
      let enough : ltb (suc (suc (length whole))) (12 + length c) ≡ false =
        le→not-ltb _ _ (
          omega (arith, length-append (code ++ c) ys, length-append code c, code_length iv id c)) in
      let bytes : take (length c) (drop 10 whole) ≡ c =
        ap (λ (o : List ℕ). take (length c) (drop 10 o)) parts
        ∙ ap (take (length c)) (drop-append_eq 10 code (c ++ ys) (code_length iv id c))
        ∙ take-append_length c ys in
      let front : take 10 whole ≡ code =
        ap (take 10) parts ∙ take-append_eq 10 code (c ++ ys) (code_length iv id c) in
      let behind : drop (12 + length c) (frame q crypto iv id c ++ ys) ≡ ys =
        drop-append_eq (12 + length c) (frame q crypto iv id c) ys (length-frame iv id c) in
      rw (same, opened, enough, bytes, front, same_text code, behind) refl

  -- Less than a whole chunk waits.
  pub loop_cut :
      (fuel : ℕ) (h : Handle Pipe) (iv : List ℕ) (id : ℕ) (c rest more out xs : List ℕ)
      → length xs < length (frame q crypto iv id c)
      → 0 < length xs
      → xs ++ rest ≡ frame q crypto iv id c ++ more
      → length c < 2 ^ 16
      → extract_loop q crypto (suc fuel) h id xs out
        ≡ ok (record { chunk_id = id; result = out; incomplete_chunk = xs; verified = true })
  unfolding extract_loop
  loop_cut fuel h iv id c rest more out [] less some_bytes e short = absurd (omega arith)
  loop_cut fuel h iv id c rest more out (x ∷ []) less some_bytes e short =
      rw (lt→ltb 1 (12 + q.from_big_endian16 x 0) (omega arith)) refl
  loop_cut fuel h iv id c rest more out (x ∷ y ∷ xs) less some_bytes e short =
      let code = chunk_code q crypto iv id c in
      let same : q.from_big_endian16 x y ≡ length c =
        ap₂ q.from_big_endian16 (ap (λ (o : List ℕ). get_or o 0 0) e)
          (ap (λ (o : List ℕ). get_or o 1 0) e)
        ∙ laws.big_endian16 (length c % 2 ^ 16) (omega arith)
        ∙ mod-eq_of_lt short in
      rw
        (same, lt→ltb (suc (suc (length xs))) (12 + length c) (omega (arith, length-frame iv id c)))
        refl
