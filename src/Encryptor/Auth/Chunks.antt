-- ===== src/Encryptor/Auth/Chunks.antt =====
-- Chunks through `addChunkAuth` and `verifyExtractChunkAuth` of lib/encryptor.cpp.
use shadowsocks_qt.Prelude.{
  ℕ, zero, suc, ◌+◌, ◌≤◌, ◌≡◌, refl, sym, ap, subst, ◌∙◌, List, [], ◌∷◌, ◌++◌, append-nil,
  append_assoc, Bool, true, ◌&&◌, ltb, ltb→lt, not-ltb→le, Bool-cases, inl, inr, length,
  length-append, drop, flatten, flatten-append, Result, ok, ◌>>=◌, arith,
}
use shadowsocks_qt.Qt.{Qt, QtLaws}
use shadowsocks_qt.Crypto.{Crypto, CryptoLaws}
use shadowsocks_qt.Cipher.{Cipher}
use shadowsocks_qt.Encryptor.{Encryptor, Handle, live}
use shadowsocks_qt.Encryptor.Auth.{
  next_id, Extracted, add_chunk_auth, extract_loop, verify_extract_chunk_auth, de_cipher_iv,
}
use shadowsocks_qt.Encryptor.Auth.Frames.{
  split_front, AreShort, last_id, frame, frames, length-frame, loop_frame, loop_cut,
}

module _ {Host Pipe : Type 0} (q : Qt Host) (crypto : Crypto Pipe) where
  -- The chunks that one encryptor sends, one after another, and all that they make.
  unfoldable pub add_chunks : Encryptor Pipe → List (List ℕ) → Encryptor Pipe × List ℕ
  add_chunks e [] = (e, [])
  add_chunks e (c ∷ cs) =
      let (e1, out) = add_chunk_auth q crypto e c in
      let (e2, more) = add_chunks e1 cs in (e2, out ++ more)

  -- The pieces that arrive, one after another: the chunks in them, and whether every code is right.
  unfoldable pub extract_segments :
      Encryptor Pipe → List (List ℕ) → Result (Encryptor Pipe × List ℕ × Bool)
  extract_segments e [] = ok (e, [], true)
  extract_segments e (xs ∷ rest) = verify_extract_chunk_auth q crypto e xs >>= λ r.
      extract_segments r.0 rest >>= λ t. ok (t.0, r.1 ++ t.1, r.2 && t.2)

  add_chunks-frames :
      (e : Encryptor Pipe) (chunks : List (List ℕ))
      → add_chunks e chunks ≡ (
        record e { chunk_id = last_id e.chunk_id chunks },
        frames q crypto e.en_cipher_iv e.chunk_id chunks,
      )
  unfolding add_chunks add_chunk_auth
  add_chunks-frames e [] = refl
  add_chunks-frames e (c ∷ cs) =
      rw (add_chunks-frames (record e { chunk_id = next_id e.chunk_id }) cs) refl

-- What the loop has when every code was right.
abbrev so_far : ℕ → List ℕ → List ℕ → Result Extracted
so_far id out left =
    ok (record { chunk_id = id; result = out; incomplete_chunk = left; verified = true })

module _ {Host Pipe : Type 0} (q : Qt Host) (crypto : Crypto Pipe) where
  -- How far a run of the loop comes in bytes of which `rest` has not arrived: the chunks that are
  -- done, those to do, and the bytes that wait.
  abbrev Reaches : List ℕ → ℕ → List (List ℕ) → List ℕ → List ℕ → Result Extracted → Type 0
  Reaches iv id chunks rest out r =
      (done : List (List ℕ)) × (todo : List (List ℕ)) × (left : List ℕ) × (chunks ≡ done ++ todo)
      × AreShort todo
      × (r ≡ so_far (last_id id done) (out ++ flatten done) left)
      × (left ++ rest ≡ frames q crypto iv (last_id id done) todo)
      × (rest ≡ [] → left ≡ [])

  none_done :
      (iv : List ℕ) (id : ℕ) (chunks : List (List ℕ)) (rest out left : List ℕ)
      (r : Result Extracted)
      → r ≡ so_far id out left
      → AreShort chunks
      → left ++ rest ≡ frames q crypto iv id chunks
      → (rest ≡ [] → left ≡ [])
      → Reaches iv id chunks rest out r
  unfolding flatten
  none_done iv id chunks rest out left r ran short e last = (
    [],
    chunks,
    left,
    refl,
    short,
    ran ∙ ap (λ (o : List ℕ). so_far id o left) (sym (append-nil out)),
    e,
    last,
  )

  one_done :
      (iv : List ℕ) (id : ℕ) (c : List ℕ) (chunks : List (List ℕ)) (rest out : List ℕ)
      (r : Result Extracted)
      → Reaches iv (next_id id) chunks rest (out ++ c) r
      → Reaches iv id (c ∷ chunks) rest out r
  unfolding flatten
  one_done iv id c chunks rest out r (done, todo, left, parts, fits, ran, waits, last) = (
    c ∷ done,
    todo,
    left,
    ap (◌∷◌ c) parts,
    fits,
    ran
        ∙ ap (λ (o : List ℕ). so_far (last_id (next_id id) done) o left)
            (append_assoc out c (flatten done)),
    waits,
    last,
  )

module _ {Host Pipe : Type 0} (q : Qt Host) (laws : QtLaws q) (crypto : Crypto Pipe)
    (crypto_laws : CryptoLaws crypto) where
  loop-Reaches :
      (fuel : ℕ) (h : Handle Pipe) (iv : List ℕ) (id : ℕ) (chunks : List (List ℕ))
      (xs rest out : List ℕ)
      → de_cipher_iv h ≡ ok iv
      → AreShort chunks
      → length xs ≤ fuel
      → xs ++ rest ≡ frames q crypto iv id chunks
      → Reaches q crypto iv id chunks rest out (extract_loop q crypto fuel h id xs out)
  loop-Reaches fuel h iv id chunks [] rest out opened short enough e =
      none_done q crypto iv id chunks rest out [] _ (unfold extract_loop in refl) short e
        (λ _. refl)
  loop-Reaches zero h iv id chunks (x ∷ xs) rest out opened short enough e = absurd (omega arith)
  loop-Reaches (suc fuel) h iv id [] (x ∷ xs) rest out opened short enough e = cc
  loop-Reaches (suc fuel) h iv id (c ∷ cs) (x ∷ xs) rest out opened short enough e =
      let more = frames q crypto iv (next_id id) cs in
      let size = length-frame q laws crypto crypto_laws iv id c in
      elim (Bool-cases (ltb (length (x ∷ xs)) (length (frame q crypto iv id c)))) [
        | inl less ↦
            none_done q crypto iv id (c ∷ cs) rest out (x ∷ xs) _
              (loop_cut q laws crypto crypto_laws fuel h iv id c rest more out (x ∷ xs)
                (ltb→lt _ _ less) (omega arith) e short.0)
              short e
              (λ none. absurd (
                omega (
                  arith,
                  ltb→lt _ _ less,
                  ap length e,
                  ap length none,
                  length-append (x ∷ xs) rest,
                  length-append (frame q crypto iv id c) more,
                )))
        | inr whole ↦
            let ys = drop (12 + length c) (x ∷ xs) in
            let (shape, behind) =
              split_front (12 + length c) (frame q crypto iv id c) more (x ∷ xs) rest size
                (subst (λ (n : ℕ). n ≤ length (x ∷ xs)) size (not-ltb→le _ _ whole)) e in
            subst (Reaches q crypto iv id (c ∷ cs) rest out)
              (sym (
                ap (λ (o : List ℕ). extract_loop q crypto (suc fuel) h id o out) shape
                ∙ loop_frame q laws crypto crypto_laws fuel h iv id c ys out opened short.0))
              (one_done q crypto iv id c cs rest out _ (
                loop-Reaches fuel h iv (next_id id) cs ys rest (out ++ c) opened short.1
                  (omega (arith, ap length shape, length-append (frame q crypto iv id c) ys, size))
                  behind))
      ]

  last_id-append :
      (id : ℕ) (done todo : List (List ℕ))
      → last_id id (done ++ todo) ≡ last_id (last_id id done) todo
  last_id-append id [] todo = refl
  last_id-append id (c ∷ done) todo = last_id-append (next_id id) done todo

  nil_of_frames :
      (iv : List ℕ) (id : ℕ) (chunks : List (List ℕ))
      → [] ≡ frames q crypto iv id chunks
      → chunks ≡ []
  nil_of_frames iv id [] e = refl
  nil_of_frames iv id (c ∷ cs) e = cc

  -- The rest of a stream, from a receiver that holds the beginning of it.
  segments-Reach :
      (b : Encryptor Pipe) (iv : List ℕ) (chunks segments : List (List ℕ))
      → de_cipher_iv b.de_cipher ≡ ok iv
      → AreShort chunks
      → b.incomplete_chunk ++ flatten segments ≡ frames q crypto iv b.chunk_id chunks
      → (flatten segments ≡ [] → b.incomplete_chunk ≡ [])
      → extract_segments q crypto b segments
        ≡ ok (
          record b { incomplete_chunk = []; chunk_id = last_id b.chunk_id chunks },
          flatten chunks,
          true,
        )
  unfolding extract_segments flatten
  segments-Reach b iv chunks [] opened short e last =
      let none : b.incomplete_chunk ≡ [] = last refl in
      let no_chunks : chunks ≡ [] =
        nil_of_frames iv b.chunk_id chunks (ap (λ (o : List ℕ). o ++ []) (sym none) ∙ e) in
      rw (no_chunks, none) refl
  segments-Reach b iv chunks (xs ∷ rest) opened short e last =
      let input = b.incomplete_chunk ++ xs in
      let (done, todo, left, parts, fits, ran, waits, ends) =
        loop-Reaches (length input) b.de_cipher iv b.chunk_id chunks input (flatten rest) [] opened
          short (omega arith) (append_assoc b.incomplete_chunk xs (flatten rest) ∙ e) in
      let b1 = record b { incomplete_chunk = left; chunk_id = last_id b.chunk_id done } in
      let one : verify_extract_chunk_auth q crypto b xs ≡ ok (b1, flatten done, true) =
        unfold verify_extract_chunk_auth in rw ran refl in
      let later = segments-Reach b1 iv todo rest opened fits waits ends in
      rw (one, later)
        (rw (parts, last_id-append b.chunk_id done todo, flatten-append done todo) refl)

  -- A receiver with the IV and the chunk number of a sender, and nothing that waits: whatever
  -- chunks of less than 2 ^ 16 bytes the sender makes, and however they are cut on the way, every
  -- code is right, the bytes of the chunks come out in order and complete, nothing waits in the end,
  -- and the numbers agree again.
  pub extract_segments-add_chunks :
      (a b : Encryptor Pipe) (c : Cipher Pipe) (chunks segments : List (List ℕ))
      → b.de_cipher ≡ live c
      → c.iv ≡ a.en_cipher_iv
      → b.chunk_id ≡ a.chunk_id
      → b.incomplete_chunk ≡ []
      → AreShort chunks
      → flatten segments ≡ (add_chunks q crypto a chunks).1
      → extract_segments q crypto b segments
        ≡ ok (
          record b { chunk_id = (add_chunks q crypto a chunks).0.chunk_id; incomplete_chunk = [] },
          flatten chunks,
          true,
        )
  extract_segments-add_chunks a b c chunks segments opened same_iv same_id none short came =
      let sent = add_chunks-frames q crypto a chunks in
      segments-Reach b a.en_cipher_iv chunks segments (ap de_cipher_iv opened ∙ ap ok same_iv) short
        (ap (λ (o : List ℕ). o ++ flatten segments) none
          ∙ came
          ∙ ap (λ p. p.1) sent
          ∙ ap (λ (id : ℕ). frames q crypto a.en_cipher_iv id chunks) (sym same_id))
        (λ _. none)
      ∙ ap
          (λ (id : ℕ). ok (record b { incomplete_chunk = []; chunk_id = id }, flatten chunks, true))
          (ap (λ (id : ℕ). last_id id chunks) same_id ∙ ap (λ p. p.0.chunk_id) (sym sent))
