-- ===== src/Encryptor/Auth.antt =====
-- The one-time authentication of lib/encryptor.cpp: `addHeaderAuth`, `addChunkAuth`,
-- `verifyHeaderAuth` and `verifyExtractChunkAuth`. The two forms of `addHeaderAuth` are
-- `add_header_auth` and `insert_header_auth`.
pub mod Headers
pub mod Frames
pub mod Chunks
pub mod Tampered
pub mod Tests
use shadowsocks_qt.Prelude.{
  ℕ, zero, suc, ◌+◌, ◌-◌, ◌%◌, ◌^◌, List, [], ◌∷◌, ◌++◌, Bool, true, false, ltb, ◌=ˢ◌,
  if◌then◌else◌, length, take, drop, mid, replicate, Result, ok, err, ◌>>=◌, raw_byte, dangling,
  no_fuel,
}
use shadowsocks_qt.Qt.{Qt}
use shadowsocks_qt.Crypto.{Crypto}
use shadowsocks_qt.Cipher.{Cipher, auth_len, hmac_sha1}
use shadowsocks_qt.Encryptor.{Encryptor, Handle, null, live, deleted}

-- `deCipherIV`, by the pointer to the cipher.
abbrev pub de_cipher_iv : {Pipe : Type 0} → Handle Pipe → Result (List ℕ)
de_cipher_iv null = ok []
de_cipher_iv (live c) = ok c.iv
de_cipher_iv deleted = err dangling

-- `QByteArray::insert`: behind the end it fills up with spaces.
unfoldable pub insert : List ℕ → ℕ → List ℕ → List ℕ
insert bytes i more = take i bytes ++ replicate (i - length bytes) 32 ++ more ++ drop i bytes

-- `chunkId++` of a `quint32`.
abbrev pub next_id : ℕ → ℕ
next_id id = (id + 1) % 2 ^ 32

-- What the loop of `verifyExtractChunkAuth` leaves.
pub record Extracted : Type 0 where
  pub chunk_id : ℕ
  pub result : List ℕ
  pub incomplete_chunk : List ℕ
  pub verified : Bool

module _ {Pipe : Type 0} (crypto : Crypto Pipe) where
  unfoldable pub add_header_auth : Encryptor Pipe → List ℕ → List ℕ
  add_header_auth e header = header ++ hmac_sha1 crypto (e.en_cipher_iv ++ e.ep.key) header

  unfoldable pub insert_header_auth : Encryptor Pipe → List ℕ → ℕ → List ℕ
  unfolding insert
  insert_header_auth e bytes header_len =
      insert bytes header_len
        (hmac_sha1 crypto (e.en_cipher_iv ++ e.ep.key) (take header_len bytes))

  unfoldable pub verify_header_auth : Encryptor Pipe → List ℕ → ℕ → Result Bool
  verify_header_auth e bytes header_len = de_cipher_iv e.de_cipher >>= λ iv.
      ok
        (hmac_sha1 crypto (iv ++ e.ep.key) (take header_len bytes) =ˢ mid bytes header_len auth_len)

module _ {Host Pipe : Type 0} (q : Qt Host) (crypto : Crypto Pipe) where
  -- The code of a chunk, with the number of the chunk in the key.
  unfoldable pub chunk_code : List ℕ → ℕ → List ℕ → List ℕ
  chunk_code iv id chunk =
      let (a, b, c, d) = q.to_big_endian32 id in hmac_sha1 crypto (iv ++ a ∷ b ∷ c ∷ d ∷ []) chunk

  unfoldable pub add_chunk_auth : Encryptor Pipe → List ℕ → Encryptor Pipe × List ℕ
  add_chunk_auth e bytes =
      let (hi, lo) = q.to_big_endian16 (length bytes % 2 ^ 16) in
      (
        record e { chunk_id = next_id e.chunk_id },
        (hi ∷ lo ∷ chunk_code e.en_cipher_iv e.chunk_id bytes) ++ bytes,
      )

  -- The loop, on the bytes from `pos` on.
  unfoldable pub extract_loop : ℕ → Handle Pipe → ℕ → List ℕ → List ℕ → Result Extracted
  extract_loop fuel h id [] result =
      ok (record { chunk_id = id; result = result; incomplete_chunk = []; verified = true })
  extract_loop zero h id (x ∷ xs) result = err no_fuel
  extract_loop (suc fuel) h id (x ∷ xs) result =
      let left = x ∷ xs in
      raw_byte left 0 >>= λ hi. raw_byte left 1 >>= λ lo.
      let len = q.from_big_endian16 hi lo in
      if ltb (length left) (2 + auth_len + len)
      then ok (record { chunk_id = id; result = result; incomplete_chunk = left; verified = true })
      else (de_cipher_iv h >>= λ iv.
          let chunk = mid left (2 + auth_len) len in
          if chunk_code iv id chunk =ˢ mid left 2 auth_len
          then extract_loop fuel h (next_id id) (drop (2 + auth_len + len) left) (result ++ chunk)
          else ok (record {
            chunk_id = next_id id;
            result = result;
            incomplete_chunk = [];
            verified = false;
          }))

  unfoldable pub verify_extract_chunk_auth :
      Encryptor Pipe → List ℕ → Result (Encryptor Pipe × List ℕ × Bool)
  unfolding extract_loop
  verify_extract_chunk_auth e bytes =
      let input = e.incomplete_chunk ++ bytes in
      extract_loop (length input) e.de_cipher e.chunk_id input [] >>= λ r. ok (
        record e { incomplete_chunk = r.incomplete_chunk; chunk_id = r.chunk_id },
        r.result,
        r.verified,
      )
