-- ===== src/Encryptor/Auth/Tampered.antt =====
-- A chunk with another code, at `verifyExtractChunkAuth` of lib/encryptor.cpp.
use shadowsocks_qt.Prelude.{
  ℕ, suc, ◌+◌, ◌%◌, ◌^◌, ◌<◌, ◌≡◌, refl, ap, ◌∙◌, List, [], ◌∷◌, ◌++◌, false, ltb, le→not-ltb, ◌=ˢ◌,
  length, length-append, take, drop, take-append_length, take-append_eq, drop-append_eq, ok, arith,
}
use native.Mathlib.Nat.{mod-eq_of_lt}
use shadowsocks_qt.Qt.{Qt, QtLaws}
use shadowsocks_qt.Crypto.{Crypto}
use shadowsocks_qt.Cipher.{Cipher}
use shadowsocks_qt.Encryptor.{Encryptor, live}
use shadowsocks_qt.Encryptor.Auth.{next_id, chunk_code, verify_extract_chunk_auth}

module _ {Host Pipe : Type 0} (q : Qt Host) (laws : QtLaws q) (crypto : Crypto Pipe) where
  -- A whole chunk of less than 2 ^ 16 bytes with ten bytes that are not its code, in front of any
  -- bytes: the answer is false, no byte of it or behind it comes out or waits, and its number is
  -- used up.
  pub verify_extract_chunk_auth_tampered :
      (b : Encryptor Pipe) (c : Cipher Pipe) (code chunk rest : List ℕ)
      → b.de_cipher ≡ live c
      → b.incomplete_chunk ≡ []
      → length chunk < 2 ^ 16
      → length code ≡ 10
      → (chunk_code q crypto c.iv b.chunk_id chunk =ˢ code) ≡ false
      → let len = q.to_big_endian16 (length chunk % 2 ^ 16) in
        verify_extract_chunk_auth q crypto b (len.0 ∷ len.1 ∷ code ++ (chunk ++ rest))
        ≡ ok (record b { chunk_id = next_id b.chunk_id; incomplete_chunk = [] }, [], false)
  unfolding verify_extract_chunk_auth
  verify_extract_chunk_auth_tampered b c code chunk rest opened none short size wrong =
      let len = q.to_big_endian16 (length chunk % 2 ^ 16) in
      let same : q.from_big_endian16 len.0 len.1 ≡ length chunk =
        laws.big_endian16 (length chunk % 2 ^ 16) (omega arith) ∙ mod-eq_of_lt short in
      let whole = code ++ (chunk ++ rest) in
      let enough : ltb (suc (suc (length whole))) (12 + length chunk) ≡ false =
        le→not-ltb _ _
          (omega (arith, length-append code (chunk ++ rest), length-append chunk rest, size)) in
      let bytes : take (length chunk) (drop 10 whole) ≡ chunk =
        ap (take (length chunk)) (drop-append_eq 10 code (chunk ++ rest) size)
        ∙ take-append_length chunk rest in
      let front : take 10 whole ≡ code = take-append_eq 10 code (chunk ++ rest) size in
      rw (opened, none) (rw (same, enough, bytes, front, wrong) refl)
