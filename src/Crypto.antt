-- ===== src/Crypto.antt =====
-- What lib/cipher.cpp takes from Botan and from Qt: the keyed filters of `Botan::get_cipher` behind
-- a pipe, MD5 and HMAC-SHA1. They are not part of the repository, so they are parameters, with the
-- facts that are documented of them.
use shadowsocks_qt.Prelude.{ℕ, ◌≡◌, Bool, true, false, List, [], ◌++◌, Option, some, length}
use shadowsocks_qt.Botan.{Botan}

pub record Crypto (Pipe : Type 0) : Type 0 where
  pub botan : Botan
  -- `Botan::get_cipher(method, key, iv, direction)` in a pipe; `none` is a `Botan::Exception`. The
  -- flag is `encode`.
  pub get_cipher : List ℕ → List ℕ → List ℕ → Bool → Option Pipe
  -- `get_cipher(method, ENCRYPTION)` throws no exception.
  pub accepts : List ℕ → Bool
  -- `process_msg` and then `read_all(LAST_MESSAGE)`.
  pub process_msg : Pipe → List ℕ → List ℕ × Pipe
  pub md5 : List ℕ → List ℕ
  -- `QMessageAuthenticationCode::hash(message, key, Sha1)`.
  pub hmac : List ℕ → List ℕ → List ℕ

-- The filters that the program names are stream ciphers (CFB, CTR, Salsa20): the output does not
-- depend on how the input is cut into messages, and the two directions undo one another. MD5 has
-- sixteen bytes and HMAC-SHA1 has twenty.
pub record CryptoLaws {Pipe : Type 0} (crypto : Crypto Pipe) : Type 0 where
  pub process_nil : (p : Pipe) → crypto.process_msg p [] ≡ ([], p)
  pub process-append :
      (p : Pipe) (xs ys : List ℕ)
      → let first = crypto.process_msg p xs in
        let second = crypto.process_msg first.1 ys in
        crypto.process_msg p (xs ++ ys) ≡ (first.0 ++ second.0, second.1)
  pub both_directions :
      (method key iv : List ℕ) (e : Pipe)
      → crypto.get_cipher method key iv true ≡ some e
      → (d : Pipe) × (crypto.get_cipher method key iv false ≡ some d)
  pub inverse :
      (method key iv : List ℕ) (e d : Pipe) (xs : List ℕ)
      → crypto.get_cipher method key iv true ≡ some e
      → crypto.get_cipher method key iv false ≡ some d
      → (crypto.process_msg d (crypto.process_msg e xs).0).0 ≡ xs
  pub md5_length : (xs : List ℕ) → length (crypto.md5 xs) ≡ 16
  pub hmac_length : (msg key : List ℕ) → length (crypto.hmac msg key) ≡ 20
