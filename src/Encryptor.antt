-- ===== src/Encryptor.antt =====
-- lib/encryptor.cpp, lib/encryptor.h: the cipher state of one connection, or of the UDP relay. A
-- `Q_ASSERT(ep.isValid())` has no effect in a release build and is not modelled. Random bytes are
-- arguments: `drawn` is what the generator gives in the call.
pub mod Tcp
pub mod Udp
pub mod Halves
pub mod Sound
pub mod Auth
pub mod Tests
use shadowsocks_qt.Prelude.{
  ℕ, ◌+◌, List, [], ◌∷◌, ◌++◌, Bool, true, false, not, ◌==◌, if◌then◌else◌, length, take, drop,
  Result, ok, err, ◌>>=◌, ◌>>◌, dangling,
}
use shadowsocks_qt.Crypto.{Crypto}
use shadowsocks_qt.Cipher
use shadowsocks_qt.Cipher.{Cipher}
use shadowsocks_qt.EncryptorPrivate.{EncryptorPrivate}

-- A pointer to a cipher: null, to a cipher that lives, or to one that has been deleted.
-- `deleteLater` deletes when the event loop runs again, that is before the next call from outside.
pub data Handle (Pipe : Type 0) : Type 0 where
  null : Handle Pipe
  live : Cipher Pipe → Handle Pipe
  deleted : Handle Pipe

pub record Encryptor (Pipe : Type 0) : Type 0 where
  pub ep : EncryptorPrivate
  pub en_cipher_iv : List ℕ
  pub incomplete_chunk : List ℕ
  pub chunk_id : ℕ
  pub en_cipher : Handle Pipe
  pub de_cipher : Handle Pipe

-- `if (p) p->deleteLater();`, and the pointer after it, which the statement does not change.
abbrev pub delete_later : {Pipe : Type 0} → Handle Pipe → Result (Handle Pipe)
delete_later null = ok null
delete_later (live c) = ok deleted
delete_later deleted = err dangling

abbrev pub is_null : {Pipe : Type 0} → Handle Pipe → Bool
is_null null = true
is_null (live c) = false
is_null deleted = false

module _ {Pipe : Type 0} where
  -- The constructor.
  unfoldable pub create : EncryptorPrivate → List ℕ → Encryptor Pipe
  create ep drawn = record {
    ep = ep;
    en_cipher_iv = Cipher.random_iv ep.iv_len drawn;
    incomplete_chunk = [];
    chunk_id = 0;
    en_cipher = null;
    de_cipher = null;
  }

  unfoldable pub reset : Encryptor Pipe → List ℕ → Result (Encryptor Pipe)
  reset e drawn = delete_later e.en_cipher >>= λ _. delete_later e.de_cipher >>= λ _. ok (record e {
    en_cipher = null;
    de_cipher = null;
    chunk_id = 0;
    en_cipher_iv =
        if is_null e.en_cipher then e.en_cipher_iv else Cipher.random_iv e.ep.iv_len drawn;
  })

module _ {Pipe : Type 0} (crypto : Crypto Pipe) where
  abbrev pub encrypt_with : Encryptor Pipe → Handle Pipe → List ℕ → Result (Encryptor Pipe × List ℕ)
  encrypt_with e null input = Cipher.create crypto e.ep.method e.ep.key e.en_cipher_iv true >>= λ c.
      Cipher.update crypto c input >>= λ r.
      ok (record e { en_cipher = live r.0 }, e.en_cipher_iv ++ r.1)
  encrypt_with e (live c) input =
      Cipher.update crypto c input >>= λ r. ok (record e { en_cipher = live r.0 }, r.1)
  encrypt_with e deleted input = err dangling

  unfoldable pub encrypt : Encryptor Pipe → List ℕ → Result (Encryptor Pipe × List ℕ)
  encrypt e input = encrypt_with e e.en_cipher input

  abbrev pub decrypt_with : Encryptor Pipe → Handle Pipe → List ℕ → Result (Encryptor Pipe × List ℕ)
  decrypt_with e null input =
      let iv = take e.ep.iv_len input in
      if not (length iv == e.ep.iv_len)
      then ok (e, [])
      else (Cipher.create crypto e.ep.method e.ep.key iv false >>= λ c.
          Cipher.update crypto c (drop e.ep.iv_len input) >>= λ r.
          ok (record e { de_cipher = live r.0 }, r.1))
  decrypt_with e (live c) input =
      Cipher.update crypto c input >>= λ r. ok (record e { de_cipher = live r.0 }, r.1)
  decrypt_with e deleted input = err dangling

  unfoldable pub decrypt : Encryptor Pipe → List ℕ → Result (Encryptor Pipe × List ℕ)
  decrypt e input = decrypt_with e e.de_cipher input

  unfoldable pub encrypt_all : Encryptor Pipe → List ℕ → List ℕ → Result (Encryptor Pipe × List ℕ)
  encrypt_all e drawn input = delete_later e.en_cipher >>= λ _.
      let iv = e.en_cipher_iv in
      Cipher.create crypto e.ep.method e.ep.key iv true >>= λ c.
      Cipher.update crypto c input >>= λ r. ok (
        record e { en_cipher_iv = Cipher.random_iv e.ep.iv_len drawn; en_cipher = live r.0 },
        iv ++ r.1,
      )

  -- On an input that is too short the pointer stays what `deleteLater` has left.
  unfoldable pub decrypt_all : Encryptor Pipe → List ℕ → Result (Encryptor Pipe × List ℕ)
  decrypt_all e input = delete_later e.de_cipher >>= λ left.
      let iv = take e.ep.iv_len input in
      if not (length iv == e.ep.iv_len)
      then ok (record e { de_cipher = left }, [])
      else (Cipher.create crypto e.ep.method e.ep.key iv false >>= λ c.
          Cipher.update crypto c (drop e.ep.iv_len input) >>= λ r.
          ok (record e { de_cipher = live r.0 }, r.1))
