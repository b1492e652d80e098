-- ===== src/EncryptorPrivate.antt =====
-- lib/encryptorprivate.cpp, lib/encryptorprivate.h: the method and the key that encryptors share,
-- with the tables of methods of lib/cipher.cpp.
pub mod Key
pub mod Methods
pub mod Supported
pub mod Tests
use shadowsocks_qt.Prelude.{
  ℕ, zero, suc, ◌+◌, ◌-◌, List, [], ◌∷◌, ◌++◌, Bool, true, false, not, ◌||◌, ◌==◌, ◌=ˢ◌, ltb,
  if◌then◌else◌, length, get_elem?, take, flatten, Option, none, some, Result, ok, err, ◌>>=◌,
  or_fail, bad_read, no_fuel, out_of_range,
}
use shadowsocks_qt.Qt.{Qt}
use shadowsocks_qt.Crypto.{Crypto}
use shadowsocks_qt.Cipher
use shadowsocks_qt.Cipher.{codes}

pub record EncryptorPrivate : Type 0 where
  pub key_len : ℕ
  pub iv_len : ℕ
  pub method : List ℕ
  pub password : List ℕ
  pub key : List ℕ
  pub valid : Bool

-- `EncryptorPrivate(QObject *)`, the null instance.
abbrev pub null_private : EncryptorPrivate
null_private = record {
  key_len = 0;
  iv_len = 0;
  method = [];
  password = [];
  key = [];
  valid = false;
}

-- `Cipher::keyIvMap`: the length of the key and of the IV.
abbrev pub key_iv_map : List (List ℕ × (ℕ × ℕ))
key_iv_map =
    (codes "aes-128-cfb", (16, 16))
    ∷ (codes "aes-192-cfb", (24, 16))
    ∷ (codes "aes-256-cfb", (32, 16))
    ∷ (codes "aes-128-ctr", (16, 16))
    ∷ (codes "aes-192-ctr", (24, 16))
    ∷ (codes "aes-256-ctr", (32, 16))
    ∷ (codes "bf-cfb", (16, 8))
    ∷ (codes "camellia-128-cfb", (16, 16))
    ∷ (codes "camellia-192-cfb", (24, 16))
    ∷ (codes "camellia-256-cfb", (32, 16))
    ∷ (codes "cast5-cfb", (16, 8))
    ∷ (codes "chacha20", (32, 8))
    ∷ (codes "chacha20-ietf", (32, 12))
    ∷ (codes "des-cfb", (8, 8))
    ∷ (codes "idea-cfb", (16, 8))
    ∷ (codes "rc2-cfb", (16, 8))
    ∷ (codes "salsa20", (32, 8))
    ∷ (codes "seed-cfb", (16, 16))
    ∷ (codes "serpent-256-cfb", (32, 16))
    ∷ []

-- `Cipher::cipherNameMap`: the name of the method in Botan.
abbrev pub cipher_name_map : List (List ℕ × List ℕ)
cipher_name_map =
    (codes "aes-128-cfb", codes "AES-128/CFB")
    ∷ (codes "aes-192-cfb", codes "AES-192/CFB")
    ∷ (codes "aes-256-cfb", codes "AES-256/CFB")
    ∷ (codes "aes-128-ctr", codes "AES-128/CTR-BE")
    ∷ (codes "aes-192-ctr", codes "AES-192/CTR-BE")
    ∷ (codes "aes-256-ctr", codes "AES-256/CTR-BE")
    ∷ (codes "bf-cfb", codes "Blowfish/CFB")
    ∷ (codes "camellia-128-cfb", codes "Camellia-128/CFB")
    ∷ (codes "camellia-192-cfb", codes "Camellia-192/CFB")
    ∷ (codes "camellia-256-cfb", codes "Camellia-256/CFB")
    ∷ (codes "cast5-cfb", codes "CAST-128/CFB")
    ∷ (codes "chacha20", codes "ChaCha")
    ∷ (codes "chacha20-ietf", codes "ChaCha")
    ∷ (codes "des-cfb", codes "DES/CFB")
    ∷ (codes "idea-cfb", codes "IDEA/CFB")
    ∷ (codes "rc2-cfb", codes "RC2/CFB")
    ∷ (codes "salsa20", codes "Salsa20")
    ∷ (codes "seed-cfb", codes "SEED/CFB")
    ∷ (codes "serpent-256-cfb", codes "Serpent/CFB")
    ∷ []

-- `std::map::at`.
unfoldable pub at {ℓ} : {V : Type ℓ} → List (List ℕ × V) → List ℕ → Result V
at [] k = err out_of_range
at ((j, v) ∷ m) k = if j =ˢ k then ok v else at m k

module _ {Pipe : Type 0} (crypto : Crypto Pipe) where
  -- The loop of `evpBytesToKey`; `hashes` is `m`, of which the size is `i`. Each round appends one.
  unfoldable pub evp_loop : ℕ → ℕ → List ℕ → List (List ℕ) → Result (List (List ℕ))
  evp_loop zero want password hashes = err no_fuel
  evp_loop (suc fuel) want password hashes =
      let i = length hashes in
      if ltb i want
      then ((if i == 0
            then ok password
            else (or_fail (get_elem? hashes (i - 1)) bad_read >>= λ last. ok (last ++ password)))
          >>= λ text. evp_loop fuel want password (hashes ++ Cipher.md5_hash crypto text ∷ []))
      else ok hashes

  unfoldable pub evp_bytes_to_key : ℕ → ℕ → List ℕ → Result (List ℕ)
  unfolding evp_loop
  evp_bytes_to_key key_len iv_len password =
      evp_loop (suc (key_len + iv_len)) (key_len + iv_len) password [] >>= λ hashes.
      ok (take key_len (flatten hashes))

  -- The constructor, of the method and the password as texts.
  unfoldable pub create : {Host : Type 0} → Qt Host → List ℕ → List ℕ → Result EncryptorPrivate
  unfolding at evp_bytes_to_key
  create q m pwd =
      let name = q.to_local8bit (q.to_lower m) in
      let password = q.to_local8bit pwd in
      at key_iv_map name >>= λ ki. at cipher_name_map name >>= λ method.
      evp_bytes_to_key ki.0 ki.1 password >>= λ key. ok (record {
        key_len = ki.0;
        iv_len = ki.1;
        method = method;
        password = password;
        key = key;
        valid = not (ki.0 == 0 || not (Cipher.is_supported crypto method));
      })
