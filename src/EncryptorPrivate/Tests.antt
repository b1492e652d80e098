-- ===== src/EncryptorPrivate/Tests.antt =====
-- Runs of the settings with small instances.
use shadowsocks_qt.Prelude.{
  ℕ, ◌≡◌, refl, List, [], ◌∷◌, ◌++◌, replicate, take, flatten, true, ok, err, out_of_range, ◌⊎◌,
  length, Returns, arith,
}
use shadowsocks_qt.Tests.{small_qt, small_crypto, small_crypto_laws}
use shadowsocks_qt.Cipher
use shadowsocks_qt.Cipher.{codes}
use shadowsocks_qt.EncryptorPrivate.{
  EncryptorPrivate, key_iv_map, at, evp_loop, evp_bytes_to_key, create,
}
use shadowsocks_qt.EncryptorPrivate.Key.{hash_chain, evp_bytes_to_key-hash_chain}
use shadowsocks_qt.EncryptorPrivate.Supported.{
  listed, makes_valid, get_supported_method_list, listed-create,
}
use shadowsocks_qt.EncryptorPrivate.Methods.{create-cases}

abbrev pub password : List ℕ
password = 1 ∷ []

evp_bytes_to_key-hash_chain_example :
    evp_bytes_to_key small_crypto 32 16 password
    ≡ ok (take 32 (flatten (hash_chain small_crypto password [] 2)))
evp_bytes_to_key-hash_chain_example =
    evp_bytes_to_key-hash_chain small_crypto small_crypto_laws 32 16 2 password (omega arith)

abbrev pub settings : EncryptorPrivate
settings = record {
  key_len = 32;
  iv_len = 12;
  method = codes "ChaCha";
  password = password;
  key = (1 ∷ replicate 15 7) ++ 1 ∷ replicate 15 7;
  valid = true;
}

pub makes : create small_crypto small_qt (codes "chacha20-ietf") password ≡ ok settings
unfolding create at evp_loop evp_bytes_to_key flatten Cipher.md5_hash Cipher.is_supported
makes = refl

abbrev drawn : List ℕ
drawn = replicate 12 3

create-cases_example :
    let name = codes "rot13" in
    ((at key_iv_map name ≡ err out_of_range)
      × (create small_crypto small_qt name password ≡ err out_of_range))
    ⊎ ((ki : ℕ × ℕ) × (at key_iv_map name ≡ ok ki)
        × Returns
            (λ ep.
              (ep.key_len ≡ ki.0)
              × (ep.iv_len ≡ ki.1)
              × (length ep.key ≡ ki.0)
              × (ep.valid ≡ Cipher.is_supported small_crypto ep.method))
            (create small_crypto small_qt name password))
create-cases_example = create-cases small_qt small_crypto small_crypto_laws (codes "rot13") password

listed-create_example :
    listed (codes "chacha20") (get_supported_method_list small_crypto)
    ≡ makes_valid (create small_crypto small_qt (codes "chacha20") (1 ∷ []))
listed-create_example =
    listed-create small_qt small_crypto small_crypto_laws (codes "chacha20") (1 ∷ [])
