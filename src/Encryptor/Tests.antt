-- ===== src/Encryptor/Tests.antt =====
-- Runs of encryptors with a small pipe.
use shadowsocks_qt.Prelude.{
  ℕ, ◌≡◌, refl, List, [], ◌∷◌, length, flatten, over_segments, true, some, none, ok, err, ◌>>=◌,
  dangling, arith,
}
use shadowsocks_qt.Tests.{small_crypto, small_crypto_laws}
use shadowsocks_qt.Cipher
use shadowsocks_qt.Cipher.{Cipher, codes, random_iv}
use shadowsocks_qt.EncryptorPrivate.{EncryptorPrivate}
use shadowsocks_qt.Encryptor.{
  Encryptor, null, live, deleted, create, encrypt, encrypt_all, decrypt_all,
}
use shadowsocks_qt.Encryptor.Tcp.{
  encrypt_segments, decrypt_segments, decrypt_segments-encrypt_segments, decrypt_segments_trickled,
}
use shadowsocks_qt.Encryptor.Udp.{decrypt_all-encrypt_all, decrypt_all_dangling}

abbrev pub settings : EncryptorPrivate
settings = record {
  key_len = 2;
  iv_len = 3;
  method = codes "AES-128/CFB";
  password = 1 ∷ [];
  key = 5 ∷ 6 ∷ [];
  valid = true;
}

abbrev pub drawn : List ℕ
drawn = 10 ∷ 20 ∷ 30 ∷ []

abbrev pub masking : Cipher ℕ
masking = record { pipe = some 5; chacha = none; iv = drawn }

abbrev pub sender : Encryptor ℕ
sender = record {
  ep = settings;
  en_cipher_iv = drawn;
  incomplete_chunk = [];
  chunk_id = 0;
  en_cipher = live masking;
  de_cipher = null;
}

abbrev receiver : Encryptor ℕ
receiver = record {
  ep = settings;
  en_cipher_iv = drawn;
  incomplete_chunk = [];
  chunk_id = 0;
  en_cipher = null;
  de_cipher = live masking;
}

abbrev first : List ℕ
first = 5 ∷ 4 ∷ []

abbrev later : List (List ℕ)
later = (7 ∷ []) ∷ []

abbrev sent : List ℕ
sent = 10 ∷ 20 ∷ 30 ∷ 0 ∷ 1 ∷ 2 ∷ []

abbrev came_first : List ℕ
came_first = 10 ∷ 20 ∷ 30 ∷ 0 ∷ []

abbrev came_later : List (List ℕ)
came_later = (1 ∷ 2 ∷ []) ∷ []

sends : encrypt_segments small_crypto (create settings drawn) (first ∷ later) ≡ ok (sender, sent)
unfolding create encrypt over_segments Cipher.create Cipher.update Cipher.random_iv
sends = refl

arrives : flatten (came_first ∷ came_later) ≡ sent
unfolding flatten
arrives = refl

decrypt_segments-encrypt_segments_example :
    (b : Encryptor ℕ) × (decrypt_segments small_crypto
        (create settings drawn)
        (came_first ∷ came_later)
      ≡ ok (b, flatten (first ∷ later)))
decrypt_segments-encrypt_segments_example =
    decrypt_segments-encrypt_segments small_crypto small_crypto_laws settings drawn drawn first
      came_first later came_later sender sent (omega arith) (omega arith) sends arrives

-- The IV alone takes three bytes; two pieces of two bytes come first.
decrypt_segments_trickled_example :
    (b : Encryptor ℕ) × (decrypt_segments small_crypto
        (create settings drawn)
        ((1 ∷ 2 ∷ []) ∷ (3 ∷ 4 ∷ []) ∷ came_first ∷ came_later)
      ≡ ok (b, flatten (first ∷ later)))
decrypt_segments_trickled_example =
    decrypt_segments_trickled small_crypto small_crypto_laws settings drawn drawn first came_first
      ((1 ∷ 2 ∷ []) ∷ (3 ∷ 4 ∷ []) ∷ []) later came_later sender sent
      (omega arith, (omega arith, tt)) (omega arith) (omega arith) sends arrives

decrypt_all_dangling_example :
    (decrypt_all small_crypto receiver first >>= λ r. decrypt_all small_crypto r.0 sent)
    ≡ err dangling
decrypt_all_dangling_example =
    decrypt_all_dangling small_crypto receiver masking first sent refl (omega arith)

abbrev one_sent : List ℕ
one_sent = 10 ∷ 20 ∷ 30 ∷ 0 ∷ 1 ∷ []

sends_one : encrypt_all small_crypto (create settings drawn) drawn first ≡ ok (sender, one_sent)
unfolding create encrypt_all Cipher.create Cipher.update Cipher.random_iv
sends_one = refl

size :
    length (create {Pipe = ℕ} settings drawn).en_cipher_iv
    ≡ (create {Pipe = ℕ} settings drawn).ep.iv_len
unfolding create Cipher.random_iv
size = refl

same : (create {Pipe = ℕ} settings drawn).ep ≡ receiver.ep
unfolding create
same = refl

decrypt_all-encrypt_all_example :
    (b' : Encryptor ℕ) × (decrypt_all small_crypto receiver one_sent ≡ ok (b', first))
decrypt_all-encrypt_all_example =
    decrypt_all-encrypt_all small_crypto small_crypto_laws (create settings drawn) sender receiver
      drawn first one_sent deleted size same refl sends_one
