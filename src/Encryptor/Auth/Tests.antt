-- ===== src/Encryptor/Auth/Tests.antt =====
-- The authentication of lib/encryptor.cpp run with a small pipe and a code that starts with the
-- message.
use shadowsocks_qt.Prelude.{
  ℕ, ◌≡◌, refl, List, [], ◌∷◌, ◌++◌, flatten, length, true, false, ok, ◌=ˢ◌, arith,
}
use shadowsocks_qt.Tests.{small_qt, small_qt_laws, small_crypto, small_crypto_laws}
use shadowsocks_qt.Cipher.{hmac_sha1}
use shadowsocks_qt.Encryptor.{Encryptor, null, live}
use shadowsocks_qt.Encryptor.Tests.{settings, drawn, masking, sender}
use shadowsocks_qt.Encryptor.Auth.{
  add_header_auth, insert_header_auth, verify_header_auth, chunk_code, add_chunk_auth, next_id,
  verify_extract_chunk_auth,
}
use shadowsocks_qt.Encryptor.Auth.Headers.{verify_header_auth-add_header_auth}
use shadowsocks_qt.Encryptor.Auth.Chunks.{add_chunks, extract_segments, extract_segments-add_chunks}
use shadowsocks_qt.Encryptor.Auth.Tampered.{verify_extract_chunk_auth_tampered}

abbrev receiver : Encryptor ℕ
receiver = record {
  ep = settings;
  en_cipher_iv = drawn;
  incomplete_chunk = [];
  chunk_id = 0;
  en_cipher = null;
  de_cipher = live masking;
}

abbrev header : List ℕ
header = 1 ∷ 2 ∷ []

verify_header_auth-add_header_auth_example :
    (verify_header_auth small_crypto receiver
        (add_header_auth small_crypto sender header ++ 9 ∷ [])
        (length header)
      ≡ ok true)
    × (insert_header_auth small_crypto sender (header ++ 9 ∷ []) (length header)
        ≡ add_header_auth small_crypto sender header ++ 9 ∷ [])
verify_header_auth-add_header_auth_example =
    verify_header_auth-add_header_auth small_crypto small_crypto_laws sender receiver masking header
      (9 ∷ []) refl refl refl

abbrev chunks : List (List ℕ)
chunks = (1 ∷ 2 ∷ []) ∷ (3 ∷ []) ∷ []

-- The two chunks as they arrive, the first piece being cut within a code.
abbrev pieces : List (List ℕ)
pieces =
    (0 ∷ 2 ∷ 1 ∷ [])
    ∷ (2 ∷ 0 ∷ 0 ∷ 0 ∷ 0 ∷ 0 ∷ 0 ∷ 0 ∷ 0 ∷ 1 ∷ 2 ∷ 0 ∷ 1 ∷ 3 ∷ 0 ∷ 0 ∷ 0 ∷ 0 ∷ 0 ∷ 0 ∷ 0 ∷ 0 ∷ 0
        ∷ [])
    ∷ (3 ∷ [])
    ∷ []

pieces_sent : flatten pieces ≡ (add_chunks small_qt small_crypto sender chunks).1
unfolding add_chunks add_chunk_auth chunk_code hmac_sha1 flatten
pieces_sent = refl

extract_segments-add_chunks_example :
    extract_segments small_qt small_crypto receiver pieces
    ≡ ok (
      record receiver {
        chunk_id = (add_chunks small_qt small_crypto sender chunks).0.chunk_id;
        incomplete_chunk = [];
      },
      flatten chunks,
      true,
    )
extract_segments-add_chunks_example =
    extract_segments-add_chunks small_qt small_qt_laws small_crypto small_crypto_laws sender
      receiver masking chunks pieces refl refl refl refl (omega arith, (omega arith, tt))
      pieces_sent

abbrev wrong_code : List ℕ
wrong_code = 7 ∷ 7 ∷ 0 ∷ 0 ∷ 0 ∷ 0 ∷ 0 ∷ 0 ∷ 0 ∷ 0 ∷ []

is_wrong : (chunk_code small_qt small_crypto drawn 0 header =ˢ wrong_code) ≡ false
unfolding chunk_code hmac_sha1
is_wrong = refl

verify_extract_chunk_auth_tampered_example :
    verify_extract_chunk_auth small_qt small_crypto receiver
      (0 ∷ 2 ∷ wrong_code ++ (header ++ 5 ∷ []))
    ≡ ok (record receiver { chunk_id = next_id 0; incomplete_chunk = [] }, [], false)
verify_extract_chunk_auth_tampered_example =
    verify_extract_chunk_auth_tampered small_qt small_qt_laws small_crypto receiver masking
      wrong_code header (5 ∷ []) refl refl (omega arith) refl is_wrong
