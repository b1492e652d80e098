-- ===== src/Cipher.antt =====
-- lib/cipher.cpp and lib/cipher.h, as they are built with Botan 1.10 (CMakeLists.txt): ChaCha is the
-- repository's own, every other method is a Botan pipe.
pub mod Create
pub mod Stream
use Prim.Native.Char.{code}
use Prim.Native.String.{String}
use shadowsocks_qt.Prelude.{
  ℕ, List, [], ◌∷◌, ◌++◌, Bool, true, false, ◌&&◌, ◌||◌, ◌==◌, if◌then◌else◌, Option, none, some,
  take, Result, ok, err, ◌>>=◌, or_fail, over_segments, runtime_error, fatal,
}
use shadowsocks_qt.ChaCha
use shadowsocks_qt.ChaCha.{ChaCha}
use shadowsocks_qt.Crypto.{Crypto}

-- The bytes of an ASCII literal.
abbrev pub codes : String → List ℕ
codes String.[] = []
codes (String.◌∷◌ c s) = code c ∷ codes s

abbrev pub starts_with : List ℕ → List ℕ → Bool
starts_with [] text = true
starts_with (x ∷ xs) [] = false
starts_with (x ∷ xs) (y ∷ ys) = x == y && starts_with xs ys

-- `QByteArray::contains`.
abbrev pub contains : List ℕ → List ℕ → Bool
contains [] part = starts_with part []
contains (x ∷ xs) part = starts_with part (x ∷ xs) || contains xs part

abbrev pub is_chacha : List ℕ → Bool
is_chacha method = contains method (codes "ChaCha")

abbrev pub auth_len : ℕ
auth_len = 10

-- The two pointers, of which a null one is `none`, and the IV.
pub record Cipher (Pipe : Type 0) : Type 0 where
  pub pipe : Option Pipe
  pub chacha : Option ChaCha
  pub iv : List ℕ

-- `randomIv`, of the bytes that the generator draws.
unfoldable pub random_iv : ℕ → List ℕ → List ℕ
random_iv n drawn = if n == 0 then [] else take n drawn

module _ {Pipe : Type 0} (crypto : Crypto Pipe) where
  open crypto use {botan, get_cipher, accepts, process_msg}

  -- The constructor. An exception of Botan ends in `qFatal`.
  unfoldable pub create : List ℕ → List ℕ → List ℕ → Bool → Result (Cipher Pipe)
  create method key iv encode =
      if is_chacha method
      then (ChaCha.create botan key iv >>= λ c.
          ok (record { pipe = none; chacha = some c; iv = iv }))
      else (or_fail (get_cipher method key iv encode) fatal >>= λ p.
          ok (record { pipe = some p; chacha = none; iv = iv }))

  abbrev pub update_with :
      Cipher Pipe → Option ChaCha → Option Pipe → List ℕ → Result (Cipher Pipe × List ℕ)
  update_with c (some k) p input =
      ChaCha.update botan k input >>= λ u. ok (record c { chacha = some u.cipher }, u.output)
  update_with c none (some p) input =
      let (out, p') = process_msg p input in ok (record c { pipe = some p' }, out)
  update_with c none none input = err runtime_error

  unfoldable pub update : Cipher Pipe → List ℕ → Result (Cipher Pipe × List ℕ)
  update c input = update_with c c.chacha c.pipe input

  -- A stream that is given in segments.
  abbrev pub update_all : Cipher Pipe → List (List ℕ) → Result (Cipher Pipe × List ℕ)
  update_all = over_segments update

  unfoldable pub hmac_sha1 : List ℕ → List ℕ → List ℕ
  hmac_sha1 key msg = take auth_len (crypto.hmac msg key)

  unfoldable pub md5_hash : List ℕ → List ℕ
  md5_hash input = crypto.md5 input

  unfoldable pub is_supported : List ℕ → Bool
  is_supported method = if is_chacha method then true else accepts method
