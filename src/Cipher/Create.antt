-- ===== src/Cipher/Create.antt =====
-- `Cipher::randomIv` and the constructor of lib/cipher.cpp.
use shadowsocks_qt.Prelude.{
  ℕ, zero, suc, ◌≤◌, ◌≡◌, refl, List, Bool, true, length, length-take, Returns, Returns-bind, Any,
  arith,
}
use shadowsocks_qt.Crypto.{Crypto}
use shadowsocks_qt.ChaCha
use shadowsocks_qt.ChaCha.Stream.{IsReady}
use shadowsocks_qt.ChaCha.Create.{IsIvLength, create-IsReady}
use shadowsocks_qt.Cipher.{random_iv, is_chacha, create}

pub random_iv-length : (n : ℕ) (drawn : List ℕ) → n ≤ length drawn → length (random_iv n drawn) ≡ n
unfolding random_iv
random_iv-length zero drawn h = refl
random_iv-length (suc n) drawn h = ground (arith, length-take (suc n) drawn)

-- The program's own cipher is made of a key and an IV that are long enough.
pub create_chacha :
    {Pipe : Type 0} (crypto : Crypto Pipe) (method key iv : List ℕ) (encode : Bool)
    → is_chacha method ≡ true
    → 32 ≤ length key
    → IsIvLength (length iv)
    → Returns Any (create crypto method key iv encode)
unfolding create
create_chacha crypto method key iv encode own long fits = rw own (
    Returns-bind IsReady Any (ChaCha.create crypto.botan key iv) _
      (create-IsReady crypto.botan key iv long fits) (λ c r. tt))
