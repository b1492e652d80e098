-- ===== src/Common/Xor.antt =====
-- `Common::exclusive_or` of lib/common.cpp.
use shadowsocks_qt.Prelude.{ℕ, zero, suc, List, [], ◌∷◌, bit_xor, Result, ok, err, ◌>>=◌, bad_read}

-- `ks` and `inp` are the memory from the two pointers on, and the result is what is written from
-- `out` on. The loop tests after its body: the body runs once at a length of zero too.
unfoldable pub exclusive_or : List ℕ → List ℕ → ℕ → Result (List ℕ)
exclusive_or (k ∷ ks) (x ∷ xs) zero = ok (bit_xor x k ∷ [])
exclusive_or (k ∷ ks) (x ∷ xs) (suc zero) = ok (bit_xor x k ∷ [])
exclusive_or (k ∷ ks) (x ∷ xs) (suc (suc n)) = do
  rest ← exclusive_or ks xs (suc n)
  ok (bit_xor x k ∷ rest)
exclusive_or [] xs n = err bad_read
exclusive_or (k ∷ ks) [] n = err bad_read
