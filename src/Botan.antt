-- ===== src/Botan.antt =====
-- What lib/chacha.cpp takes from Botan (botan/loadstor.h and botan/rotate.h): loads and stores of
-- little-endian 32-bit words, and the rotation of a word. They are not part of the repository, so
-- they are parameters, with the facts that Botan documents of them.
use shadowsocks_qt.Prelude.{ℕ, ◌≡◌, List, length}

pub record Botan : Type 0 where
  -- `load_le<quint32>`, on the four bytes that it reads.
  pub load_le : ℕ → ℕ → ℕ → ℕ → ℕ
  -- `store_le` of a 32-bit word, as the bytes that it writes.
  pub store_le : ℕ → List ℕ
  pub rotate_left : ℕ → ℕ → ℕ
  pub store_le_length : (w : ℕ) → length (store_le w) ≡ 4
