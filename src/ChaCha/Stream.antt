-- ===== src/ChaCha/Stream.antt =====
-- What `ChaCha::update` computes, against a description byte by byte.
use shadowsocks_qt.Prelude.{
  ℕ, zero, suc, ◌+◌, ◌≤◌, ◌<◌, ◌≡◌, refl, ap, ◌∙◌, List, [], ◌∷◌, ◌++◌, bit_xor, length, get_or,
  drop, drop-get_or, length-append, ◌==◌, if◌then◌else◌, ok, Bool-cases, inl, inr, arith, ==_iff,
  if_false, xor_twice,
}
use native.Mathlib.Nat.{zero-add, suc-add}
use native.Mathlib.Numerals.{add-one}
use shadowsocks_qt.Botan.{Botan}
use shadowsocks_qt.Common.Xor.{exclusive_or}
use shadowsocks_qt.ChaCha.{Words, ChaCha, key_block, chacha}

-- The buffer is one block, and part of it is left.
pub record IsReady (c : ChaCha) : Type 0 where
  pub full : length c.m_buffer ≡ 64
  pub within : c.m_position < 64

-- The byte of key stream that comes next.
abbrev pub key_byte : ChaCha → ℕ
key_byte c = get_or c.m_buffer c.m_position 0

module _ (botan : Botan) where
  -- The cipher after one more byte.
  unfoldable pub advance : ChaCha → ChaCha
  advance c =
      if c.m_position + 1 == 64 then chacha botan c else record c { m_position = c.m_position + 1 }

  unfoldable pub advances : ℕ → ChaCha → ChaCha
  advances zero c = c
  advances (suc n) c = advances n (advance c)

  -- Each byte masked with its byte of key stream.
  unfoldable pub masked : ChaCha → List ℕ → List ℕ
  masked c [] = []
  masked c (x ∷ xs) = bit_xor x (key_byte c) ∷ masked (advance c) xs

  pub key_block-length : (w : Words) → length (key_block botan w) ≡ 64
  unfolding key_block
  key_block-length w = simp (length-append, botan.store_le_length)

  pub chacha-IsReady : (c : ChaCha) → IsReady (chacha botan c)
  unfolding chacha
  chacha-IsReady c = record { full = key_block-length c.m_state; within = omega arith }

  pub advance-IsReady : (c : ChaCha) → IsReady c → IsReady (advance c)
  unfolding advance
  advance-IsReady c r = elim (Bool-cases (c.m_position + 1 == 64)) [
    | inl e ↦ rw e (chacha-IsReady c)
    | inr e ↦ rw e (record { full = r.full; within = ground (arith, r.within) })
  ]

  pub advances-IsReady : (n : ℕ) (c : ChaCha) → IsReady c → IsReady (advances n c)
  unfolding advances
  advances-IsReady zero c r = r
  advances-IsReady (suc n) c r = advances-IsReady n (advance c) (advance-IsReady c r)

  pub advances-add : (n m : ℕ) (c : ChaCha) → advances (n + m) c ≡ advances m (advances n c)
  unfolding advances
  advances-add zero m c = rw zero-add refl
  advances-add (suc n) m c = rw suc-add (advances-add n m (advance c))

  pub length-masked : (c : ChaCha) (xs : List ℕ) → length (masked c xs) ≡ length xs
  unfolding masked
  length-masked c [] = refl
  length-masked c (x ∷ xs) = ap suc (length-masked (advance c) xs)

  pub masked-append :
      (c : ChaCha) (xs ys : List ℕ)
      → masked c (xs ++ ys) ≡ masked c xs ++ masked (advances (length xs) c) ys
  unfolding masked advances
  masked-append c [] ys = refl
  masked-append c (x ∷ xs) ys = ap (◌∷◌ (bit_xor x (key_byte c))) (masked-append (advance c) xs ys)

  pub masked-masked : (c : ChaCha) (xs : List ℕ) → masked c (masked c xs) ≡ xs
  unfolding masked
  masked-masked c [] = refl
  masked-masked c (x ∷ xs) = rw (xor_twice x (key_byte c), masked-masked (advance c) xs) refl

  advance_within :
      (c : ChaCha) → c.m_position + 1 < 64 → advance c ≡ record c { m_position = suc c.m_position }
  unfolding advance
  advance_within c h = rw add-one (if_false {b = suc c.m_position == 64} (ground arith) _ _)

  advance_at_end : (c : ChaCha) → c.m_position + 1 ≡ 64 → advance c ≡ chacha botan c
  unfolding advance
  advance_at_end c h = rw ((==_iff (c.m_position + 1) 64).1 h) refl

  -- A run within the block: the position moves, and reaching the end makes the next block.
  pub advances_within :
      (n : ℕ) (c : ChaCha)
      → c.m_position + n < 64
      → advances n c ≡ record c { m_position = c.m_position + n }
  unfolding advances
  advances_within zero c h = ap (λ (p : ℕ). record c { m_position = p }) (omega arith)
  advances_within (suc n) c h =
      let c' = record c { m_position = suc c.m_position } in
      rw (advance_within c (omega arith)) (
        advances_within n c' (omega arith)
        ∙ ap (λ (p : ℕ). record c { m_position = p }) (omega arith))

  pub advances_to_end :
      (n : ℕ) (c : ChaCha) → c.m_position + suc n ≡ 64 → advances (suc n) c ≡ chacha botan c
  unfolding advances chacha
  advances_to_end zero c h = advance_at_end c (omega arith)
  advances_to_end (suc n) c h =
      let c' = record c { m_position = suc c.m_position } in
      rw (advance_within c (omega arith)) (advances_to_end n c' (omega arith))

  -- `exclusive_or` masks at least one byte.
  pub exclusive_or-masked :
      (c : ChaCha) (x : ℕ) (xs rest : List ℕ)
      → length c.m_buffer ≡ 64
      → c.m_position + suc (length xs) ≤ 64
      → exclusive_or (drop c.m_position c.m_buffer) (x ∷ xs ++ rest) (suc (length xs))
        ≡ ok (masked c (x ∷ xs))
  unfolding exclusive_or masked
  exclusive_or-masked c x [] rest full fits =
      rw (drop-get_or c.m_position c.m_buffer 0 (omega arith)) refl
  exclusive_or-masked c x (y ∷ ys) rest full fits =
      let c' = record c { m_position = suc c.m_position } in
      rw
        (
          drop-get_or c.m_position c.m_buffer 0 (omega arith),
          advance_within c (omega arith),
          exclusive_or-masked c' y ys rest full (omega arith),
        )
        refl
