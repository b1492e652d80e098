-- ===== src/ChaCha/Counter.antt =====
-- The block counter of `ChaCha::chacha`: the words 12 and 13 as one number of 64 bits.
use shadowsocks_qt.Prelude.{ℕ, zero, suc, ◌+◌, ◌*◌, ◌/◌, ◌%◌, ◌^◌, ◌<◌, ◌≡◌, ap, ◌∙◌, arith}
use shadowsocks_qt.Botan.{Botan}
use shadowsocks_qt.ChaCha.{Words, ChaCha, key_block, next_counter, chacha}

abbrev pub counter : Words → ℕ
counter s = s.x12 + 2 ^ 32 * s.x13

-- The state with another counter.
abbrev pub at_counter : Words → ℕ → Words
at_counter s k = record s { x12 = k % 2 ^ 32; x13 = k / 2 ^ 32 % 2 ^ 32 }

next_counter-at_counter : (s : Words) (k : ℕ) → next_counter (at_counter s k) ≡ at_counter s (k + 1)
unfolding next_counter
next_counter-at_counter s k = λ i. record s { x12 = low i; x13 = high i }
  where
    low : (k % 2 ^ 32 + 1) % 2 ^ 32 ≡ (k + 1) % 2 ^ 32
    low = omega arith

    high : (next_counter (at_counter s k)).x13 ≡ (k + 1) / 2 ^ 32 % 2 ^ 32
    high = ground arith

module _ (botan : Botan) where
  -- The cipher after `n` more blocks.
  unfoldable pub chachas : ℕ → ChaCha → ChaCha
  chachas zero c = c
  chachas (suc n) c = chachas n (chacha botan c)

  chachas-at_counter :
      (n k : ℕ) (c : ChaCha) (s : Words)
      → c.m_state ≡ at_counter s k
      → (chachas n c).m_state ≡ at_counter s (k + n)
  unfolding chachas chacha
  chachas-at_counter zero k c s e = e ∙ ap (at_counter s) (omega arith)
  chachas-at_counter (suc n) k c s e =
      chachas-at_counter n (k + 1) (chacha botan c) s
        (ap next_counter e ∙ next_counter-at_counter s k)
      ∙ ap (at_counter s) (omega arith)

  -- From words 12 and 13 below 2 ^ 32, after `n` blocks the counter has gone up by `n`, modulo 2
  -- ^ 64 and with the carry into word 13, every other word of the state is unchanged, and the
  -- block after those is made from that state.
  pub chachas-counter :
      (n : ℕ) (c : ChaCha)
      → c.m_state.x12 < 2 ^ 32
      → c.m_state.x13 < 2 ^ 32
      → ((chachas n c).m_state ≡ at_counter c.m_state (counter c.m_state + n))
        × ((chacha botan (chachas n c)).m_buffer
            ≡ key_block botan (at_counter c.m_state (counter c.m_state + n)))
  unfolding chacha
  chachas-counter n c low high = (state, ap (key_block botan) state)
    where
      start : c.m_state ≡ at_counter c.m_state (counter c.m_state)
      start = λ i. record c.m_state { x12 = p i; x13 = q i }
        where
          p : c.m_state.x12 ≡ counter c.m_state % 2 ^ 32
          p = omega arith

          q : c.m_state.x13 ≡ counter c.m_state / 2 ^ 32 % 2 ^ 32
          q = omega arith

      state : (chachas n c).m_state ≡ at_counter c.m_state (counter c.m_state + n)
      state = chachas-at_counter n (counter c.m_state) c c.m_state start
