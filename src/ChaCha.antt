-- ===== src/ChaCha.antt =====
-- lib/chacha.cpp and lib/chacha.h: the ChaCha20 key stream and the loop that applies it.
-- `m_state` is a record of its sixteen words; `m_buffer` is the list of its bytes.
pub mod Stream
pub mod Update
pub mod Create
pub mod Segments
pub mod Counter
pub mod Tests
use shadowsocks_qt.Prelude.{
  ℕ, zero, suc, ◌+◌, ◌-◌, ◌*◌, ◌%◌, ◌^◌, List, [], ◌∷◌, ◌++◌, bit_xor, Bool, true, false, Option,
  none, some, length, raw_byte, take, drop, replicate, ltb, leb, ◌==◌, if◌then◌else◌, Result, ok,
  err, ◌>>=◌, ◌>>◌, guard, bad_write, length_error, no_fuel, over_segments,
}
use shadowsocks_qt.Botan.{Botan}
use shadowsocks_qt.Common.Xor.{exclusive_or}

pub record Words : Type 0 where
  pub x00 : ℕ
  pub x01 : ℕ
  pub x02 : ℕ
  pub x03 : ℕ
  pub x04 : ℕ
  pub x05 : ℕ
  pub x06 : ℕ
  pub x07 : ℕ
  pub x08 : ℕ
  pub x09 : ℕ
  pub x10 : ℕ
  pub x11 : ℕ
  pub x12 : ℕ
  pub x13 : ℕ
  pub x14 : ℕ
  pub x15 : ℕ

pub record ChaCha : Type 0 where
  pub m_state : Words
  pub m_buffer : List ℕ
  pub m_position : ℕ

-- What `update` leaves: the cipher, the bytes of `output`, and what was written behind them, where
-- a `QByteArray` keeps the zero that ends it.
pub record Updated : Type 0 where
  pub cipher : ChaCha
  pub output : List ℕ
  pub spill : List ℕ

-- Addition of `quint32`.
infixl 65 ◌+ᵤ◌
abbrev pub ◌+ᵤ◌ : ℕ → ℕ → ℕ
a +ᵤ b = (a + b) % 2 ^ 32

-- `++m_state[12]; m_state[13] += (m_state[12] == 0)`.
unfoldable pub next_counter : Words → Words
next_counter s =
    let low = s.x12 +ᵤ 1 in record s { x12 = low; x13 = s.x13 +ᵤ (if low == 0 then 1 else 0) }

module _ (botan : Botan) where
  open botan use {load_le, store_le, rotate_left}

  -- The word at `ptr + 4 * i`, in the memory of a byte array.
  unfoldable pub load_word : List ℕ → ℕ → Result ℕ
  load_word bytes i = do
    a ← raw_byte bytes (4 * i)
    b ← raw_byte bytes (4 * i + 1)
    c ← raw_byte bytes (4 * i + 2)
    d ← raw_byte bytes (4 * i + 3)
    ok (load_le a b c d)

  unfoldable pub chacha_quarter_round : ℕ → ℕ → ℕ → ℕ → ℕ × ℕ × ℕ × ℕ
  chacha_quarter_round a b c d =
      let a1 = a +ᵤ b in
      let d1 = rotate_left (bit_xor d a1) 16 in
      let c1 = c +ᵤ d1 in
      let b1 = rotate_left (bit_xor b c1) 12 in
      let a2 = a1 +ᵤ b1 in
      let d2 = rotate_left (bit_xor d1 a2) 8 in
      let c2 = c1 +ᵤ d2 in let b2 = rotate_left (bit_xor b1 c2) 7 in (a2, b2, c2, d2)

  -- One round of the loop: four columns, then four diagonals.
  unfoldable pub double_round : Words → Words
  double_round w =
      let (a0, a4, a8, a12) = chacha_quarter_round w.x00 w.x04 w.x08 w.x12 in
      let (a1, a5, a9, a13) = chacha_quarter_round w.x01 w.x05 w.x09 w.x13 in
      let (a2, a6, a10, a14) = chacha_quarter_round w.x02 w.x06 w.x10 w.x14 in
      let (a3, a7, a11, a15) = chacha_quarter_round w.x03 w.x07 w.x11 w.x15 in
      let (b0, b5, b10, b15) = chacha_quarter_round a0 a5 a10 a15 in
      let (b1, b6, b11, b12) = chacha_quarter_round a1 a6 a11 a12 in
      let (b2, b7, b8, b13) = chacha_quarter_round a2 a7 a8 a13 in
      let (b3, b4, b9, b14) = chacha_quarter_round a3 a4 a9 a14 in
      record {
        x00 = b0;
        x01 = b1;
        x02 = b2;
        x03 = b3;
        x04 = b4;
        x05 = b5;
        x06 = b6;
        x07 = b7;
        x08 = b8;
        x09 = b9;
        x10 = b10;
        x11 = b11;
        x12 = b12;
        x13 = b13;
        x14 = b14;
        x15 = b15;
      }

  unfoldable pub double_rounds : ℕ → Words → Words
  double_rounds zero w = w
  double_rounds (suc n) w = double_rounds n (double_round w)

  -- The sixty-four bytes that `chacha` stores into the buffer.
  unfoldable pub key_block : Words → List ℕ
  key_block s =
      let w = double_rounds 10 s in
      store_le (w.x00 +ᵤ s.x00)
      ++ store_le (w.x01 +ᵤ s.x01)
      ++ store_le (w.x02 +ᵤ s.x02)
      ++ store_le (w.x03 +ᵤ s.x03)
      ++ store_le (w.x04 +ᵤ s.x04)
      ++ store_le (w.x05 +ᵤ s.x05)
      ++ store_le (w.x06 +ᵤ s.x06)
      ++ store_le (w.x07 +ᵤ s.x07)
      ++ store_le (w.x08 +ᵤ s.x08)
      ++ store_le (w.x09 +ᵤ s.x09)
      ++ store_le (w.x10 +ᵤ s.x10)
      ++ store_le (w.x11 +ᵤ s.x11)
      ++ store_le (w.x12 +ᵤ s.x12)
      ++ store_le (w.x13 +ᵤ s.x13)
      ++ store_le (w.x14 +ᵤ s.x14)
      ++ store_le (w.x15 +ᵤ s.x15)

  unfoldable pub chacha : ChaCha → ChaCha
  chacha c = record {
    m_state = next_counter c.m_state;
    m_buffer = key_block c.m_state;
    m_position = 0;
  }

  unfoldable pub set_iv : ChaCha → List ℕ → Result ChaCha
  set_iv c iv =
      if length iv == 8
      then (do
        w14 ← load_word iv 0
        w15 ← load_word iv 1
        ok (
            chacha
              (record c { m_state = record c.m_state { x12 = 0; x13 = 0; x14 = w14; x15 = w15 } })))
      else if length iv == 12
      then (do
        w13 ← load_word iv 0
        w14 ← load_word iv 1
        w15 ← load_word iv 2
        ok (
            chacha (record c {
              m_state = record c.m_state { x12 = 0; x13 = w13; x14 = w14; x15 = w15 };
            })))
      else err length_error

  -- The constructor. `resize` fills the vectors with zeros.
  unfoldable pub create : List ℕ → List ℕ → Result ChaCha
  create key iv = do
    k0 ← load_word key 0
    k1 ← load_word key 1
    k2 ← load_word key 2
    k3 ← load_word key 3
    k4 ← load_word key 4
    k5 ← load_word key 5
    k6 ← load_word key 6
    k7 ← load_word key 7
    set_iv
        (record {
          m_state = record {
            x00 = 0x61707865;
            x01 = 0x3320646e;
            x02 = 0x79622d32;
            x03 = 0x6b206574;
            x04 = k0;
            x05 = k1;
            x06 = k2;
            x07 = k3;
            x08 = k4;
            x09 = k5;
            x10 = k6;
            x11 = k7;
            x12 = 0;
            x13 = 0;
            x14 = 0;
            x15 = 0;
          };
          m_buffer = replicate 64 0;
          m_position = 0;
        })
        iv

  -- The loop of `update` with the call after it. `inp` is the memory from the pointer `in` on,
  -- `out` what has been written, `left` the variable `length`. Each round takes at least one byte.
  unfoldable pub update_loop : ℕ → ChaCha → List ℕ → List ℕ → ℕ → Result (ChaCha × List ℕ)
  update_loop zero c inp out left = err no_fuel
  update_loop (suc fuel) c inp out left =
      let delta = length c.m_buffer - c.m_position in
      if leb delta left
      then (exclusive_or (drop c.m_position c.m_buffer) inp delta >>= λ bytes.
          update_loop fuel (chacha c) (drop delta inp) (out ++ bytes) (left - delta))
      else (exclusive_or (drop c.m_position c.m_buffer) inp left >>= λ bytes.
          ok (record c { m_position = c.m_position + left }, out ++ bytes))

  -- Only `output` and the zero behind it may be written.
  unfoldable pub update : ChaCha → List ℕ → Result Updated
  unfolding update_loop
  update c input =
      let n = length input in
      update_loop (suc n) c (input ++ 0 ∷ []) [] n >>= λ r.
      guard (leb (length r.1) (n + 1)) bad_write
      >> ok (record { cipher = r.0; output = take n r.1; spill = drop n r.1 })

  -- A stream that arrives in segments, as a socket delivers it.
  abbrev pub update_step : ChaCha → List ℕ → Result (ChaCha × List ℕ)
  update_step c input = update c input >>= λ u. ok (u.cipher, u.output)

  abbrev pub update_all : ChaCha → List (List ℕ) → Result (ChaCha × List ℕ)
  update_all = over_segments update_step
