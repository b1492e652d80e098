-- ===== src/ChaCha/Tests.antt =====
-- Runs of the cipher with the loads, stores and rotations that Botan documents.
use shadowsocks_qt.Prelude.{
  ℕ, ◌+◌, ◌≡◌, refl, inl, inr, List, [], ◌∷◌, replicate, length, flatten, over_segments, ok, ◌>>=◌,
  arith,
}
use shadowsocks_qt.Tests.{concrete_botan}
use shadowsocks_qt.Common.Xor.{exclusive_or}
use shadowsocks_qt.ChaCha.{
  Words, ChaCha, create, update, update_all, load_word, chacha_quarter_round, double_round,
  double_rounds, key_block, next_counter, chacha, set_iv,
}
use shadowsocks_qt.ChaCha.Stream.{IsReady, advances, masked}
use shadowsocks_qt.ChaCha.Update.{spilt, update-masked}
use shadowsocks_qt.ChaCha.Segments.{update_all_twice}
use shadowsocks_qt.ChaCha.Create.{IsIvLength}
use shadowsocks_qt.ChaCha.Counter.{counter, at_counter, chachas, chachas-counter}

-- The first test vector of RFC 7539, appendix A.1: a zero key, a zero IV, block 0.
zero_stream :
    (create concrete_botan (replicate 32 0) (replicate 8 0) >>= λ c.
    update concrete_botan c (replicate 4 0) >>= λ u. ok u.output)
    ≡ ok (0x76 ∷ 0xb8 ∷ 0xe0 ∷ 0xad ∷ [])
unfolding create update load_word chacha_quarter_round double_round double_rounds key_block
    next_counter chacha set_iv exclusive_or
zero_stream = refl

abbrev some_segments : List (List ℕ)
some_segments = (1 ∷ []) ∷ (2 ∷ 3 ∷ []) ∷ []

abbrev masked_segments : List (List ℕ)
masked_segments = (171 ∷ 168 ∷ []) ∷ (169 ∷ []) ∷ []

abbrev long_iv : List ℕ
long_iv = replicate 16 2

abbrev some_words : Words
some_words = record {
  x00 = 1;
  x01 = 2;
  x02 = 3;
  x03 = 4;
  x04 = 5;
  x05 = 6;
  x06 = 7;
  x07 = 8;
  x08 = 9;
  x09 = 10;
  x10 = 11;
  x11 = 12;
  x12 = 4294967295;
  x13 = 3;
  x14 = 15;
  x15 = 16;
}

-- One byte of the block is left.
abbrev some_chacha : ChaCha
some_chacha = record { m_state = some_words; m_buffer = replicate 64 170; m_position = 63 }

some_chacha-IsReady : IsReady some_chacha
some_chacha-IsReady = record { full = refl; within = omega arith }

update-masked_example :
    update concrete_botan some_chacha (1 ∷ [])
    ≡ ok (record {
      cipher = advances concrete_botan 1 some_chacha;
      output = masked concrete_botan some_chacha (1 ∷ []);
      spill = spilt 1 (advances concrete_botan 1 some_chacha);
    })
update-masked_example = update-masked concrete_botan some_chacha (1 ∷ []) some_chacha-IsReady

abbrev after_three : ChaCha
after_three = record { m_state = some_words; m_buffer = replicate 64 170; m_position = 3 }

abbrev at_start : ChaCha
at_start = record { m_state = some_words; m_buffer = replicate 64 170; m_position = 0 }

at_start-IsReady : IsReady at_start
at_start-IsReady = record { full = refl; within = omega arith }

three_bytes :
    update_all concrete_botan at_start some_segments ≡ ok (after_three, 171 ∷ 168 ∷ 169 ∷ [])
unfolding update exclusive_or over_segments
three_bytes = refl

three_recut : flatten masked_segments ≡ 171 ∷ 168 ∷ 169 ∷ []
unfolding flatten
three_recut = refl

update_all_twice_example :
    update_all concrete_botan at_start masked_segments ≡ ok (after_three, flatten some_segments)
update_all_twice_example =
    update_all_twice concrete_botan at_start some_segments masked_segments after_three
      (171 ∷ 168 ∷ 169 ∷ []) at_start-IsReady three_bytes three_recut

not_sixteen : ¬ IsIvLength (length long_iv)
not_sixteen (inl e) = absurd (omega (arith, e))
not_sixteen (inr e) = absurd (omega (arith, e))

chachas-counter_example :
    ((chachas concrete_botan 1 some_chacha).m_state
      ≡ at_counter some_words (counter some_words + 1))
    × ((chacha concrete_botan (chachas concrete_botan 1 some_chacha)).m_buffer
        ≡ key_block concrete_botan (at_counter some_words (counter some_words + 1)))
chachas-counter_example = chachas-counter concrete_botan 1 some_chacha (omega arith) (omega arith)
