-- ===== src/ChaCha/Update.antt =====
-- `ChaCha::update` is the masking byte by byte, whatever the lengths and the position.
use shadowsocks_qt.Prelude.{
  ℕ, zero, suc, ◌+◌, ◌-◌, ◌≤◌, ◌<◌, ◌≡◌, refl, sym, ap, subst, ◌∙◌, List, [], ◌∷◌, ◌++◌, append-nil,
  append_assoc, bit_xor, true, false, ◌||◌, length, take, drop, length-append, take-append-drop,
  drop-get_or, take-append_length, drop-append_length, length-take, length-drop, leb, ◌==◌,
  if◌then◌else◌, Result, ok, arith,
}
use native.Mathlib.Decide.{dec_lt}
use shadowsocks_qt.Botan.{Botan}
use shadowsocks_qt.Common.Xor.{exclusive_or}
use shadowsocks_qt.ChaCha.{ChaCha, chacha, update_loop, update}
use shadowsocks_qt.ChaCha.Stream.{
  IsReady, key_byte, advances, masked, length-masked, masked-append, advances-IsReady, advances-add,
  advances_within, advances_to_end, exclusive_or-masked,
}

-- What lies behind the output after a call on `n` bytes that left the cipher `c`: the loop ends in
-- a call of `exclusive_or` on no bytes when the input is empty or ends with a block.
unfoldable pub spilt : ℕ → ChaCha → List ℕ
spilt n c = if n == 0 || c.m_position == 0 then bit_xor 0 (key_byte c) ∷ [] else []

module _ (botan : Botan) where
  -- One pass of the loop, by the size `d` of what is left of the block.
  loop_full :
      (fuel : ℕ) (c : ChaCha) (inp out bytes : List ℕ) (left d : ℕ)
      → length c.m_buffer - c.m_position ≡ d
      → leb d left ≡ true
      → exclusive_or (drop c.m_position c.m_buffer) inp d ≡ ok bytes
      → update_loop botan (suc fuel) c inp out left
        ≡ update_loop botan fuel (chacha botan c) (drop d inp) (out ++ bytes) (left - d)
  unfolding update_loop
  loop_full fuel c inp out bytes left d size enough xors = rw (update_loop, size, enough, xors) refl

  loop_last :
      (fuel : ℕ) (c : ChaCha) (inp out bytes : List ℕ) (left d : ℕ)
      → length c.m_buffer - c.m_position ≡ d
      → leb d left ≡ false
      → exclusive_or (drop c.m_position c.m_buffer) inp left ≡ ok bytes
      → update_loop botan (suc fuel) c inp out left
        ≡ ok (record c { m_position = c.m_position + left }, out ++ bytes)
  unfolding update_loop
  loop_last fuel c inp out bytes left d size enough xors = rw (update_loop, size, enough, xors) refl

  same_call :
      (fuel : ℕ) {c d : ChaCha} {inp inp' : List ℕ} (out : List ℕ) {left left' : ℕ}
      → c ≡ d
      → inp ≡ inp'
      → left ≡ left'
      → update_loop botan fuel c inp out left ≡ update_loop botan fuel d inp' out left'
  same_call fuel out p q r = cc

  drop_rest : (xs ys : List ℕ) → drop (length xs) ((xs ++ ys) ++ 0 ∷ []) ≡ ys ++ 0 ∷ []
  drop_rest xs ys = rw append_assoc (drop-append_length xs (ys ++ 0 ∷ []))

  round_full :
      (fuel : ℕ) (c : ChaCha) (xs ys out : List ℕ)
      → IsReady c
      → c.m_position + length xs ≡ 64
      → update_loop botan (suc fuel) c ((xs ++ ys) ++ 0 ∷ []) out (length (xs ++ ys))
        ≡ update_loop botan fuel
            (advances botan (length xs) c)
            (ys ++ 0 ∷ [])
            (out ++ masked botan c xs)
            (length ys)
  round_full fuel c [] ys out r e = absurd (omega (arith, r.within))
  round_full fuel c (x ∷ xs) ys out r e =
      loop_full fuel c _ out (masked botan c (x ∷ xs)) (length (x ∷ xs ++ ys)) (length (x ∷ xs))
        (omega (arith, r.full)) (ground (arith, length-append xs ys))
        (rw append_assoc (exclusive_or-masked botan c x xs (ys ++ 0 ∷ []) r.full (omega arith)))
      ∙ same_call fuel _ (sym (advances_to_end botan (length xs) c e)) (drop_rest xs ys)
          (omega (arith, length-append xs ys))

  spilt-length : (n : ℕ) (c : ChaCha) → length (spilt n c) ≤ 1
  unfolding spilt
  spilt-length n c = ground arith

  spilt_none : (n : ℕ) (c : ChaCha) → 0 < n → 0 < c.m_position → spilt n c ≡ []
  unfolding spilt
  spilt_none n c h k = ground arith

  -- `spilt` depends only on what is after the last full block.
  spilt_after :
      (n m : ℕ) (c : ChaCha) → 0 < n → (m ≡ 0 → c.m_position ≡ 0) → spilt m c ≡ spilt (n + m) c
  unfolding spilt
  spilt_after n m c pos zeroed = ground (arith, zeroed)

  abbrev After : ChaCha → List ℕ → List ℕ → Result (ChaCha × List ℕ)
  After c xs out =
      let c' = advances botan (length xs) c in
      ok (c', out ++ (masked botan c xs ++ spilt (length xs) c'))

  round_last_nil :
      (fuel : ℕ) (c : ChaCha) (out : List ℕ)
      → IsReady c
      → update_loop botan (suc fuel) c (0 ∷ []) out 0 ≡ After c [] out
  unfolding exclusive_or advances masked spilt
  round_last_nil fuel c out r =
      loop_last fuel c (0 ∷ []) out (spilt 0 c) 0 (64 - c.m_position) (omega (arith, r.full))
        (ground (arith, r.within))
        (rw (drop-get_or c.m_position c.m_buffer 0 (omega (arith, r.within, r.full))) refl)
      ∙ ap (λ (p : ℕ). ok (record c { m_position = p }, out ++ spilt 0 c)) (omega arith)

  round_last :
      (fuel : ℕ) (c : ChaCha) (xs out : List ℕ)
      → IsReady c
      → c.m_position + length xs < 64
      → update_loop botan (suc fuel) c (xs ++ 0 ∷ []) out (length xs) ≡ After c xs out
  round_last fuel c [] out r h = round_last_nil fuel c out r
  round_last fuel c (x ∷ xs) out r h =
      let n = length (x ∷ xs) in
      let c' = record c { m_position = c.m_position + n } in
      loop_last fuel c (x ∷ xs ++ 0 ∷ []) out (masked botan c (x ∷ xs)) n (64 - c.m_position)
        (omega (arith, r.full)) (ground arith)
        (exclusive_or-masked botan c x xs (0 ∷ []) r.full (omega arith))
      ∙ rw
          (
            advances_within botan (length (x ∷ xs)) c h,
            spilt_none n c' (omega arith) (omega arith),
            append-nil,
          )
          refl

  zero_after :
      (c : ChaCha) (xs ys : List ℕ)
      → c.m_position + length xs ≡ 64
      → 0 < length xs
      → length ys ≡ 0
      → (advances botan (length ys) (advances botan (length xs) c)).m_position ≡ 0
  unfolding advances chacha
  zero_after c [] ys e pos none = absurd (omega arith)
  zero_after c (x ∷ xs) (y ∷ ys) e pos none = absurd (omega arith)
  zero_after c (x ∷ xs) [] e pos none =
      ap (λ (d : ChaCha). d.m_position) (advances_to_end botan (length xs) c e)

  After_full :
      (c : ChaCha) (xs ys out : List ℕ)
      → c.m_position + length xs ≡ 64
      → 0 < length xs
      → After (advances botan (length xs) c) ys (out ++ masked botan c xs) ≡ After c (xs ++ ys) out
  After_full c xs ys out e pos =
      let c2 = advances botan (length ys) (advances botan (length xs) c) in
      rw
        (
          length-append xs ys,
          advances-add botan (length xs) (length ys) c,
          masked-append botan c xs ys,
          ← spilt_after (length xs) (length ys) c2 pos (zero_after c xs ys e pos),
        )
        (ap (λ zs. ok (c2, zs)) (simp append_assoc))

  -- The loop from any position, on any fuel above the number of bytes.
  update_loop-masked :
      (fuel : ℕ) (c : ChaCha) (xs out : List ℕ)
      → IsReady c
      → length xs < fuel
      → update_loop botan fuel c (xs ++ 0 ∷ []) out (length xs) ≡ After c xs out
  update_loop-masked zero c xs out r h = absurd (omega arith)
  update_loop-masked (suc fuel) c xs out r h = elim (dec_lt (c.m_position + length xs) 64) [
    | yes short ↦ round_last fuel c xs out r short
    | no long ↦
        let d = 64 - c.m_position in
        let size : length (take d xs) ≡ d = omega (arith, length-take d xs, r.within) in
        subst (λ zs. update_loop botan (suc fuel) c (zs ++ 0 ∷ []) out (length zs) ≡ After c zs out)
          (take-append-drop d xs)
          (round_full fuel c (take d xs) (drop d xs) out r (omega (arith, r.within))
            ∙ update_loop-masked fuel (advances botan (length (take d xs)) c) (drop d xs)
                (out ++ masked botan c (take d xs))
                (advances-IsReady botan (length (take d xs)) c r)
                (omega (arith, length-drop d xs, r.within))
            ∙ After_full c (take d xs) (drop d xs) out (omega (arith, r.within))
                (omega (arith, r.within)))
  ]

  -- On a cipher whose buffer is filled, `update` ends without an access outside a buffer, and its
  -- result is the input masked byte by byte; the cipher moves on by as many bytes, and the byte
  -- behind the output is written exactly when the last call of `exclusive_or` has no bytes to do.
  pub update-masked :
      (c : ChaCha) (xs : List ℕ)
      → IsReady c
      → let c' = advances botan (length xs) c in
        update botan c xs
        ≡ ok (record { cipher = c'; output = masked botan c xs; spill = spilt (length xs) c' })
  unfolding update
  update-masked c xs r =
      let c' = advances botan (length xs) c in
      let out = masked botan c xs in
      let extra = spilt (length xs) c' in
      rw
        (
          update_loop-masked (suc (length xs)) c xs [] r (omega arith),
          room (length xs) out extra (length-masked botan c xs) (spilt-length (length xs) c'),
          ← length-masked botan c xs,
        )
        (simp (take-append_length, drop-append_length))
    where
      room :
          (n : ℕ) (ys zs : List ℕ)
          → length ys ≡ n
          → length zs ≤ 1
          → leb (length (ys ++ zs)) (n + 1) ≡ true
      room n ys zs e f = ground (arith, length-append ys zs)
