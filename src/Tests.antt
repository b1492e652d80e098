-- ===== src/Tests.antt =====
-- Concrete instances of what the program takes from Qt and from Botan, small enough to run: the
-- byte orders and the little-endian words as they are documented, hosts that are numbers or byte
-- strings, and a pipe that masks with the first byte of the key.
use shadowsocks_qt.Prelude.{
  ℕ, zero, suc, ◌+◌, ◌-◌, ◌*◌, ◌/◌, ◌%◌, ◌^◌, ◌<◌, ◌≡◌, refl, ap, List, [], ◌∷◌, ◌++◌, map, bit_xor,
  xor_twice, Bool, true, false, ltb, ltb→lt, length, length-take, length-append, take, replicate,
  some, arith, ◌=ˢ◌,
}
use native.Mathlib.Nat.{mod-eq_of_lt}
use shadowsocks_qt.Botan.{Botan}
use shadowsocks_qt.Qt.{Qt, QtLaws}
use shadowsocks_qt.Crypto.{Crypto, CryptoLaws}

abbrev pub concrete_botan : Botan
concrete_botan = record {
  load_le = λ a b c d. a + 256 * b + 65536 * c + 16777216 * d;
  store_le = λ w. w % 256 ∷ w / 256 % 256 ∷ w / 65536 % 256 ∷ w / 16777216 % 256 ∷ [];
  rotate_left = λ w k. (w * 2 ^ k) % 2 ^ 32 + w / 2 ^ (32 - k);
  store_le_length = λ w. refl;
}

pub data SmallHost : Type 0 where
  no_host : SmallHost
  v4 : ℕ → SmallHost
  v6 : List ℕ → SmallHost

abbrev small_is_null : SmallHost → Bool
small_is_null no_host = true
small_is_null (v4 n) = false
small_is_null (v6 bytes) = false

abbrev small_is_ipv4 : SmallHost → Bool
small_is_ipv4 no_host = false
small_is_ipv4 (v4 n) = ltb n (2 ^ 32)
small_is_ipv4 (v6 bytes) = false

abbrev small_to_ipv4 : SmallHost → ℕ
small_to_ipv4 no_host = 0
small_to_ipv4 (v4 n) = n % 2 ^ 32
small_to_ipv4 (v6 bytes) = 0

abbrev small_to_ipv6 : SmallHost → List ℕ
small_to_ipv6 no_host = replicate 16 0
small_to_ipv6 (v4 n) = replicate 16 0
small_to_ipv6 (v6 bytes) = take 16 (bytes ++ replicate 16 0)

abbrev small_to_string : SmallHost → List ℕ
small_to_string no_host = []
small_to_string (v4 n) = 0 ∷ n ∷ []
small_to_string (v6 bytes) = 1 ∷ bytes

abbrev small_of_string : List ℕ → SmallHost
small_of_string (zero ∷ n ∷ []) = v4 n
small_of_string (suc zero ∷ bytes) = v6 bytes
small_of_string _ = no_host

abbrev pub small_qt : Qt SmallHost
small_qt = record {
  null_host = no_host;
  is_null = small_is_null;
  is_ipv4 = small_is_ipv4;
  to_ipv4_address = small_to_ipv4;
  of_ipv4_address = v4;
  to_ipv6_address = small_to_ipv6;
  of_ipv6_address = v6;
  host_of_string = small_of_string;
  host_to_string = small_to_string;
  same_host = λ h k. small_to_string h =ˢ small_to_string k;
  trimmed = λ text. text;
  to_lower = λ text. text;
  to_local8bit = λ text. text;
  of_bytes = λ bytes. bytes;
  to_big_endian16 = λ n. (n / 256, n % 256);
  from_big_endian16 = λ a b. a * 256 + b;
  to_big_endian32 = λ n. (n / 16777216, n / 65536 % 256, n / 256 % 256, n % 256);
  from_big_endian32 = λ a b c d. a * 16777216 + b * 65536 + c * 256 + d;
}

small_ipv4_lt : (h : SmallHost) → small_to_ipv4 h < 2 ^ 32
small_ipv4_lt no_host = omega arith
small_ipv4_lt (v4 n) = omega arith
small_ipv4_lt (v6 bytes) = omega arith

small_ipv6_length : (h : SmallHost) → length (small_to_ipv6 h) ≡ 16
small_ipv6_length no_host = refl
small_ipv6_length (v4 n) = refl
small_ipv6_length (v6 bytes) =
    omega (arith, length-take 16 (bytes ++ replicate 16 0), length-append bytes (replicate 16 0))

small_ipv4_round : (h : SmallHost) → small_is_ipv4 h ≡ true → v4 (small_to_ipv4 h) ≡ h
small_ipv4_round no_host e = cc
small_ipv4_round (v4 n) e = ap v4 (mod-eq_of_lt (ltb→lt n (2 ^ 32) e))
small_ipv4_round (v6 bytes) e = cc

small_ipv4_valid : (h : SmallHost) → small_is_ipv4 h ≡ true → small_is_null h ≡ false
small_ipv4_valid no_host e = cc
small_ipv4_valid (v4 n) e = refl
small_ipv4_valid (v6 bytes) e = refl

pub small_qt_laws : QtLaws small_qt
small_qt_laws = record {
  big_endian16 = λ n h. omega arith;
  big_endian32 = λ n h. omega arith;
  to_ipv4_address-lt = small_ipv4_lt;
  to_ipv6_address-length = small_ipv6_length;
  ipv4_round_trip = small_ipv4_round;
  ipv4_valid = small_ipv4_valid;
}

abbrev first_byte : List ℕ → ℕ
first_byte [] = 0
first_byte (b ∷ bs) = b

abbrev mask : ℕ → List ℕ → List ℕ
mask k = map (λ b. bit_xor b k)

abbrev pub small_crypto : Crypto ℕ
small_crypto = record {
  botan = concrete_botan;
  get_cipher = λ method key iv encode. some (first_byte key);
  accepts = λ method. true;
  process_msg = λ k xs. (mask k xs, k);
  md5 = λ xs. take 16 (xs ++ replicate 16 7);
  hmac = λ msg key. take 20 (msg ++ replicate 20 0);
}

mask-append : (k : ℕ) (xs ys : List ℕ) → mask k (xs ++ ys) ≡ mask k xs ++ mask k ys
mask-append k [] ys = refl
mask-append k (x ∷ xs) ys = ap (◌∷◌ (bit_xor x k)) (mask-append k xs ys)

mask_twice : (k : ℕ) (xs : List ℕ) → mask k (mask k xs) ≡ xs
mask_twice k [] = refl
mask_twice k (x ∷ xs) = rw (xor_twice x k, mask_twice k xs)

some_injective : {a b : ℕ} → some a ≡ some b → a ≡ b
some_injective h = cc

pub small_crypto_laws : CryptoLaws small_crypto
small_crypto_laws = record {
  process_nil = λ p. refl;
  process-append = λ p xs ys. ap (λ o. (o, p)) (mask-append p xs ys);
  both_directions = λ method key iv e h. (first_byte key, refl);
  inverse = λ method key iv e d xs h g.
      rw (← some_injective (g), ← some_injective h) (mask_twice (first_byte key) xs);
  md5_length =
      λ xs. omega (arith, length-take 16 (xs ++ replicate 16 7), length-append xs (replicate 16 7));
  hmac_length = λ msg key.
      omega (arith, length-take 20 (msg ++ replicate 20 0), length-append msg (replicate 20 0));
}
