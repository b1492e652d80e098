-- ===== src/EncryptorPrivate/Methods.antt =====
-- The methods of the tables `keyIvMap` and `cipherNameMap` of lib/cipher.cpp.
use shadowsocks_qt.Prelude.{
  ℕ, ◌≤◌, ◌≡◌, refl, List, [], ◌∷◌, Bool, true, false, ◌&&◌, ◌||◌, ◌==◌, ltb, if◌then◌else◌, length,
  Result, ok, err, Returns, Any, >>=-eq-ok, arith, Bool-cases, inl, inr, ◌=ˢ◌, ap, ==_iff, sym, ◌∙◌,
  subst, ok_injective, eq_of_text, ◌⊎◌, out_of_range, Returns-bind, not, ◌>>=◌,
}
use shadowsocks_qt.Qt.{Qt}
use shadowsocks_qt.Crypto.{Crypto, CryptoLaws}
use shadowsocks_qt.ChaCha.Create.{IsIvLength}
use shadowsocks_qt.Cipher.Create.{random_iv-length, create_chacha}
use shadowsocks_qt.EncryptorPrivate.Key.{evp_bytes_to_key-hash_chain, evp_bytes_to_key-length}
use shadowsocks_qt.Cipher
use shadowsocks_qt.Cipher.{codes, is_chacha}
use shadowsocks_qt.EncryptorPrivate.{
  EncryptorPrivate, create, evp_bytes_to_key, at, key_iv_map, cipher_name_map,
}

-- What the program needs of a method: it has a name in Botan, a key and an IV, and a method that
-- the program's own cipher does has a key of thirty-two bytes and an IV of eight or twelve.
abbrev pub method_serves : Result (List ℕ) → ℕ → ℕ → Bool
method_serves (err e) key_len iv_len = false
method_serves (ok method) key_len iv_len =
    ltb 0 key_len
    && (ltb 0 iv_len
        && (if is_chacha method then key_len == 32 && (iv_len == 8 || iv_len == 12) else true))

abbrev pub serves : List ℕ × (ℕ × ℕ) → Bool
serves r = method_serves (at cipher_name_map r.0) r.1.0 r.1.1

unfoldable pub all_serve : List (List ℕ × (ℕ × ℕ)) → Bool
unfolding at
all_serve [] = true
all_serve (m ∷ ms) = serves m && all_serve ms

pub tables : all_serve key_iv_map ≡ true
unfolding all_serve
tables = refl

pub both : (a b : Bool) → a && b ≡ true → (a ≡ true) × (b ≡ true)
both true b h = (refl, h)
both false b h = cc

own_lengths :
    (k n : ℕ)
    → (ltb 0 k && (ltb 0 n && (k == 32 && (n == 8 || n == 12)))) ≡ true
    → (k ≡ 32) × IsIvLength n
own_lengths k n h =
    let (_, h1) = both (ltb 0 k) _ h in
    let (_, h2) = both (ltb 0 n) _ h1 in
    let (h3, h4) = both (k == 32) _ h2 in
    (
      (==_iff k 32).0 h3,
      elim (Bool-cases (n == 8)) [
        | inl e ↦ inl ((==_iff n 8).0 e)
        | inr e ↦ inr ((==_iff n 12).0 (rw e at h4))
      ],
    )

pub found_serves :
    (ms : List (List ℕ × (ℕ × ℕ))) (name : List ℕ) (ki : ℕ × ℕ)
    → all_serve ms ≡ true
    → at ms name ≡ ok ki
    → serves (name, ki) ≡ true
unfolding at all_serve
found_serves [] name ki h found = cc
found_serves ((j, v) ∷ ms) name ki h found =
    let (this, rest) = both (serves (j, v)) (all_serve ms) h in
    elim (Bool-cases (j =ˢ name)) [
      | inl e ↦
          subst (λ n. serves (n, ki) ≡ true) (eq_of_text j name e)
            (subst (λ k. serves (j, k) ≡ true) (ok_injective (rw e at found)) this)
      | inr e ↦ found_serves ms name ki rest (rw e at found)
    ]

pub at-cases :
    {V : Type 0} (ms : List (List ℕ × V)) (name : List ℕ)
    → (at ms name ≡ err out_of_range) ⊎ ((v : V) × (at ms name ≡ ok v))
unfolding at
at-cases [] name = inl refl
at-cases ((j, v) ∷ ms) name = elim (Bool-cases (j =ˢ name)) [
  | inl e ↦ inr (v, rw e refl)
  | inr e ↦ rw e (at-cases ms name)
]

has_key :
    (r : Result (List ℕ)) (k n : ℕ)
    → method_serves r k n ≡ true
    → Returns (λ method. ltb 0 k ≡ true) r
has_key (err e) k n h = cc
has_key (ok method) k n h = (both (ltb 0 k) _ h).0

pub valid_if :
    (k : ℕ) (supported : Bool) → ltb 0 k ≡ true → not (k == 0 || not supported) ≡ supported
valid_if k true h = ground arith
valid_if k false h = ground arith

module _ {Host Pipe : Type 0} (q : Qt Host) (crypto : Crypto Pipe) (laws : CryptoLaws crypto) where
  chacha_made :
      (name method key drawn : List ℕ) (encode : Bool) (ki : ℕ × ℕ)
      → serves (name, ki) ≡ true
      → at cipher_name_map name ≡ ok method
      → is_chacha method ≡ true
      → length key ≡ ki.0
      → ki.1 ≤ length drawn
      → Returns Any (Cipher.create crypto method key (Cipher.random_iv ki.1 drawn) encode)
  chacha_made name method key drawn encode (key_len, iv_len) fits named own long enough =
      let of_method : method_serves (ok method) key_len iv_len ≡ true =
        subst (λ r. method_serves r key_len iv_len ≡ true) named fits in
      let (key_is, iv_is) = own_lengths key_len iv_len (rw own at of_method) in
      create_chacha crypto method key (Cipher.random_iv iv_len drawn) encode own
        (omega (arith, long, key_is))
        (subst IsIvLength (sym (random_iv-length iv_len drawn enough)) iv_is)

  -- Settings that the constructor makes, of whatever method and password, never make the
  -- program's own cipher fail: where the method is one of the ChaCha methods and enough random
  -- bytes are drawn, the cipher with the key of the settings and a random IV of their length is
  -- made.
  create-create :
      (m pwd drawn : List ℕ) (encode : Bool) (ep : EncryptorPrivate)
      → create crypto q m pwd ≡ ok ep
      → is_chacha ep.method ≡ true
      → ep.iv_len ≤ length drawn
      → Returns Any
          (Cipher.create crypto ep.method ep.key (Cipher.random_iv ep.iv_len drawn) encode)
  unfolding create
  create-create m pwd drawn encode ep made own enough =
      let name = q.to_local8bit (q.to_lower m) in
      let (ki, found, made1) = >>=-eq-ok (at key_iv_map name) _ made in
      let (method, named, made2) = >>=-eq-ok (at cipher_name_map name) _ made1 in
      let (key, derived, is) =
        >>=-eq-ok (evp_bytes_to_key crypto ki.0 ki.1 (q.to_local8bit pwd)) _ made2 in
      let fits = found_serves key_iv_map name ki tables found in
      let of_settings = ok_injective is in
      subst
        (λ (s : EncryptorPrivate).
          Returns Any
            (Cipher.create crypto s.method s.key (Cipher.random_iv s.iv_len drawn) encode))
        of_settings
        (chacha_made name method key drawn encode ki fits named
          (ap (λ (s : EncryptorPrivate). is_chacha s.method) of_settings ∙ own)
          (evp_bytes_to_key-length crypto laws ki.0 ki.1 (q.to_local8bit pwd) key derived)
          (subst (λ (s : EncryptorPrivate). s.iv_len ≤ length drawn) (sym of_settings) enough))

  -- Settings of a ChaCha method have a key of thirty-two bytes and an IV that fits.
  pub chacha_lengths :
      (m pwd : List ℕ) (ep : EncryptorPrivate)
      → create crypto q m pwd ≡ ok ep
      → is_chacha ep.method ≡ true
      → (length ep.key ≡ 32) × IsIvLength ep.iv_len
  unfolding create
  chacha_lengths m pwd ep made own =
      let name = q.to_local8bit (q.to_lower m) in
      let (ki, found, made1) = >>=-eq-ok (at key_iv_map name) _ made in
      let (method, named, made2) = >>=-eq-ok (at cipher_name_map name) _ made1 in
      let (key, derived, is) =
        >>=-eq-ok (evp_bytes_to_key crypto ki.0 ki.1 (q.to_local8bit pwd)) _ made2 in
      let of_settings = ok_injective is in
      let own_method : is_chacha method ≡ true =
        ap (λ (s : EncryptorPrivate). is_chacha s.method) of_settings ∙ own in
      let fits : method_serves (ok method) ki.0 ki.1 ≡ true =
        subst (λ r. method_serves r ki.0 ki.1 ≡ true) named
          (found_serves key_iv_map name ki tables found) in
      let (key_is, iv_is) = own_lengths ki.0 ki.1 (rw own_method at fits) in
      subst (λ (s : EncryptorPrivate). (length s.key ≡ 32) × IsIvLength s.iv_len) of_settings
        (
          evp_bytes_to_key-length crypto laws ki.0 ki.1 (q.to_local8bit pwd) key derived ∙ key_is,
          iv_is,
        )

  pub chacha_key :
      (m pwd : List ℕ) (ep : EncryptorPrivate)
      → create crypto q m pwd ≡ ok ep
      → is_chacha ep.method ≡ true
      → length ep.key ≡ 32
  chacha_key m pwd ep made own = (chacha_lengths m pwd ep made own).0

  derived :
      (key_len iv_len : ℕ) (password : List ℕ)
      → Returns (λ key. length key ≡ key_len) (evp_bytes_to_key crypto key_len iv_len password)
  derived key_len iv_len password =
      let e =
        evp_bytes_to_key-hash_chain crypto laws key_len iv_len key_len password (omega arith) in
      subst (Returns (λ key. length key ≡ key_len)) (sym e)
        (evp_bytes_to_key-length crypto laws key_len iv_len password _ e)

  made_of :
      (name pwd : List ℕ) (ki : ℕ × ℕ)
      → serves (name, ki) ≡ true
      → Returns
          (λ (ep : EncryptorPrivate).
            (ep.key_len ≡ ki.0)
            × (ep.iv_len ≡ ki.1)
            × (length ep.key ≡ ki.0)
            × (ep.valid ≡ Cipher.is_supported crypto ep.method))
          (at cipher_name_map name >>= λ method.
            evp_bytes_to_key crypto ki.0 ki.1 (q.to_local8bit pwd) >>= λ key. ok (record {
              key_len = ki.0;
              iv_len = ki.1;
              method = method;
              password = q.to_local8bit pwd;
              key = key;
              valid = not (ki.0 == 0 || not (Cipher.is_supported crypto method));
            }))
  made_of name pwd ki fits =
      Returns-bind (λ method. ltb 0 ki.0 ≡ true) _ (at cipher_name_map name) _
        (has_key (at cipher_name_map name) ki.0 ki.1 fits)
        λ method some_key.
          Returns-bind (λ key. length key ≡ ki.0) _
            (evp_bytes_to_key crypto ki.0 ki.1 (q.to_local8bit pwd)) _
            (derived ki.0 ki.1 (q.to_local8bit pwd))
            λ key long.
              (refl, refl, long, valid_if ki.0 (Cipher.is_supported crypto method) some_key)

  -- The constructor, given a method and a password: if the lower-case name of the method is not in
  -- the table of lengths, it throws `out_of_range`; if it is, the constructor returns settings with
  -- the lengths of the table and a key of that length, which are valid exactly if the method of the
  -- settings is supported.
  pub create-cases :
      (m pwd : List ℕ)
      → let name = q.to_local8bit (q.to_lower m) in
        ((at key_iv_map name ≡ err out_of_range) × (create crypto q m pwd ≡ err out_of_range))
        ⊎ ((ki : ℕ × ℕ) × (at key_iv_map name ≡ ok ki)
            × Returns
                (λ (ep : EncryptorPrivate).
                  (ep.key_len ≡ ki.0)
                  × (ep.iv_len ≡ ki.1)
                  × (length ep.key ≡ ki.0)
                  × (ep.valid ≡ Cipher.is_supported crypto ep.method))
                (create crypto q m pwd))
  unfolding create
  create-cases m pwd =
      let name = q.to_local8bit (q.to_lower m) in
      elim (at-cases key_iv_map name) [
        | inl unknown ↦ inl (unknown, rw unknown refl)
        | inr (ki, found) ↦ inr (
          ki,
          found,
          rw found (made_of name pwd ki (found_serves key_iv_map name ki tables found)),
        )
      ]
