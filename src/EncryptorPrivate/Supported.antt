-- ===== src/EncryptorPrivate/Supported.antt =====
-- `getSupportedMethodList` of lib/cipher.cpp beside the constructor of lib/encryptorprivate.cpp.
use shadowsocks_qt.Prelude.{
  ℕ, ◌≡◌, refl, sym, ◌∙◌, List, [], ◌∷◌, Bool, true, false, not, ◌&&◌, ◌||◌, ◌=ˢ◌, ltb, Bool-cases,
  inl, inr, if◌then◌else◌, Result, ok, err, out_of_range, eq_of_text, arith,
}
use shadowsocks_qt.Qt.{Qt}
use shadowsocks_qt.Crypto.{Crypto, CryptoLaws}
use shadowsocks_qt.Cipher
use shadowsocks_qt.EncryptorPrivate.{EncryptorPrivate, create, at, key_iv_map, cipher_name_map}
use shadowsocks_qt.EncryptorPrivate.Key.{evp_bytes_to_key-hash_chain}
use shadowsocks_qt.EncryptorPrivate.Methods.{
  tables, found_serves, at-cases, valid_if, method_serves, both,
}

abbrev pub listed : List ℕ → List (List ℕ) → Bool
listed name [] = false
listed name (j ∷ names) = j =ˢ name || listed name names

-- The settings are made, and valid.
abbrev pub makes_valid : Result EncryptorPrivate → Bool
makes_valid (ok ep) = ep.valid
makes_valid (err e) = false

module _ {Pipe : Type 0} (crypto : Crypto Pipe) where
  supported_of : List (List ℕ × List ℕ) → List (List ℕ)
  supported_of [] = []
  supported_of ((name, method) ∷ ms) =
      let rest = supported_of ms in if Cipher.is_supported crypto method then name ∷ rest else rest

  -- `getSupportedMethodList`, in the order of the table.
  unfoldable pub get_supported_method_list : List (List ℕ)
  unfolding supported_of
  get_supported_method_list = supported_of cipher_name_map

abbrev keys : {V : Type 0} → List (List ℕ × V) → List (List ℕ)
keys [] = []
keys ((j, v) ∷ ms) = j ∷ keys ms

abbrev distinct : List (List ℕ) → Bool
distinct [] = true
distinct (j ∷ names) = not (listed j names) && distinct names

at_unlisted :
    {V : Type 0} (ms : List (List ℕ × V)) (name : List ℕ)
    → at ms name ≡ err out_of_range
    → listed name (keys ms) ≡ false
unfolding at
at_unlisted [] name h = refl
at_unlisted ((j, v) ∷ ms) name h = elim (Bool-cases (j =ˢ name)) [
  | inl e ↦ absurd (ground (arith, rw e at h))
  | inr e ↦ rw e (at_unlisted ms name (rw e at h))
]

unlisted-at :
    {V : Type 0} (ms : List (List ℕ × V)) (name : List ℕ)
    → listed name (keys ms) ≡ false
    → at ms name ≡ err out_of_range
unfolding at
unlisted-at [] name h = refl
unlisted-at ((j, v) ∷ ms) name h = elim (Bool-cases (j =ˢ name)) [
  | inl e ↦ absurd (ground (arith, rw e at h))
  | inr e ↦ rw e (unlisted-at ms name (rw e at h))
]

-- The two tables have the same names.
unknown_method :
    (name : List ℕ)
    → at key_iv_map name ≡ err out_of_range
    → at cipher_name_map name ≡ err out_of_range
unknown_method name h = unlisted-at cipher_name_map name (at_unlisted key_iv_map name h)

module _ {Pipe : Type 0} (crypto : Crypto Pipe) where
  supported : Result (List ℕ) → Bool
  supported (ok method) = Cipher.is_supported crypto method
  supported (err e) = false

  not_among :
      (ms : List (List ℕ × List ℕ)) (name : List ℕ)
      → listed name (keys ms) ≡ false
      → listed name (supported_of crypto ms) ≡ false
  unfolding supported_of
  not_among [] name h = refl
  not_among ((j, v) ∷ ms) name h = elim (Bool-cases (j =ˢ name)) [
    | inl e ↦ absurd (ground (arith, rw e at h))
    | inr e ↦ elim (Bool-cases (Cipher.is_supported crypto v)) [
      | inl s ↦ rw (s, e) (not_among ms name (rw e at h))
      | inr s ↦ rw s (not_among ms name (rw e at h))
    ]
  ]

  listed-at :
      (ms : List (List ℕ × List ℕ)) (name : List ℕ)
      → distinct (keys ms) ≡ true
      → listed name (supported_of crypto ms) ≡ supported (at ms name)
  unfolding supported_of at supported
  listed-at [] name d = refl
  listed-at ((j, v) ∷ ms) name d = elim (Bool-cases (j =ˢ name)) [
    | inl e ↦ elim (Bool-cases (Cipher.is_supported crypto v)) [
      | inl s ↦ rw (s, e, s) refl
      | inr s ↦ rw (s, e, s) (not_among ms name (rw (← eq_of_text j name e) (ground (arith, d))))
    ]
    | inr e ↦ elim (Bool-cases (Cipher.is_supported crypto v)) [
      | inl s ↦ rw (s, e) (listed-at ms name (ground (arith, d)))
      | inr s ↦ rw (s, e) (listed-at ms name (ground (arith, d)))
    ]
  ]

has_key :
    (r : Result (List ℕ)) (k n : ℕ) {method : List ℕ}
    → method_serves r k n ≡ true
    → r ≡ ok method
    → ltb 0 k ≡ true
has_key (err e) k n h is = cc
has_key (ok method) k n h is = (both (ltb 0 k) _ h).0

module _ {Host Pipe : Type 0} (q : Qt Host) (crypto : Crypto Pipe) (laws : CryptoLaws crypto) where
  -- The methods that `getSupportedMethodList` offers are exactly those with which the constructor
  -- makes valid settings: the lower-case name of a method is in the list if the constructor, given
  -- the method and any password, returns and says that it is valid, and is not in the list if it
  -- says that it is not valid, or throws.
  pub listed-create :
      (m pwd : List ℕ)
      → listed (q.to_local8bit (q.to_lower m)) (get_supported_method_list crypto)
        ≡ makes_valid (create crypto q m pwd)
  unfolding get_supported_method_list create supported
  listed-create m pwd =
      let name = q.to_local8bit (q.to_lower m) in
      let offered = listed-at crypto cipher_name_map name refl in
      offered ∙ (elim (at-cases key_iv_map name) [
        | inl unknown ↦ rw (unknown, unknown_method name unknown) refl
        | inr (ki, found) ↦ elim (at-cases cipher_name_map name) [
          | inl nameless ↦ rw (found, nameless) refl
          | inr (method, named) ↦
              let fits = found_serves key_iv_map name ki tables found in
              let e =
                evp_bytes_to_key-hash_chain crypto laws ki.0 ki.1 ki.0 (q.to_local8bit pwd)
                  (omega arith) in
              rw (found, named, e)
                (sym (
                  valid_if ki.0 (Cipher.is_supported crypto method)
                    (has_key (at cipher_name_map name) ki.0 ki.1 fits named)))
        ]
      ])
