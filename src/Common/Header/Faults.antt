-- ===== src/Common/Header/Faults.antt =====
-- Which headers make `parseHeader` read outside its input, and what it says of the others.
use shadowsocks_qt.Prelude.{
  ℕ, ◌+◌, ◌%◌, ◌≤◌, ◌≡◌, ◌≢◌, ==_iff, leb, refl, ◌⊎◌, inl, inr, List, [], ◌∷◌, Bool, true, false,
  ◌&&◌, bit_and-fifteen, length, ltb, ◌==◌, if◌then◌else◌, Bool-cases, ok, err, bad_read, Returns,
  Returns-bind, Returns-ok, lt→ltb, le→not-ltb, le→leb, lt→not-leb, if_true, Any, mid, raw_byte,
  raw_byte-Returns, raw_byte_past, arith,
}
use native.Mathlib.Nat.{le_refl}
use native.Mathlib.Decide.{dec_lt, dec_le}
use shadowsocks_qt.Qt.{Qt}
use shadowsocks_qt.Address.{Address}
use shadowsocks_qt.Common.Header.{
  read_port, read_ipv4, parse_name, parse_ipv4, parse_ipv6, parse_header,
}

-- The input is empty, or it is a host name that ends where the port should begin.
abbrev pub overruns : List ℕ → Bool
overruns [] = true
overruns (t ∷ []) = false
overruns (t ∷ n ∷ rest) = t % 16 == 3 && ltb 0 (length rest) && length rest == n

-- The second byte, which is the length of a host name.
abbrev pub name_length : List ℕ → ℕ
name_length (t ∷ n ∷ rest) = n
name_length _ = 0

-- A host name header of which the name is there.
abbrev pub holds_name : List ℕ → Bool
holds_name [] = false
holds_name (t ∷ rest) =
    let bytes = t ∷ rest in
    t % 16 == 3 && (ltb 2 (length bytes) && leb (2 + name_length bytes) (length bytes))

-- The length of the header by its type, the low half of the first byte: nothing parsed, and then no
-- host name is there; an IPv4 or IPv6 header that is there; or a host name header with the length
-- that its second byte says, of which the last byte of the port may be missing.
abbrev pub IsHeaderLength : List ℕ → ℕ → Type 0
IsHeaderLength [] n = n ≡ 0
IsHeaderLength (t ∷ rest) n =
    let bytes = t ∷ rest in
    ((n ≡ 0) × (holds_name bytes ≡ false))
    ⊎ ((t % 16 ≡ 1) × (n ≡ 7) × (7 ≤ length bytes))
    ⊎ ((t % 16 ≡ 4) × (n ≡ 19) × (19 ≤ length bytes))
    ⊎ ((t % 16 ≡ 3) × (n ≡ 4 + name_length bytes) × (n ≤ length bytes + 1))

module _ {Host : Type 0} (q : Qt Host) where
  read_port-Returns :
      (bytes : List ℕ) (i : ℕ) → i + 1 ≤ length bytes → Returns Any (read_port q bytes i)
  unfolding read_port
  read_port-Returns bytes i h =
      Returns-bind Any Any (raw_byte bytes i) _ (raw_byte-Returns bytes i (omega arith)) λ hi _.
        Returns-bind Any Any (raw_byte bytes (i + 1)) _ (raw_byte-Returns bytes (i + 1) h)
          λ lo _. tt

  read_port_past : (bytes : List ℕ) → read_port q bytes (length bytes) ≡ err bad_read
  unfolding read_port
  read_port_past bytes =
      let (b, e, _) =
        Returns-ok Any (raw_byte bytes (length bytes)) (raw_byte-Returns bytes _ (le_refl _)) in
      rw (e, raw_byte_past bytes (length bytes + 1) (omega arith)) refl

  abbrev pub Parsed : List ℕ → Address Host × ℕ → Type 0
  Parsed bytes r = IsHeaderLength bytes r.1

  parse_name-Returns :
      (t n : ℕ) (rest : List ℕ) (dest : Address Host)
      → t % 16 ≡ 3
      → (ltb 0 (length rest) && length rest == n) ≡ false
      → Returns (Parsed (t ∷ n ∷ rest)) (parse_name q (t ∷ n ∷ rest) dest)
  unfolding parse_name
  parse_name-Returns t n rest dest kind h = elim (dec_lt 2 (length (t ∷ n ∷ rest))) [
    | no short ↦
        let none = le→not-ltb 2 (length (t ∷ n ∷ rest)) (omega arith) in
        rw none (inl (refl, ground arith))
    | yes long ↦ elim (dec_le (2 + n) (length (t ∷ n ∷ rest))) [
      | no cut ↦
          let some = lt→ltb 2 (length (t ∷ n ∷ rest)) long in
          let none = lt→not-leb (2 + n) (length (t ∷ n ∷ rest)) (omega arith) in
          rw (some, none) (inl (refl, ground arith))
      | yes fits ↦
          let room : 2 + n + 1 ≤ length (t ∷ n ∷ rest) = ground (arith, fits, long, h) in
          rw (lt→ltb 2 (length (t ∷ n ∷ rest)) long, le→leb (2 + n) (length (t ∷ n ∷ rest)) fits)
            (Returns-bind Any (Parsed (t ∷ n ∷ rest)) (read_port q (t ∷ n ∷ rest) (2 + n)) _
              (read_port-Returns (t ∷ n ∷ rest) (2 + n) room)
              (λ p _. inr (inr (inr (kind, omega arith, omega arith)))))
    ]
  ]

  parse_name_past :
      (t n : ℕ) (rest : List ℕ) (dest : Address Host)
      → (ltb 0 (length rest) && length rest == n) ≡ true
      → parse_name q (t ∷ n ∷ rest) dest ≡ err bad_read
  unfolding parse_name
  parse_name_past t n rest dest h =
      let end : 2 + n ≡ length (t ∷ n ∷ rest) = ground (arith, h) in
      rw (end, lt→ltb 2 (length (t ∷ n ∷ rest)) (ground (arith, h)), read_port_past (t ∷ n ∷ rest))
        (if_true (le→leb (length (t ∷ n ∷ rest)) _ (le_refl _)) _ _)

  read_ipv4-Returns :
      (bytes : List ℕ) (i : ℕ) → i + 3 ≤ length bytes → Returns Any (read_ipv4 q bytes i)
  unfolding read_ipv4
  read_ipv4-Returns bytes i h =
      let raw = λ (k : ℕ) (p : k ≤ length bytes). raw_byte-Returns bytes k p in
      Returns-bind Any Any (raw_byte bytes i) _ (raw i (omega arith)) λ a _.
        Returns-bind Any Any (raw_byte bytes (i + 1)) _ (raw (i + 1) (omega arith)) λ b _.
          Returns-bind Any Any (raw_byte bytes (i + 2)) _ (raw (i + 2) (omega arith)) λ c _.
            Returns-bind Any Any (raw_byte bytes (i + 3)) _ (raw (i + 3) (omega arith)) λ d _. tt

  no_name : (t : ℕ) (rest : List ℕ) → t % 16 ≢ 3 → holds_name (t ∷ rest) ≡ false
  no_name t rest h = ground (arith, h)

  -- An IP header is read once its length has been tested.
  parse_ipv4-Returns :
      (t : ℕ) (rest : List ℕ) (dest : Address Host)
      → t % 16 ≡ 1
      → Returns (Parsed (t ∷ rest)) (parse_ipv4 q (t ∷ rest) dest)
  unfolding parse_ipv4
  parse_ipv4-Returns t rest dest kind =
      let bytes = t ∷ rest in
      let other = no_name t rest (omega (arith, kind)) in
      elim (dec_le 7 (length bytes)) [
        | no short ↦ rw (lt→not-leb 7 (length bytes) (omega arith)) (inl (refl, other))
        | yes long ↦ rw (le→leb 7 (length bytes) long) (
            Returns-bind Any (Parsed bytes) (read_ipv4 q bytes 1) _
              (read_ipv4-Returns bytes 1 (omega arith))
              λ word _. elim (Bool-cases (q.is_null (q.of_ipv4_address word))) [
                | inl null ↦ rw null (inl (refl, other))
                | inr valid ↦ rw valid (
                    Returns-bind Any (Parsed bytes) (read_port q bytes 5) _
                      (read_port-Returns bytes 5 (omega arith))
                      (λ p _. inr (inl (kind, refl, long))))
              ])
      ]

  parse_ipv6-Returns :
      (t : ℕ) (rest : List ℕ) (dest : Address Host)
      → t % 16 ≡ 4
      → Returns (Parsed (t ∷ rest)) (parse_ipv6 q (t ∷ rest) dest)
  unfolding parse_ipv6
  parse_ipv6-Returns t rest dest kind =
      let bytes = t ∷ rest in
      let other = no_name t rest (omega (arith, kind)) in
      elim (dec_le 19 (length bytes)) [
        | no short ↦ rw (lt→not-leb 19 (length bytes) (omega arith)) (inl (refl, other))
        | yes long ↦
            let addr = q.of_ipv6_address (mid bytes 1 16) in
            elim (Bool-cases (q.is_null addr)) [
              | inl null ↦ rw (le→leb 19 (length bytes) long, null) (inl (refl, other))
              | inr valid ↦
                  rw (le→leb 19 (length bytes) long, valid)
                    (Returns-bind Any (Parsed bytes) (read_port q bytes 17) _
                      (read_port-Returns bytes 17 (omega arith))
                      (λ p _. inr (inr (inl (kind, refl, long)))))
            ]
      ]

  -- The branch is chosen by the low half of the first byte.
  pub parse_header_kind :
      (t : ℕ) (rest : List ℕ) (dest : Address Host)
      → parse_header q (t ∷ rest) dest ≡ (
          if t % 16 == 3
          then parse_name q (t ∷ rest) dest
          else if t % 16 == 1
          then parse_ipv4 q (t ∷ rest) dest
          else if t % 16 == 4
          then parse_ipv6 q (t ∷ rest) dest
          else ok (dest, 0))
  unfolding parse_header
  parse_header_kind t rest dest = rw (bit_and-fifteen t) refl

  not_name :
      (t : ℕ) (rest : List ℕ) (dest : Address Host)
      → (t % 16 == 3) ≡ false
      → Returns (Parsed (t ∷ rest)) (parse_header q (t ∷ rest) dest)
  not_name t rest dest h =
      rw (parse_header_kind t rest dest, h)
        (elim (Bool-cases (t % 16 == 1)) [
          | inl v4 ↦ rw v4 (parse_ipv4-Returns t rest dest ((==_iff (t % 16) 1).0 v4))
          | inr other ↦ rw other (elim (Bool-cases (t % 16 == 4)) [
            | inl v6 ↦ rw v6 (parse_ipv6-Returns t rest dest ((==_iff (t % 16) 4).0 v6))
            | inr none ↦ rw none (inl (refl, no_name t rest (ground (arith, h))))
          ])
        ])

  -- `parseHeader` reads outside its input exactly when the input is empty or is a host name that
  -- ends where its port should begin. On every other input it returns, and the header length that
  -- it gives is 7 only on an IPv4 header and 19 only on an IPv6 header, by the low half of the
  -- first byte, which are there in full; it is four more than the second byte on a host name
  -- header, of which at most the last byte is missing; otherwise it is 0, and it is not 0 on more
  -- than two bytes of a host name header whose name is there.
  pub parse_header_total :
      (bytes : List ℕ) (dest : Address Host)
      → ((overruns bytes ≡ true) × (parse_header q bytes dest ≡ err bad_read))
        ⊎ ((overruns bytes ≡ false) × Returns (Parsed bytes) (parse_header q bytes dest))
  parse_header_total [] dest = inl (refl, unfold parse_header in refl)
  parse_header_total (t ∷ []) dest = inr (refl, single t)
    where
      single : (t : ℕ) → Returns (Parsed (t ∷ [])) (parse_header q (t ∷ []) dest)
      single t = elim (Bool-cases (t % 16 == 3)) [
        | inl e ↦
            rw (parse_header_kind t [] dest, e) (unfold parse_name in inl (refl, ground arith))
        | inr e ↦ not_name t [] dest e
      ]
  parse_header_total (t ∷ n ∷ rest) dest = elim (Bool-cases (t % 16 == 3)) [
    | inr e ↦ inr (rw e refl, not_name t (n ∷ rest) dest e)
    | inl e ↦
        rw (parse_header_kind t (n ∷ rest) dest, e)
          (elim (Bool-cases (ltb 0 (length rest) && length rest == n)) [
            | inl bad ↦ inl (bad, parse_name_past t n rest dest bad)
            | inr good ↦ inr (good, parse_name-Returns t n rest dest ((==_iff (t % 16) 3).0 e) good)
          ])
  ]
