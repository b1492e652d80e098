-- ===== src/Address/Order.antt =====
-- `operator<` of lib/address.h, by which a `QMap` of addresses is ordered and searched. The order of
-- texts is that of `QString`, a parameter.
use shadowsocks_qt.Prelude.{
  ℕ, ◌+◌, ◌≡◌, refl, sym, ap, ◌∙◌, List, Bool, true, false, not, ◌&&◌, ◌||◌, Bool-cases, inl, inr,
  ltb, ◌==◌, ==_refl, ◌=ˢ◌, text_refl, eq_of_text, arith,
}
use shadowsocks_qt.Address.{Address, same_address}

-- Documented of `QString`: texts are compared by the numbers of their characters, from the first on.
pub record IsTextOrder (less : List ℕ → List ℕ → Bool) : Type 0 where
  pub less_irrefl : (x : List ℕ) → less x x ≡ false
  pub less_trans : (x y z : List ℕ) → less x y ≡ true → less y z ≡ true → less x z ≡ true
  pub eq_of_not_less : (x y : List ℕ) → less x y ≡ false → less y x ≡ false → x ≡ y

module _ {Host : Type 0} (less : List ℕ → List ℕ → Bool) where
  -- The pairs `data` are compared by their first parts, and if neither is less, by the second.
  unfoldable pub less_than : Address Host → Address Host → Bool
  less_than a b = less a.name b.name || (not (less b.name a.name) && ltb a.port b.port)

module _ {Host : Type 0} where
  pub same_self : (a : Address Host) → same_address a a ≡ true
  unfolding same_address
  same_self a = rw (text_refl a.name) (==_refl a.port)

  -- `operator==` of one address with two others.
  pub same_address_congr :
      (a b k : Address Host) → same_address a b ≡ true → same_address a k ≡ same_address b k
  unfolding same_address
  same_address_congr a b k h =
      let names = eq_of_text a.name b.name (ground (arith, h)) in
      let ports : a.port ≡ b.port = ground (arith, h) in
      ap (λ n. (n =ˢ k.name) && a.port == k.port) names
      ∙ ap (λ p. (b.name =ˢ k.name) && p == k.port) ports

module _ (less : List ℕ → List ℕ → Bool) (order : IsTextOrder less) where
  less_once : (x y : List ℕ) → less x y ≡ true → less y x ≡ false
  less_once x y h = elim (Bool-cases (less y x)) [
    | inl back ↦ absurd (ground (arith, order.less_trans x y x h back, order.less_irrefl x))
    | inr no_back ↦ no_back
  ]

  text_differs : (x y : List ℕ) → less x y ≡ true → ((x =ˢ y) ≡ false) × ((y =ˢ x) ≡ false)
  text_differs x y h = (
    unequal (x =ˢ y) (λ e. ap (λ t. less x t) (eq_of_text x y e)),
    unequal (y =ˢ x) (λ e. ap (λ t. less x t) (sym (eq_of_text y x e))),
  )
    where
      unequal : (b : Bool) → (b ≡ true → less x x ≡ less x y) → b ≡ false
      unequal true e = absurd (ground (arith, sym (e refl) ∙ order.less_irrefl x, h))
      unequal false e = refl

  same_text : (x y : List ℕ) → less x y ≡ false → less y x ≡ false → (x =ˢ y) ≡ true
  same_text x y p r = ap (λ t. x =ˢ t) (sym (order.eq_of_not_less x y p r)) ∙ text_refl x

abbrev pub count : Bool → ℕ
count true = 1
count false = 0

module _ {Host : Type 0} (less : List ℕ → List ℕ → Bool) (order : IsTextOrder less) where
  -- Of two addresses exactly one is less than the other by `operator<`, or they are equal by
  -- `operator==`, and never two of these: so a map by `operator<` finds a key exactly when
  -- `operator==` holds.
  pub less_than_once :
      (a b : Address Host)
      → count (less_than less a b) + count (same_address a b) + count (less_than less b a) ≡ 1
  unfolding less_than same_address
  less_than_once a b = elim (Bool-cases (less a.name b.name)) [
    | inl below ↦
        rw
          (
            below,
            less_once less order a.name b.name below,
            (text_differs less order a.name b.name below).0,
          )
          refl
    | inr not_below ↦ elim (Bool-cases (less b.name a.name)) [
      | inl above ↦ rw (not_below, above, (text_differs less order b.name a.name above).1) refl
      | inr not_above ↦
          rw (not_below, not_above, same_text less order a.name b.name not_below not_above)
            (ground arith)
    ]
  ]

  -- `operator<` is transitive.
  pub less_than_trans :
      (a b c : Address Host)
      → less_than less a b ≡ true
      → less_than less b c ≡ true
      → less_than less a c ≡ true
  unfolding less_than
  less_than_trans a b c p r = ground (
    arith,
    order.less_trans a.name b.name c.name,
    order.less_trans c.name a.name b.name,
    order.less_trans b.name c.name a.name,
    order.eq_of_not_less a.name b.name,
    order.eq_of_not_less b.name c.name,
    order.less_irrefl a.name,
  )
