-- ===== src/Address/Tests.antt =====
-- The order of addresses with the order of texts written out.
use shadowsocks_qt.Prelude.{
  ℕ, ◌+◌, ◌≡◌, refl, List, [], ◌∷◌, Bool, true, false, ltb, ◌==◌, if◌then◌else◌, arith,
}
use shadowsocks_qt.Address.{Address, same_address}
use shadowsocks_qt.Address.Order.{IsTextOrder, less_than, less_than_once, count}
use shadowsocks_qt.Tests.{SmallHost, v4}

abbrev pub less_text : List ℕ → List ℕ → Bool
less_text [] [] = false
less_text [] (y ∷ ys) = true
less_text (x ∷ xs) [] = false
less_text (x ∷ xs) (y ∷ ys) = let rest = less_text xs ys in if x == y then rest else ltb x y

less_text_irrefl : (xs : List ℕ) → less_text xs xs ≡ false
less_text_irrefl [] = refl
less_text_irrefl (x ∷ xs) = ground (arith, less_text_irrefl xs)

less_text_trans :
    (xs ys zs : List ℕ) → less_text xs ys ≡ true → less_text ys zs ≡ true → less_text xs zs ≡ true
less_text_trans [] [] zs h k = cc
less_text_trans [] (y ∷ ys) [] h k = cc
less_text_trans [] (y ∷ ys) (z ∷ zs) h k = refl
less_text_trans (x ∷ xs) [] zs h k = cc
less_text_trans (x ∷ xs) (y ∷ ys) [] h k = cc
less_text_trans (x ∷ xs) (y ∷ ys) (z ∷ zs) h k = ground (arith, less_text_trans xs ys zs)

eq_of_not_less_text : (xs ys : List ℕ) → less_text xs ys ≡ false → less_text ys xs ≡ false → xs ≡ ys
eq_of_not_less_text [] [] h k = refl
eq_of_not_less_text [] (y ∷ ys) h k = cc
eq_of_not_less_text (x ∷ xs) [] h k = cc
eq_of_not_less_text (x ∷ xs) (y ∷ ys) h k = ground (arith, eq_of_not_less_text xs ys)

pub text_order : IsTextOrder less_text
text_order = record {
  less_irrefl = less_text_irrefl;
  less_trans = less_text_trans;
  eq_of_not_less = eq_of_not_less_text;
}

abbrev pub first : Address SmallHost
first = record { name = 97 ∷ []; port = 80; ip_addr_list = v4 1 ∷ [] }

abbrev pub second : Address SmallHost
second = record { name = 97 ∷ 98 ∷ []; port = 53; ip_addr_list = [] }

less_than_once_example :
    count (less_than less_text first second)
      + count (same_address first second)
      + count (less_than less_text second first)
    ≡ 1
less_than_once_example = less_than_once less_text text_order first second
