-- ===== src/UdpRelay/Ordered.antt =====
-- The cache of client sockets in lib/udprelay.cpp as the map by `operator<` that it is.
use shadowsocks_qt.Prelude.{
  ℕ, ◌≡◌, refl, sym, ap, ◌∙◌, List, [], ◌∷◌, Bool, true, false, Bool-cases, inl, inr, if_elim,
  if◌then◌else◌, arith,
}
use shadowsocks_qt.Address.{Address, same_address}
use shadowsocks_qt.Address.Order.{
  IsTextOrder, less_than, less_than_once, less_than_trans, same_address_congr, same_self,
}
use shadowsocks_qt.UdpRelay.{cached}

module _ {Host : Type 0} (less : List ℕ → List ℕ → Bool) where
  -- A search in key order: past the keys that are less, up to the first that is not.
  pub find_ordered : List (Address Host × ℕ) → Address Host → ℕ → ℕ × Bool
  find_ordered [] a new = (new, false)
  find_ordered ((b, id) ∷ rest) a new =
      let later = find_ordered rest a new in
      if less_than less b a then later else if less_than less a b then (new, false) else (id, true)

  -- An insertion in key order; a key that is there gets the new value.
  insert_ordered : Address Host → ℕ → List (Address Host × ℕ) → List (Address Host × ℕ)
  insert_ordered a id [] = (a, id) ∷ []
  insert_ordered a id ((b, other) ∷ rest) =
      let later = insert_ordered a id rest in
      if less_than less b a
      then (b, other) ∷ later
      else if less_than less a b
      then (a, id) ∷ (b, other) ∷ rest
      else (b, id) ∷ rest

  -- The entries, inserted one after the other.
  pub in_order : List (Address Host × ℕ) → List (Address Host × ℕ)
  unfolding insert_ordered
  in_order [] = []
  in_order ((a, id) ∷ rest) = insert_ordered a id (in_order rest)

  abbrev AllAbove : Address Host → List (Address Host × ℕ) → Type 0
  AllAbove a [] = Unit
  AllAbove a ((b, id) ∷ rest) = (less_than less a b ≡ true) × AllAbove a rest

  -- The keys grow.
  abbrev IsOrdered : List (Address Host × ℕ) → Type 0
  IsOrdered [] = Unit
  IsOrdered ((a, id) ∷ rest) = AllAbove a rest × IsOrdered rest

module _ {Host : Type 0} (less : List ℕ → List ℕ → Bool) (order : IsTextOrder less) where
  below_differs : (a b : Address Host) → less_than less b a ≡ true → same_address b a ≡ false
  below_differs a b h = ground (arith, less_than_once less order b a)

  above_differs : (a b : Address Host) → less_than less a b ≡ true → same_address b a ≡ false
  above_differs a b h = ground (arith, less_than_once less order b a)

  neither_is_same :
      (a b : Address Host)
      → less_than less b a ≡ false
      → less_than less a b ≡ false
      → same_address b a ≡ true
  neither_is_same a b h k = ground (arith, less_than_once less order b a)

  other_differs :
      (b a k : Address Host)
      → less_than less b a ≡ true
      → same_address a k ≡ true
      → same_address b k ≡ false
  other_differs b a k below here = elim (Bool-cases (same_address b k)) [
    | inl both ↦ absurd (
        ground (
          arith,
          below_differs a b below,
          same_address_congr b k a both,
          same_address_congr a k a here,
          same_self a,
        ))
    | inr differs ↦ differs
  ]

  above_trans :
      (a b : Address Host) (l : List (Address Host × ℕ))
      → less_than less a b ≡ true
      → AllAbove less b l
      → AllAbove less a l
  above_trans a b [] h above = tt
  above_trans a b ((c, id) ∷ rest) h (more, above) =
      (less_than_trans less order a b c h more, above_trans a b rest h above)

  insert_ordered-AllAbove :
      (c a : Address Host) (id : ℕ) (l : List (Address Host × ℕ))
      → less_than less c a ≡ true
      → AllAbove less c l
      → AllAbove less c (insert_ordered less a id l)
  unfolding insert_ordered
  insert_ordered-AllAbove c a id [] h above = (h, tt)
  insert_ordered-AllAbove c a id ((b, other) ∷ rest) h (more, above) =
      if_elim (AllAbove less c) (less_than less b a)
        (λ _. (more, insert_ordered-AllAbove c a id rest h above))
        (λ _.
          if_elim (AllAbove less c) (less_than less a b) (λ _. (h, (more, above)))
            (λ _. (more, above)))

  insert_ordered-IsOrdered :
      (a : Address Host) (id : ℕ) (l : List (Address Host × ℕ))
      → IsOrdered less l
      → IsOrdered less (insert_ordered less a id l)
  unfolding insert_ordered
  insert_ordered-IsOrdered a id [] o = (tt, tt)
  insert_ordered-IsOrdered a id ((b, other) ∷ rest) (above, o) =
      if_elim (IsOrdered less) (less_than less b a)
        (λ below.
          (insert_ordered-AllAbove b a id rest below above, insert_ordered-IsOrdered a id rest o))
        (λ _.
          if_elim (IsOrdered less) (less_than less a b)
            (λ over. ((over, above_trans a b rest over above), (above, o))) (λ _. (above, o)))

  in_order-IsOrdered : (l : List (Address Host × ℕ)) → IsOrdered less (in_order less l)
  unfolding in_order
  in_order-IsOrdered [] = tt
  in_order-IsOrdered ((a, id) ∷ rest) =
      insert_ordered-IsOrdered a id (in_order less rest) (in_order-IsOrdered rest)

  cached-insert_ordered :
      (a k : Address Host) (id new : ℕ) (l : List (Address Host × ℕ))
      → cached (insert_ordered less a id l) k new
        ≡ (if same_address a k then (id, true) else cached l k new)
  unfolding cached insert_ordered
  cached-insert_ordered a k id new [] = refl
  cached-insert_ordered a k id new ((b, other) ∷ rest) = elim (Bool-cases (less_than less b a)) [
    | inl below ↦ rw (below, cached-insert_ordered a k id new rest) (swapped b a k below)
    | inr not_below ↦ elim (Bool-cases (less_than less a b)) [
      | inl over ↦ rw (not_below, over) refl
      | inr not_over ↦
          rw
            (not_below, not_over, same_address_congr b a k (neither_is_same a b not_below not_over))
            (twice (same_address a k))
    ]
  ]
    where
      twice :
          (s : Bool)
          → (if s then (id, true) else cached rest k new)
            ≡ (if s then (id, true) else if s then (other, true) else cached rest k new)
      twice true = refl
      twice false = refl

      swapped :
          (b a k : Address Host)
          → less_than less b a ≡ true
          → (if same_address b k
              then (other, true)
              else if same_address a k
              then (id, true)
              else cached rest k new)
            ≡ (if same_address a k
                then (id, true)
                else if same_address b k
                then (other, true)
                else cached rest k new)
      swapped b a k below = elim (Bool-cases (same_address a k)) [
        | inl here ↦ rw (here, other_differs b a k below here) refl
        | inr there ↦ rw there refl
      ]

  cached-in_order :
      (cache : List (Address Host × ℕ)) (a : Address Host) (new : ℕ)
      → cached (in_order less cache) a new ≡ cached cache a new
  unfolding in_order cached
  cached-in_order [] a new = refl
  cached-in_order ((b, id) ∷ rest) a new =
      cached-insert_ordered b a id new (in_order less rest)
      ∙ ap (λ later. if same_address b a then (id, true) else later) (cached-in_order rest a new)

  -- Nothing behind a greater key is the key.
  missed_above :
      (a b : Address Host) (rest : List (Address Host × ℕ)) (new : ℕ)
      → less_than less a b ≡ true
      → AllAbove less b rest
      → cached rest a new ≡ (new, false)
  unfolding cached
  missed_above a b [] new h above = refl
  missed_above a b ((c, id) ∷ rest) new h (more, above) =
      rw (above_differs a c (less_than_trans less order a b c h more))
        (missed_above a b rest new h above)

  find_ordered-cached :
      (cache : List (Address Host × ℕ)) (a : Address Host) (new : ℕ)
      → IsOrdered less cache
      → find_ordered less cache a new ≡ cached cache a new
  unfolding find_ordered cached
  find_ordered-cached [] a new ordered = refl
  find_ordered-cached ((b, id) ∷ rest) a new (above, ordered) =
      elim (Bool-cases (less_than less b a)) [
        | inl below ↦ rw (below, below_differs a b below) (find_ordered-cached rest a new ordered)
        | inr not_below ↦ elim (Bool-cases (less_than less a b)) [
          | inl over ↦
              rw (not_below, over, above_differs a b over)
                (sym (missed_above a b rest new over above))
          | inr not_over ↦ rw (not_below, not_over, neither_is_same a b not_below not_over) refl
        ]
      ]

  -- Inserting the entries of a cache into a list in the order of `operator<` and searching that by
  -- `operator<`, past the keys that are less and up to the first that is not, gives the socket, or
  -- the miss, that a search of the cache by `operator==` gives.
  pub find_ordered-in_order :
      (cache : List (Address Host × ℕ)) (a : Address Host) (new : ℕ)
      → find_ordered less (in_order less cache) a new ≡ cached cache a new
  find_ordered-in_order cache a new =
      find_ordered-cached (in_order less cache) a new (in_order-IsOrdered cache)
      ∙ cached-in_order cache a new
