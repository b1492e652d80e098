-- ===== src/Common/Ban.antt =====
-- `banAddress` and `isAddressBanned` of lib/common.cpp. The vector is the state that they share,
-- and each of them holds the mutex for its whole body, so each is one step.
use shadowsocks_qt.Prelude.{◌≡◌, refl, List, [], ◌∷◌, ◌++◌, Bool, true, false, ◌||◌, arith}
use shadowsocks_qt.Qt.{Qt}

module _ {Host : Type 0} (q : Qt Host) where
  unfoldable pub contains : List Host → Host → Bool
  contains [] h = false
  contains (x ∷ xs) h = q.same_host x h || contains xs h

  unfoldable pub ban_address : Host → List Host → List Host
  ban_address h banned = banned ++ h ∷ []

  unfoldable pub is_address_banned : Host → List Host → Bool
  unfolding contains
  is_address_banned h banned = contains banned h

  contains-append :
      (xs ys : List Host) (h : Host) → contains (xs ++ ys) h ≡ contains xs h || contains ys h
  unfolding contains
  contains-append [] ys h = refl
  contains-append (x ∷ xs) ys h = ground (arith, contains-append xs ys h)

  -- Banning an address bans it, and what equals it, and no other address.
  pub is_address_banned-ban_address :
      (h k : Host) (banned : List Host)
      → is_address_banned k (ban_address h banned) ≡ is_address_banned k banned || q.same_host h k
  unfolding is_address_banned ban_address contains
  is_address_banned-ban_address h k banned = ground (arith, contains-append banned (h ∷ []) k)

  -- Nothing that is banned later lets a banned address in.
  pub still_banned :
      (h k : Host) (banned : List Host)
      → is_address_banned h banned ≡ true
      → is_address_banned h (ban_address k banned) ≡ true
  still_banned h k banned known = rw (is_address_banned-ban_address k h banned, known) refl
