-- ===== src/TcpServer/Covered.antt =====
-- The destroyed relays of the server of lib/tcpserver.cpp: each waits for its `finished`.
use shadowsocks_qt.Prelude.{
  ℕ, suc, ◌<◌, ◌≡◌, refl, sym, subst, List, [], ◌∷◌, ◌++◌, Bool, false, not, ◌&&◌, ◌||◌, ◌==◌,
  ==_iff, if_elim, Bool-cases, inl, inr, some, Option, arith, if_true, if_false, ◌∙◌,
}
use shadowsocks_qt.TcpRelay.{TcpRelay, is_destroyed}
use shadowsocks_qt.TcpServer.{find, remove_one, replace}
use shadowsocks_qt.TcpServer.Lists.{Within}
use shadowsocks_qt.TcpServer.Delivered.{is_posted}

module _ {Host Pipe : Type 0} where
  -- A destroyed relay whose `finished` does not wait.
  abbrev pub is_forgotten : ℕ → TcpRelay Host Pipe → List ℕ → Bool
  is_forgotten id con ids = is_destroyed con.stage && not (is_posted id ids)

  abbrev pub AreCovered : List ℕ → List (ℕ × TcpRelay Host Pipe) → Type 0
  AreCovered ids [] = Unit
  AreCovered ids ((id, con) ∷ l) = (is_forgotten id con ids ≡ false) × AreCovered ids l

pub is_posted-append :
    (id : ℕ) (ids more : List ℕ)
    → is_posted id (ids ++ more) ≡ (is_posted id ids || is_posted id more)
is_posted-append id [] more = refl
is_posted-append id (j ∷ ids) more = ground (arith, is_posted-append id ids more)

module _ {Host Pipe : Type 0} where
  pub AreCovered-append :
      (ids : List ℕ) (id : ℕ) (con : TcpRelay Host Pipe) (l : List (ℕ × TcpRelay Host Pipe))
      → AreCovered ids l
      → is_forgotten id con ids ≡ false
      → AreCovered ids (l ++ (id, con) ∷ [])
  AreCovered-append ids id con [] h new = (new, tt)
  AreCovered-append ids id con ((j, other) ∷ l) h new =
      (h.0, AreCovered-append ids id con l h.1 new)

  pub AreCovered-more :
      (ids more : List ℕ) (l : List (ℕ × TcpRelay Host Pipe))
      → AreCovered ids l
      → AreCovered (ids ++ more) l
  AreCovered-more ids more [] h = tt
  AreCovered-more ids more ((j, con) ∷ l) h =
      (ground (arith, h.0, is_posted-append j ids more), AreCovered-more ids more l h.1)

  pub AreCovered-replace :
      (ids : List ℕ) (id : ℕ) (con : TcpRelay Host Pipe) (l : List (ℕ × TcpRelay Host Pipe))
      → AreCovered ids l
      → is_forgotten id con ids ≡ false
      → AreCovered ids (replace id con l)
  AreCovered-replace ids id con [] h new = tt
  AreCovered-replace ids id con ((j, other) ∷ l) h new =
      if_elim (AreCovered ids) (j == id)
        (λ e. (subst (λ k. is_forgotten k con ids ≡ false) (sym ((==_iff j id).0 e)) new, h.1))
        (λ _. (h.0, AreCovered-replace ids id con l h.1 new))

  -- A post of no relay of the list.
  unposted :
      (lo hi id : ℕ) (ids : List ℕ) (l : List (ℕ × TcpRelay Host Pipe))
      → id < lo
      → Within lo hi l
      → AreCovered (id ∷ ids) l
      → AreCovered ids l
  unposted lo hi id ids [] lt w h = tt
  unposted lo hi id ids ((j, con) ∷ l) lt w h =
      (ground (arith, h.0, lt, w.0), unposted (suc j) hi id ids l (omega (arith, lt, w.0)) w.1 h.1)

  -- The relay of the next post is no longer needed.
  pub AreCovered-remove :
      (lo hi id : ℕ) (ids : List ℕ) (l : List (ℕ × TcpRelay Host Pipe))
      → Within lo hi l
      → AreCovered (id ∷ ids) l
      → AreCovered ids (remove_one id l)
  AreCovered-remove lo hi id ids [] w h = tt
  AreCovered-remove lo hi id ids ((j, con) ∷ l) w h =
      if_elim (AreCovered ids) (j == id)
        (λ e. unposted (suc j) hi id ids l (ground (arith, e)) w.1 h.1)
        (λ e. (ground (arith, e, h.0), AreCovered-remove (suc j) hi id ids l w.1 h.1))

  some_injective :
      {a b : TcpRelay Host Pipe} → ◌≡◌ {A = Option (TcpRelay Host Pipe)} (some a) (some b) → a ≡ b
  some_injective h = cc

  pub find-AreCovered :
      (ids : List ℕ) (id : ℕ) (con : TcpRelay Host Pipe) (l : List (ℕ × TcpRelay Host Pipe))
      → AreCovered ids l
      → find id l ≡ some con
      → is_forgotten id con ids ≡ false
  find-AreCovered ids id con [] h e = cc
  find-AreCovered ids id con ((j, other) ∷ l) h e = elim (Bool-cases (j == id)) [
    | inl y ↦
        subst (λ k. is_forgotten k con ids ≡ false) ((==_iff j id).0 y)
          (subst (λ k. is_forgotten j k ids ≡ false)
            (some_injective (sym (if_true y (some other) (find id l)) ∙ e)) h.0)
    | inr n ↦ find-AreCovered ids id con l h.1 (sym (if_false n (some other) (find id l)) ∙ e)
  ]
