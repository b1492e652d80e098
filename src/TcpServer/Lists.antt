-- ===== src/TcpServer/Lists.antt =====
-- Lists of relays by their identities: removals and changes of the `conList` of lib/tcpserver.cpp.
use shadowsocks_qt.Prelude.{
  ℕ, zero, suc, ◌+◌, ◌≤◌, ◌<◌, ◌≡◌, refl, List, [], ◌∷◌, ◌++◌, false, ◌==◌, if_elim, some, arith,
  get_elem?, length, Returns, or_fail, Failure,
}
use shadowsocks_qt.TcpServer.{has, remove_one, replace}

module _ {V : Type 0} where
  -- The identities grow, from `lo` on and below `hi`.
  abbrev pub Within : ℕ → ℕ → List (ℕ × V) → Type 0
  Within lo hi [] = lo ≤ hi
  Within lo hi ((id, v) ∷ l) = (lo ≤ id) × Within (suc id) hi l

  pub remove_absent : (id : ℕ) (l : List (ℕ × V)) → has id l ≡ false → remove_one id l ≡ l
  remove_absent id [] h = refl
  remove_absent id ((j, v) ∷ l) h = ground (arith, remove_absent id l)

  weaker : (lo lo' hi : ℕ) (l : List (ℕ × V)) → lo' ≤ lo → Within lo hi l → Within lo' hi l
  weaker lo lo' hi [] le h = omega arith
  weaker lo lo' hi ((j, v) ∷ l) le h = (omega (arith, h.0), h.1)

  pub Within-append :
      (lo hi : ℕ) (v : V) (l : List (ℕ × V))
      → Within lo hi l
      → Within lo (hi + 1) (l ++ (hi, v) ∷ [])
  Within-append lo hi v [] h = (h, omega arith)
  Within-append lo hi v ((j, w) ∷ l) h = (h.0, Within-append (suc j) hi v l h.1)

  pub Within-remove :
      (lo hi id : ℕ) (l : List (ℕ × V)) → Within lo hi l → Within lo hi (remove_one id l)
  Within-remove lo hi id [] h = h
  Within-remove lo hi id ((j, v) ∷ l) h =
      if_elim (Within lo hi) (j == id) (λ _. weaker (suc j) lo hi l (omega (arith, h.0)) h.1)
        (λ _. (h.0, Within-remove (suc j) hi id l h.1))

  pub Within-replace :
      (lo hi id : ℕ) (v : V) (l : List (ℕ × V)) → Within lo hi l → Within lo hi (replace id v l)
  Within-replace lo hi id v [] h = h
  Within-replace lo hi id v ((j, w) ∷ l) h =
      if_elim (Within lo hi) (j == id) (λ _. h) (λ _. (h.0, Within-replace (suc j) hi id v l h.1))

-- A read within a list returns.
pub or_fail-get_elem? {ℓ} :
    {A : Type ℓ} (xs : List A) (i : ℕ) (why : Failure)
    → i < length xs
    → Returns (λ x. get_elem? xs i ≡ some x) (or_fail (get_elem? xs i) why)
or_fail-get_elem? [] i why h = absurd (omega arith)
or_fail-get_elem? (x ∷ xs) zero why h = refl
or_fail-get_elem? (x ∷ xs) (suc i) why h = or_fail-get_elem? xs i why (omega arith)
