-- ===== src/TcpServer/Turns.antt =====
-- The turn of the worker threads of lib/tcpserver.cpp, as a sequence of numbers.
use shadowsocks_qt.Prelude.{
  ℕ, zero, suc, ◌+◌, ◌%◌, ◌≡◌, refl, sym, subst, ap, ap₂, ◌∙◌, List, [], ◌∷◌, ◌++◌, length,
  length-append, arith,
}
use native.Mathlib.Nat.{mod-mod, mod-add-mod, mod-eq_of_lt}
use shadowsocks_qt.TcpServer.{TcpServer, State, ServerEffect, refused, moved_to, deleted, of_relay}
use shadowsocks_qt.TcpServer.Relays.{IsSound}

-- The threads that relays are given to, in order.
unfoldable pub assigned : {Host : Type 0} → List (ServerEffect Host) → List ℕ
assigned [] = []
assigned (moved_to id thread ∷ es) = thread ∷ assigned es
assigned (_ ∷ es) = assigned es

-- So many threads of `total`, one after the other and around, from `i` on.
unfoldable pub around : ℕ → ℕ → ℕ → List ℕ
around total i zero = []
around total i (suc n) = i % total ∷ around total (i + 1) n

module _ {Host : Type 0} where
  pub assigned-append :
      (xs ys : List (ServerEffect Host)) → assigned (xs ++ ys) ≡ assigned xs ++ assigned ys
  unfolding assigned
  assigned-append [] ys = refl
  assigned-append (moved_to id thread ∷ es) ys = ap (◌∷◌ thread) (assigned-append es ys)
  assigned-append (refused ∷ es) ys = assigned-append es ys
  assigned-append (deleted id ∷ es) ys = assigned-append es ys
  assigned-append (of_relay id e ∷ es) ys = assigned-append es ys

around-add : (total i m n : ℕ) → around total i (m + n) ≡ around total i m ++ around total (i + m) n
unfolding around
around-add total i zero n =
    let e : 0 + n ≡ n = omega arith in let f : i ≡ i + 0 = omega arith in ap₂ (around total) f e
around-add total i (suc m) n =
    let e : suc m + n ≡ suc (m + n) = omega arith in
    let f : i + 1 + m ≡ i + suc m = omega arith in
    ap (around total i) e
    ∙ ap (◌∷◌ (i % total))
        (around-add total (i + 1) m n ∙ ap (λ k. around total (i + 1) m ++ around total k n) f)

around-mod : (total i n : ℕ) → around total (i % total) n ≡ around total i n
unfolding around
around-mod total i zero = refl
around-mod total i (suc n) = ap₂ ◌∷◌ (mod-mod i total) (
    sym (around-mod total (i % total + 1) n)
    ∙ ap (λ k. around total k n) (mod-add-mod i total 1)
    ∙ around-mod total (i + 1) n)

-- Two stretches, of which the second starts behind the first.
around-append :
    (total i j : ℕ) (xs ys : List ℕ)
    → xs ≡ around total i (length xs)
    → j ≡ (i + length xs) % total
    → ys ≡ around total j (length ys)
    → xs ++ ys ≡ around total i (length (xs ++ ys))
around-append total i j xs ys h e k =
    ap₂ ◌++◌ h
      (k ∙ ap (λ w. around total w (length ys)) e ∙ around-mod total (i + length xs) (length ys))
    ∙ sym (around-add total i (length xs) (length ys))
    ∙ ap (around total i) (sym (length-append xs ys))

ends_behind :
    (total i j : ℕ) (xs ys : List ℕ)
    → j ≡ (i + length xs) % total
    → (j + length ys) % total ≡ (i + length (xs ++ ys)) % total
ends_behind total i j xs ys e =
    let sums : i + length xs + length ys ≡ i + length (xs ++ ys) =
      omega (arith, length-append xs ys) in
    ap (λ k. (k + length ys) % total) e
    ∙ mod-add-mod (i + length xs) total (length ys)
    ∙ ap (λ k. k % total) sums

module _ {Host Pipe : Type 0} where
  -- The threads that are assigned are the next ones around, and the worker moves on behind them.
  abbrev pub Advances : TcpServer Host Pipe → State Host Pipe → Type 0
  Advances s r =
      (assigned r.2 ≡ around s.total_workers s.worker_thread_id (length (assigned r.2)))
      × (r.0.worker_thread_id ≡ (s.worker_thread_id + length (assigned r.2)) % s.total_workers)
      × (r.0.total_workers ≡ s.total_workers)

  -- Nothing is assigned.
  pub rests :
      (s : TcpServer Host Pipe) (r : State Host Pipe)
      → IsSound s
      → assigned r.2 ≡ []
      → r.0.worker_thread_id ≡ s.worker_thread_id
      → r.0.total_workers ≡ s.total_workers
      → Advances s r
  unfolding around
  rests s r sound nothing same total =
      subst
        (λ (l : List ℕ).
          (l ≡ around s.total_workers s.worker_thread_id (length l))
          × (r.0.worker_thread_id ≡ (s.worker_thread_id + length l) % s.total_workers)
          × (r.0.total_workers ≡ s.total_workers))
        (sym nothing) (refl, stays, total)
    where
      stays : r.0.worker_thread_id ≡ (s.worker_thread_id + 0) % s.total_workers
      stays =
          let e : s.worker_thread_id ≡ s.worker_thread_id + 0 = omega arith in
          same ∙ sym (mod-eq_of_lt (sound.0)) ∙ ap (λ w. w % s.total_workers) e

  pub both :
      (s : TcpServer Host Pipe) (first rest : State Host Pipe)
      → Advances s first
      → Advances first.0 rest
      → Advances s (rest.0, rest.1, first.2 ++ rest.2)
  both s first rest h k =
      let total = s.total_workers in
      let w = s.worker_thread_id in
      let w' = first.0.worker_thread_id in
      let xs = assigned first.2 in
      let ys = assigned rest.2 in
      subst
        (λ (l : List ℕ).
          (l ≡ around total w (length l))
          × (rest.0.worker_thread_id ≡ (w + length l) % total)
          × (rest.0.total_workers ≡ total))
        (sym (assigned-append first.2 rest.2))
        (
          around-append total w w' xs ys h.0 h.1 (k.0 ∙ ap (λ t. around t w' (length ys)) h.2),
          k.1 ∙ ap (λ t. (w' + length ys) % t) h.2 ∙ ends_behind total w w' xs ys h.1,
          k.2 ∙ h.2,
        )
