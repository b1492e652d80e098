-- ===== src/TcpServer/Delivered.antt =====
-- What the effects of a relay leave in the server of lib/tcpserver.cpp.
use shadowsocks_qt.Prelude.{
  ℕ, ◌<◌, ◌≡◌, refl, sym, ap, ◌∙◌, List, [], ◌∷◌, ◌++◌, append-nil, append_assoc, Bool, true, false,
  ◌||◌, ◌==◌, Bool-cases, inl, inr, arith,
}
use shadowsocks_qt.Qt.{Qt}
use shadowsocks_qt.TcpRelay.{
  Effect, finished, ban, info, debug, local_write, remote_write, local_close, remote_close, resolve,
  connect_to, bytes_read, latency_available, timer_start,
}
use shadowsocks_qt.TcpRelay.Balances.{finishes}
use shadowsocks_qt.TcpServer.{
  TcpServer, has, remove_one, on_connection_finished, on_effect, deliver,
}
use shadowsocks_qt.TcpServer.Lists.{remove_absent}

module _ {Host Pipe : Type 0} where
  pub finished-eq :
      (id : ℕ) (s : TcpServer Host Pipe)
      → (on_connection_finished id s).0 ≡ record s { con_list = remove_one id s.con_list }
  unfolding on_connection_finished
  finished-eq id s = elim (Bool-cases (has id s.con_list)) [
    | inl there ↦ rw there refl
    | inr absent ↦ rw absent (rw (remove_absent id s.con_list absent) refl)
  ]

-- The posts of a relay.
abbrev pub posts : {Host : Type 0} → ℕ → List (Effect Host) → List ℕ
posts id [] = []
posts id (finished ∷ es) = id ∷ posts id es
posts id (_ ∷ es) = posts id es

abbrev pub is_posted : ℕ → List ℕ → Bool
is_posted id [] = false
is_posted id (j ∷ ids) = j == id || is_posted id ids

-- A relay that has emitted `finished` is posted.
pub is_posted-posts :
    {Host : Type 0} (id : ℕ) (es : List (Effect Host))
    → 0 < finishes es
    → is_posted id (posts id es) ≡ true
unfolding finishes
is_posted-posts id [] h = absurd (omega (arith, h))
is_posted-posts id (finished ∷ es) h = ground arith
is_posted-posts id (info ∷ es) h = is_posted-posts id es h
is_posted-posts id (debug ∷ es) h = is_posted-posts id es h
is_posted-posts id (local_write bytes ∷ es) h = is_posted-posts id es h
is_posted-posts id (remote_write bytes ∷ es) h = is_posted-posts id es h
is_posted-posts id (local_close ∷ es) h = is_posted-posts id es h
is_posted-posts id (remote_close ∷ es) h = is_posted-posts id es h
is_posted-posts id (ban k ∷ es) h = is_posted-posts id es h
is_posted-posts id (resolve w name ∷ es) h = is_posted-posts id es h
is_posted-posts id (connect_to k p ∷ es) h = is_posted-posts id es h
is_posted-posts id (bytes_read n ∷ es) h = is_posted-posts id es h
is_posted-posts id (latency_available ∷ es) h = is_posted-posts id es h
is_posted-posts id (timer_start ∷ es) h = is_posted-posts id es h

posts-cons :
    {Host : Type 0} (id : ℕ) (e : Effect Host) (es : List (Effect Host))
    → posts id (e ∷ es) ≡ posts id (e ∷ []) ++ posts id es
posts-cons id finished es = refl
posts-cons id info es = refl
posts-cons id debug es = refl
posts-cons id (local_write bytes) es = refl
posts-cons id (remote_write bytes) es = refl
posts-cons id local_close es = refl
posts-cons id remote_close es = refl
posts-cons id (ban h) es = refl
posts-cons id (resolve w name) es = refl
posts-cons id (connect_to h p) es = refl
posts-cons id (bytes_read n) es = refl
posts-cons id latency_available es = refl
posts-cons id timer_start es = refl

module _ {Host Pipe : Type 0} where
  same_posts : (s : TcpServer Host Pipe) → s ≡ record s { posted = s.posted ++ [] }
  same_posts s =
      ap {B = TcpServer Host Pipe} (λ l. record s { posted = l }) (sym (append-nil s.posted))

module _ {Host Pipe : Type 0} (q : Qt Host) where
  effect-eq :
      (id : ℕ) (e : Effect Host) (banned : List Host) (s : TcpServer Host Pipe)
      → (on_effect q id e banned s).0 ≡ record s { posted = s.posted ++ posts id (e ∷ []) }
  unfolding on_effect
  effect-eq id finished banned s = refl
  effect-eq id info banned s = same_posts s
  effect-eq id debug banned s = same_posts s
  effect-eq id (local_write bytes) banned s = same_posts s
  effect-eq id (remote_write bytes) banned s = same_posts s
  effect-eq id local_close banned s = same_posts s
  effect-eq id remote_close banned s = same_posts s
  effect-eq id (ban h) banned s = same_posts s
  effect-eq id (resolve w name) banned s = same_posts s
  effect-eq id (connect_to h p) banned s = same_posts s
  effect-eq id (bytes_read n) banned s = same_posts s
  effect-eq id latency_available banned s = same_posts s
  effect-eq id timer_start banned s = same_posts s

  pub deliver-eq :
      (id : ℕ) (es : List (Effect Host)) (banned : List Host) (s : TcpServer Host Pipe)
      → (deliver q id es banned s).0 ≡ record s { posted = s.posted ++ posts id es }
  unfolding deliver
  deliver-eq id [] banned s =
      ap {B = TcpServer Host Pipe} (λ l. record s { posted = l }) (sym (append-nil s.posted))
  deliver-eq id (e ∷ es) banned s =
      let first = on_effect q id e banned s in
      deliver-eq id es first.1 first.0
      ∙ ap {A = TcpServer Host Pipe} (λ t. record t { posted = t.posted ++ posts id es })
          (effect-eq id e banned s)
      ∙ ap {B = TcpServer Host Pipe} (λ l. record s { posted = l })
          (append_assoc s.posted (posts id (e ∷ [])) (posts id es)
            ∙ ap (λ l. s.posted ++ l) (sym (posts-cons id e es)))
