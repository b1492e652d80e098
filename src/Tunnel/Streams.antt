-- ===== src/Tunnel/Streams.antt =====
-- The stream of one direction among the events of a relay, in lib/tcprelay.cpp.
use shadowsocks_qt.Prelude.{
  ℕ, ◌≡◌, sym, ap, ◌∙◌, List, [], ◌∷◌, ◌++◌, Bool, ok, >>=-eq-ok, >>=_assoc, ok_injective, unjoined,
  over_segments,
}
use shadowsocks_qt.Crypto.{Crypto}
use shadowsocks_qt.Encryptor.{Encryptor}
use shadowsocks_qt.Encryptor.Halves.{sealed, opposite, opposite-beside, segments_of-beside}
use shadowsocks_qt.TcpRelay.{
  Event, local_ready_read, remote_ready_read, looked_up, remote_connected, local_error,
  remote_error, local_disconnected, remote_disconnected, timeout,
}
use shadowsocks_qt.TcpRelay.Upstream.{carried, all_carried}

-- What the local socket of a relay is read, piece by piece.
abbrev pub local_pieces : {Host : Type 0} → List (Event Host) → List (List ℕ)
local_pieces [] = []
local_pieces (local_ready_read bytes ∷ events) = bytes ∷ local_pieces events
local_pieces (_ ∷ events) = local_pieces events

module _ {Pipe : Type 0} (crypto : Crypto Pipe) where
  pub one_more :
      (b : Bool) (e : Encryptor Pipe) (bytes : List ℕ) (pieces : List (List ℕ))
      (r : Encryptor Pipe × List ℕ) (t : Encryptor Pipe) (out out' : List ℕ)
      → sealed crypto b e bytes ≡ ok r
      → over_segments (sealed crypto b) r.0 pieces ≡ ok (t, out')
      → r.1 ++ out' ≡ out
      → over_segments (sealed crypto b) e (bytes ∷ pieces) ≡ ok (t, out)
  unfolding over_segments
  one_more b e bytes pieces r t out out' first later same =
      rw (first, later) (ap (λ o. ok (t, o)) same)

  -- What a relay carries in one direction is what its encryptor makes of that direction alone.
  pub pieces_of-all_carried :
      {Host : Type 0} (b : Bool) (events : List (Event Host)) (e e' : Encryptor Pipe) (out : List ℕ)
      → all_carried crypto b events e ≡ ok (e', out)
      → (t : Encryptor Pipe) × (over_segments (sealed crypto b) e (local_pieces events)
          ≡ ok (t, out))
  unfolding all_carried carried over_segments
  pieces_of-all_carried b [] e e' out done = (e', done)
  pieces_of-all_carried b (local_ready_read bytes ∷ events) e e' out done =
      let (r, first, rest) = >>=-eq-ok (sealed crypto b e bytes) _ done in
      let (m, later, is) = >>=-eq-ok (all_carried crypto b events r.0) _ rest in
      let (t, ran) = pieces_of-all_carried b events r.0 m.0 m.1 later in
      (
        t,
        one_more b e bytes (local_pieces events) r t out m.1 first ran
            (ap (λ (p : Encryptor Pipe × List ℕ). p.1) (ok_injective is)),
      )
  pieces_of-all_carried b (remote_ready_read bytes ∷ events) e e' out done =
      let (r, first, rest) =
        >>=-eq-ok (opposite crypto b e bytes) _
          (sym (>>=_assoc (opposite crypto b e bytes) _ _) ∙ done) in
      let (h, changed) = opposite-beside crypto b e bytes first in
      let (t, ran) =
        pieces_of-all_carried b events r.0 e' out
          (sym (unjoined (all_carried crypto b events r.0)) ∙ rest) in
      segments_of-beside crypto b h e (local_pieces events)
        (ap (λ s. over_segments (sealed crypto b) s (local_pieces events)) (sym changed) ∙ ran)
  pieces_of-all_carried b (looked_up which answer ∷ events) e e' out done =
      pieces_of-all_carried b events e e' out
        (sym (unjoined (all_carried crypto b events e)) ∙ done)
  pieces_of-all_carried b (remote_connected ∷ events) e e' out done =
      pieces_of-all_carried b events e e' out
        (sym (unjoined (all_carried crypto b events e)) ∙ done)
  pieces_of-all_carried b (local_error x ∷ events) e e' out done =
      pieces_of-all_carried b events e e' out
        (sym (unjoined (all_carried crypto b events e)) ∙ done)
  pieces_of-all_carried b (remote_error x ∷ events) e e' out done =
      pieces_of-all_carried b events e e' out
        (sym (unjoined (all_carried crypto b events e)) ∙ done)
  pieces_of-all_carried b (local_disconnected ∷ events) e e' out done =
      pieces_of-all_carried b events e e' out
        (sym (unjoined (all_carried crypto b events e)) ∙ done)
  pieces_of-all_carried b (remote_disconnected ∷ events) e e' out done =
      pieces_of-all_carried b events e e' out
        (sym (unjoined (all_carried crypto b events e)) ∙ done)
  pieces_of-all_carried b (timeout ∷ events) e e' out done =
      pieces_of-all_carried b events e e' out
        (sym (unjoined (all_carried crypto b events e)) ∙ done)
