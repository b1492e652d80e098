-- ===== src/Prelude/Segments.antt =====
-- A stream processed in segments: a step of a state on a segment, repeated, with the outputs joined.
use mathlib.Core.Path.{◌≡◌, refl, sym, ap, ◌∙◌}
use mathlib.Core.List.{List, [], ◌∷◌, ◌++◌, append_assoc}
use shadowsocks_qt.Prelude.Results.{Result, ok, err, ◌>>=◌, >>=_assoc, >>=_cong}
use Prim.Native.Nat.{ℕ}

abbrev pub joined {ℓ} : {S : Type ℓ} → List ℕ → S × List ℕ → Result (S × List ℕ)
joined out r = ok (r.0, out ++ r.1)

-- The same step seen from another state.
abbrev pub lifted {ℓ κ} : {S : Type ℓ} {T : Type κ} → (S → T) → S × List ℕ → Result (T × List ℕ)
lifted w r = ok (w r.0, r.1)

unfoldable pub over_segments {ℓ} :
    {S : Type ℓ} → (S → List ℕ → Result (S × List ℕ)) → S → List (List ℕ) → Result (S × List ℕ)
over_segments step s [] = ok (s, [])
over_segments step s (xs ∷ rest) = step s xs >>= λ r. (over_segments step r.0 rest >>= joined r.1)

pub lifted-joined {ℓ κ} :
    {S : Type ℓ} {T : Type κ} (w : S → T) (out : List ℕ) (m : Result (S × List ℕ))
    → ((m >>= lifted w) >>= joined out) ≡ ((m >>= joined out) >>= lifted w)
lifted-joined w out (ok r) = refl
lifted-joined w out (err e) = refl

lifted_rest {ℓ κ} :
    {S : Type ℓ} {T : Type κ} (w : S → T) (m : Result (S × List ℕ)) (f : S → Result (S × List ℕ))
    (g : T → Result (T × List ℕ))
    → ((s : S) → g (w s) ≡ (f s >>= lifted w))
    → ((m >>= lifted w) >>= λ r. (g r.0 >>= joined r.1))
      ≡ ((m >>= λ r. (f r.0 >>= joined r.1)) >>= lifted w)
lifted_rest w (err e) f g h = refl
lifted_rest w (ok r) f g h = rw (h r.0) (lifted-joined w r.1 (f r.0))

-- Steps that agree through `w` agree on every stream.
pub over_segments-lifted {ℓ κ} :
    {S : Type ℓ} {T : Type κ} (w : S → T) (step : S → List ℕ → Result (S × List ℕ))
    (step' : T → List ℕ → Result (T × List ℕ))
    → ((s : S) (xs : List ℕ) → step' (w s) xs ≡ (step s xs >>= lifted w))
    → (s : S) (segments : List (List ℕ))
    → over_segments step' (w s) segments ≡ (over_segments step s segments >>= lifted w)
unfolding over_segments
over_segments-lifted w step step' h s [] = refl
over_segments-lifted w step step' h s (xs ∷ rest) = rw (h s xs) (
    lifted_rest w (step s xs) (λ t. over_segments step t rest) (λ t. over_segments step' t rest)
      (λ t. over_segments-lifted w step step' h t rest))

pub unjoined {ℓ} : {S : Type ℓ} (m : Result (S × List ℕ)) → (m >>= joined []) ≡ m
unjoined (ok r) = refl
unjoined (err e) = refl

joined_twice {ℓ} :
    {S : Type ℓ} (out out' : List ℕ) (m : Result (S × List ℕ))
    → ((m >>= joined out') >>= joined out) ≡ (m >>= joined (out ++ out'))
joined_twice out out' (ok r) = ap (λ o. ok (r.0, o)) (sym (append_assoc out out' r.1))
joined_twice out out' (err e) = refl

-- A stream and one more segment.
pub over_segments-append {ℓ} :
    {S : Type ℓ} (step : S → List ℕ → Result (S × List ℕ)) (s : S) (segments more : List (List ℕ))
    → over_segments step s (segments ++ more)
      ≡ (over_segments step s segments >>= λ r. (over_segments step r.0 more >>= joined r.1))
unfolding over_segments
over_segments-append step s [] more = sym (unjoined (over_segments step s more))
over_segments-append step s (xs ∷ rest) more =
    >>=_cong (step s xs) _ _ (λ r.
      ap (λ m. m >>= joined r.1) (over_segments-append step r.0 rest more)
      ∙ >>=_assoc (over_segments step r.0 rest) _ (joined r.1)
      ∙ >>=_cong (over_segments step r.0 rest) _ _
          (λ t. joined_twice r.1 t.1 (over_segments step t.0 more))
      ∙ sym (>>=_assoc (over_segments step r.0 rest) (joined r.1) _))
    ∙ sym (>>=_assoc (step s xs) _ _)
