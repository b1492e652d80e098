-- ===== src/UdpRelay/Replies.antt =====
-- The cache of client sockets in lib/udprelay.cpp.
use shadowsocks_qt.Prelude.{
  ℕ, suc, ◌<◌, ◌≡◌, refl, List, [], ◌∷◌, true, false, Bool-cases, inl, inr, ◌==◌, ==_refl, arith,
}
use shadowsocks_qt.Address.{Address, same_address}
use shadowsocks_qt.Address.Order.{same_self}
use shadowsocks_qt.UdpRelay.{UdpRelay, cached, key_of, client_of}

-- No entry has this socket.
unfoldable pub IsAbsent : {Host : Type 0} → ℕ → List (Address Host × ℕ) → Type 0
IsAbsent id [] = Unit
IsAbsent id ((a, other) ∷ rest) = ((id == other) ≡ false) × IsAbsent id rest

-- Every socket was made before the next one, and no two entries share one.
unfoldable pub IsSoundCache : {Host : Type 0} → ℕ → List (Address Host × ℕ) → Type 0
unfolding IsAbsent
IsSoundCache next [] = Unit
IsSoundCache next ((a, id) ∷ rest) = (id < next) × (IsAbsent id rest × IsSoundCache next rest)

abbrev pub IsSound : {Host Pipe : Type 0} → UdpRelay Host Pipe → Type 0
IsSound s = IsSoundCache s.next_socket s.cache

-- A hit is an entry that is there, so it is not an absent socket.
hit_present :
    {Host : Type 0} (id new : ℕ) (cache : List (Address Host × ℕ)) (a : Address Host)
    → IsAbsent id cache
    → (cached cache a new).1 ≡ true
    → (id == (cached cache a new).0) ≡ false
unfolding IsAbsent cached
hit_present id new [] a absent hit = cc
hit_present id new ((b, other) ∷ rest) a absent hit = elim (Bool-cases (same_address b a)) [
  | inl here ↦ rw here absent.0
  | inr there ↦ rw there (hit_present id new rest a absent.1 (rw there at hit))
]

found_key :
    {Host : Type 0} (next new : ℕ) (cache : List (Address Host × ℕ)) (a : Address Host)
    → IsSoundCache next cache
    → (cached cache a new).1 ≡ true
    → same_address (key_of cache (cached cache a new).0) a ≡ true
unfolding IsSoundCache cached key_of
found_key next new [] a sound hit = cc
found_key next new ((b, id) ∷ rest) a (below, (absent, sound)) hit =
    elim (Bool-cases (same_address b a)) [
      | inl here ↦ rw here (rw (==_refl id) here)
      | inr there ↦
          let later = rw there at hit in
          rw there
            (rw (hit_present id new rest a absent later) (found_key next new rest a sound later))
    ]

missed :
    {Host : Type 0} (cache : List (Address Host × ℕ)) (a : Address Host) (new : ℕ)
    → (cached cache a new).1 ≡ false
    → (cached cache a new).0 ≡ new
unfolding cached
missed [] a new miss = refl
missed ((b, id) ∷ rest) a new miss = elim (Bool-cases (same_address b a)) [
  | inl here ↦ absurd (ground (arith, rw here at miss))
  | inr there ↦ rw there (missed rest a new (rw there at miss))
]

below-IsAbsent :
    {Host : Type 0} (next : ℕ) (cache : List (Address Host × ℕ))
    → IsSoundCache next cache
    → IsAbsent next cache
unfolding IsSoundCache IsAbsent
below-IsAbsent next [] sound = tt
below-IsAbsent next ((a, id) ∷ rest) (below, (absent, sound)) =
    (ground (arith, below), below-IsAbsent next rest sound)

later-IsSoundCache :
    {Host : Type 0} (next : ℕ) (cache : List (Address Host × ℕ))
    → IsSoundCache next cache
    → IsSoundCache (suc next) cache
unfolding IsSoundCache
later-IsSoundCache next [] sound = tt
later-IsSoundCache next ((a, id) ∷ rest) (below, (absent, sound)) =
    (omega (arith, below), (absent, later-IsSoundCache next rest sound))

-- In a cache of sockets made before the next one, of which no two entries share one, the socket
-- that a relay uses for a client is known under the name and port of that client, and the cache
-- stays such a cache.
pub key_of-client_of :
    {Host Pipe : Type 0} (s : UdpRelay Host Pipe) (a : Address Host)
    → IsSound s
    → let client = client_of a s in
      (same_address (key_of client.1.cache client.0) a ≡ true) × IsSound client.1
unfolding client_of IsSoundCache key_of
key_of-client_of s a sound = elim (Bool-cases (cached s.cache a s.next_socket).1) [
  | inl hit ↦ rw hit (found_key s.next_socket s.next_socket s.cache a sound hit, sound)
  | inr miss ↦
      rw (miss, missed s.cache a s.next_socket miss)
        (
          rw (==_refl s.next_socket) (same_self a),
          (
            omega arith,
            (
              below-IsAbsent s.next_socket s.cache sound,
              later-IsSoundCache s.next_socket s.cache sound,
            ),
          ),
        )
]
