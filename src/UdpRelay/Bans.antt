-- ===== src/UdpRelay/Bans.antt =====
-- A banned host stays banned for the UDP relay of lib/udprelay.cpp, whatever comes to it.
use shadowsocks_qt.Prelude.{
  ℕ, ◌≡◌, refl, List, [], ◌∷◌, ◌++◌, Bool, true, false, not, ◌&&◌, ◌==◌, Bool-cases, inl, inr, ltb,
  length, if◌then◌else◌, if_elim, ok, Ensures, Ensures-bind, Ensures-bind_of, drop, get_or,
}
use shadowsocks_qt.Qt.{Qt}
use shadowsocks_qt.Crypto.{Crypto}
use shadowsocks_qt.Address.{Address, no_address, of_host}
use shadowsocks_qt.Common.Ban.{ban_address, is_address_banned, still_banned}
use shadowsocks_qt.Common.Header.{parse_header, pack_host}
use shadowsocks_qt.Encryptor
use shadowsocks_qt.Encryptor.{encrypt_all, decrypt_all}
use shadowsocks_qt.UdpRelay.{
  UdpRelay, info, debug, bytes_read, remote_recv_size, cached, client_of, close, on_request,
  on_client_disconnected, on_server_udp_socket_ready_read, on_client_udp_socket_ready_read,
}

module _ {Host : Type 0} (q : Qt Host) (h : Host) where
  malformed-IsBarred :
      (k : Host) (is_local auto_ban : Bool) (banned : List Host)
      → is_address_banned q h banned ≡ true
      → is_address_banned q h (if not is_local && auto_ban then ban_address q k banned else banned)
        ≡ true
  malformed-IsBarred k is_local auto_ban banned known =
      if_elim (λ v. is_address_banned q h v ≡ true) (not is_local && auto_ban)
        (λ _. still_banned q h k banned known) (λ _. known)

module _ {Host Pipe : Type 0} (q : Qt Host) (h : Host) where
  -- A UDP relay of a server that drops what the host sends.
  abbrev pub IsBarred : UdpRelay Host Pipe → Type 0
  IsBarred s = (s.is_local ≡ false) × (s.auto_ban ≡ true) × (is_address_banned q h s.banned ≡ true)

  client-IsBarred :
      (a : Address Host) (s : UdpRelay Host Pipe) → IsBarred s → IsBarred (client_of a s).1
  unfolding client_of
  client-IsBarred a s b = elim (Bool-cases (cached s.cache a s.next_socket).1) [
    | inl hit ↦ rw hit b
    | inr miss ↦ rw miss b
  ]

  pub disconnected-IsBarred :
      (id : ℕ) (s : UdpRelay Host Pipe) → IsBarred s → IsBarred (on_client_disconnected id s).0
  unfolding on_client_disconnected
  disconnected-IsBarred id s b = b

  pub close-IsBarred :
      (drawn : List ℕ) (s : UdpRelay Host Pipe)
      → IsBarred s
      → Ensures (λ r. IsBarred r.0) (close drawn s)
  unfolding close
  close-IsBarred drawn s b =
      Ensures-bind (λ r. IsBarred r.0) (Encryptor.reset s.encryptor drawn) _ (λ e. b)

  module _ (crypto : Crypto Pipe) (from_name : List ℕ → List Host) where
    request-IsBarred :
        (drawn input : List ℕ) (k : Host) (p : ℕ) (s : UdpRelay Host Pipe)
        → IsBarred s
        → Ensures (λ r. IsBarred r.0) (on_request q crypto from_name drawn input k p s)
    unfolding on_request
    request-IsBarred drawn input k p s b =
        Ensures-bind (λ r. IsBarred r.0) (parse_header q input no_address) _
          (λ parsed.
            let served = client-IsBarred (of_host q k p) s b in
            if_elim (Ensures (λ r. IsBarred r.0)) (parsed.1 == 0)
              (λ _. (b.0, b.1, malformed-IsBarred q h k s.is_local s.auto_ban s.banned b.2))
              (λ _.
                if_elim (Ensures (λ r. IsBarred r.0)) s.is_local
                  (λ _.
                    Ensures-bind (λ r. IsBarred r.0)
                      (encrypt_all crypto (client_of (of_host q k p) s).1.encryptor drawn input) _
                      (λ r. served))
                  (λ _. served)))

    pub datagram-IsBarred :
        (drawn input : List ℕ) (k : Host) (p : ℕ) (s : UdpRelay Host Pipe)
        → IsBarred s
        → Ensures
            (λ r. IsBarred r.0)
            (on_server_udp_socket_ready_read q crypto from_name drawn input k p s)
    unfolding on_server_udp_socket_ready_read
    datagram-IsBarred drawn input k p s b =
        if_elim (Ensures (λ r. IsBarred r.0)) (ltb remote_recv_size (length input)) (λ _. b)
          (λ _.
            Ensures-bind_of (λ r. IsBarred r.0) (λ r. IsBarred r.0) _ _
              (if_elim (Ensures (λ r. IsBarred r.0)) s.is_local
                (λ _.
                  if_elim (Ensures (λ r. IsBarred r.0)) (not (get_or input 2 0 == 0)) (λ _. b)
                    (λ _. request-IsBarred drawn (drop 3 input) k p s b))
                (λ _.
                  if_elim (Ensures (λ r. IsBarred r.0))
                    (s.auto_ban && is_address_banned q k s.banned) (λ _. b)
                    (λ _.
                      Ensures-bind (λ r. IsBarred r.0) (decrypt_all crypto s.encryptor input) _
                        (λ r. request-IsBarred drawn r.1 k p (record s { encryptor = r.0 }) b))))
              (λ r kept. kept))

    pub answer-IsBarred :
        (id : ℕ) (drawn input : List ℕ) (k : Host) (p : ℕ) (s : UdpRelay Host Pipe)
        → IsBarred s
        → Ensures
            (λ r. IsBarred r.0)
            (on_client_udp_socket_ready_read q crypto from_name id drawn input k p s)
    unfolding on_client_udp_socket_ready_read
    answer-IsBarred id drawn input k p s b =
        if_elim (Ensures (λ r. IsBarred r.0)) (ltb remote_recv_size (length input)) (λ _. b)
          (λ _.
            if_elim (Ensures (λ r. IsBarred r.0)) s.is_local
              (λ _.
                Ensures-bind (λ r. IsBarred r.0) (decrypt_all crypto s.encryptor input) _
                  (λ r.
                    Ensures-bind (λ r. IsBarred r.0) (parse_header q r.1 no_address) _
                      (λ parsed.
                        if_elim (Ensures (λ r. IsBarred r.0)) (parsed.1 == 0) (λ _. b) (λ _. b))))
              (λ _.
                Ensures-bind (λ r. IsBarred r.0)
                  (encrypt_all crypto s.encryptor drawn (pack_host q k p ++ input)) _ (λ r. b)))

    -- What the host sends is dropped.
    pub datagram_dropped :
        (drawn input : List ℕ) (p : ℕ) (s : UdpRelay Host Pipe)
        → IsBarred s
        → on_server_udp_socket_ready_read q crypto from_name drawn input h p s
          ≡ ok (
            s,
            if ltb remote_recv_size (length input)
                then info ∷ []
                else bytes_read (length input) ∷ debug ∷ [],
          )
    unfolding on_server_udp_socket_ready_read
    datagram_dropped drawn input p s b = elim (Bool-cases (ltb remote_recv_size (length input))) [
      | inl large ↦ rw large refl
      | inr fits ↦ rw (fits, b.0, b.1, b.2) refl
    ]
