-- ===== src/Tunnel/Tests/Total.antt =====
-- The start of a connection with a ChaCha method.
use shadowsocks_qt.Prelude.{
  ℕ, ◌≡◌, refl, sym, ap, ◌∙◌, append-nil, Returns-ok, inl, List, [], ◌∷◌, ◌++◌, replicate, Returns,
  ok, arith,
}
use shadowsocks_qt.Tests.{SmallHost, v4, small_qt, small_qt_laws, small_crypto, small_crypto_laws}
use shadowsocks_qt.Cipher
use shadowsocks_qt.Cipher.{Cipher, codes}
use shadowsocks_qt.ChaCha
use shadowsocks_qt.Common.Xor.{exclusive_or}
use shadowsocks_qt.Common.Header.{pack_host}
use shadowsocks_qt.EncryptorPrivate.Tests.{settings, password, makes}
use shadowsocks_qt.Encryptor.{Encryptor, create, decrypt}
use shadowsocks_qt.TcpRelay.{
  init, addr, TcpRelay, Event, local_ready_read, remote_ready_read, remote_disconnected, timeout,
  run,
}
use shadowsocks_qt.TcpRelay.Connections.{IsPast}
use shadowsocks_qt.TcpRelay.Tests.{client_at, server_at}
use shadowsocks_qt.Tunnel.Destination.{at_host}
use shadowsocks_qt.Tunnel.Total.{both_return}

abbrev drawn : List ℕ
drawn = replicate 12 3

abbrev client : TcpRelay SmallHost ℕ
client = record (client_at addr) { encryptor = create settings drawn }

abbrev server : TcpRelay SmallHost ℕ
server = record (server_at init) { encryptor = create settings drawn }

-- The IV and the masked header.
abbrev piece : List ℕ
piece = drawn ++ (190 ∷ 173 ∷ 246 ∷ 172 ∷ 73 ∷ 116 ∷ 12 ∷ [])

-- The first answer is too short to hold an IV, and what comes after the end is ignored.
abbrev events : List (Event SmallHost)
events = remote_ready_read (1 ∷ []) ∷ remote_disconnected ∷ local_ready_read (2 ∷ []) ∷ timeout ∷ []

opened_whole :
    (r : Encryptor ℕ × List ℕ) × (decrypt small_crypto server.encryptor piece ≡ ok r)
    × (r.1 ≡ pack_host small_qt (v4 7) 443)
unfolding create decrypt pack_host exclusive_or Cipher.create Cipher.update Cipher.random_iv
    ChaCha.create ChaCha.update ChaCha.load_word ChaCha.chacha_quarter_round ChaCha.double_round
    ChaCha.double_rounds ChaCha.key_block ChaCha.next_counter ChaCha.chacha ChaCha.set_iv
opened_whole =
    Returns-ok (λ r. r.1 ≡ pack_host small_qt (v4 7) 443)
      (decrypt small_crypto server.encryptor piece) refl

opens :
    decrypt small_crypto server.encryptor piece
    ≡ ok (opened_whole.0.0, pack_host small_qt (v4 7) 443 ++ [])
opens =
    opened_whole.1
    ∙ ap (λ o. ok (opened_whole.0.0, o))
        (opened_whole.2 ∙ sym (append-nil (pack_host small_qt (v4 7) 443)))

both_return_example :
    Returns
      (λ r. IsPast r.0.stage)
      (run small_qt small_crypto
        (local_ready_read (5 ∷ 1 ∷ 0 ∷ pack_host small_qt (v4 7) 443 ++ 8 ∷ []) ∷ events)
        client)
    × Returns
        (λ r. IsPast r.0.stage)
        (run small_qt small_crypto (local_ready_read piece ∷ events) server)
both_return_example =
    both_return small_qt small_qt_laws small_crypto small_crypto_laws (codes "chacha20-ietf")
      password settings drawn drawn client server (8 ∷ []) piece [] opened_whole.0.0 events events
      (at_host (v4 7) 443) (v4 9) [] makes refl (omega arith) (omega arith) refl refl refl refl refl
      refl refl (omega arith, inl refl) (omega arith) opens
