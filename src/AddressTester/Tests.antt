-- ===== src/AddressTester/Tests.antt =====
-- Runs of a tester with small hosts and a small pipe.
use shadowsocks_qt.Prelude.{
  ℕ, ◌+◌, ◌≡◌, ◌↔◌, refl, List, [], ◌∷◌, ◌++◌, map, bit_xor, replicate, flatten, true, false, ok,
  arith,
}
use shadowsocks_qt.Tests.{SmallHost, v4, small_qt, small_qt_laws, small_crypto, small_crypto_laws}
use shadowsocks_qt.Address.{of_name, set_address, address_type}
use shadowsocks_qt.Common.Header.{pack_address}
use shadowsocks_qt.Cipher
use shadowsocks_qt.Cipher.{codes}
use shadowsocks_qt.EncryptorPrivate
use shadowsocks_qt.EncryptorPrivate.{EncryptorPrivate, at, evp_loop, evp_bytes_to_key}
use shadowsocks_qt.Encryptor
use shadowsocks_qt.Encryptor.{encrypt}
use shadowsocks_qt.TcpRelay.{TcpRelay, init, dns, info, resolve, the_remote, on_local_ready_read}
use shadowsocks_qt.TcpRelay.Tests.{server_at}
use shadowsocks_qt.AddressTester.{
  idle, connecting, connected, AddressTester, Effect, abort, timer_stop, lag_test_finished,
  lag_timeout, msecs, socket_write, connectivity_test_finished, payload, create,
  start_connectivity_test, connect_to_server, on_timeout, on_connected, timed_out, Can,
  can_time_out, step, Run, rests, goes_on,
}
use shadowsocks_qt.AddressTester.Verdicts.{verdicts, Run-verdicts, Run-timed_out}
use shadowsocks_qt.AddressTester.Request.{on_connected-looked_up}

abbrev aes : List ℕ
aes = codes "aes-128-cfb"

abbrev tester : AddressTester SmallHost
tester = create (v4 9) 8388

abbrev waiting : AddressTester SmallHost
waiting = record {
  address = v4 9;
  port = 8388;
  socket = connecting;
  timer_active = true;
  testing_connectivity = true;
  encryption_method = aes;
  encryption_password = 1 ∷ [];
}

abbrev timed : List (Effect SmallHost)
timed = abort ∷ connectivity_test_finished false ∷ lag_test_finished lag_timeout ∷ []

-- A test that ends by its timer.
times_out :
    Run small_qt small_crypto
      (start_connectivity_test aes (1 ∷ []) 3000 tester).0
      timed
      (record waiting { socket = idle; timer_active = false })
unfolding create start_connectivity_test connect_to_server step on_timeout
times_out = goes_on timed_out (can_time_out refl) refl rests

Run-verdicts_example : verdicts timed + 0 ≡ 1
Run-verdicts_example =
    Run-verdicts small_qt small_crypto tester
      (record waiting { socket = idle; timer_active = false }) aes (1 ∷ []) 3000 timed times_out

starts : Run small_qt small_crypto (start_connectivity_test aes (1 ∷ []) 3000 tester).0 [] waiting
unfolding create start_connectivity_test connect_to_server
starts = rests

Run-timed_out_example : Can timed_out waiting ↔ (connecting ≡ connecting)
Run-timed_out_example =
    Run-timed_out small_qt small_crypto tester waiting aes (1 ∷ []) 3000 [] starts

abbrev settings : EncryptorPrivate
settings = record {
  key_len = 16;
  iv_len = 16;
  method = codes "AES-128/CFB";
  password = 1 ∷ [];
  key = 1 ∷ replicate 15 7;
  valid = true;
}

made : EncryptorPrivate.create small_crypto small_qt aes (1 ∷ []) ≡ ok settings
unfolding EncryptorPrivate.create at evp_loop evp_bytes_to_key flatten Cipher.md5_hash
    Cipher.is_supported
made = refl

abbrev drawn : List ℕ
drawn = replicate 16 3

abbrev request : List ℕ
request = 3 ∷ 14 ∷ codes "www.google.com" ++ 0 ∷ 80 ∷ payload

abbrev sent : AddressTester SmallHost × List (Effect SmallHost)
sent = (
  record waiting { socket = connected; timer_active = false },
  timer_stop
      ∷ lag_test_finished (msecs 7)
      ∷ socket_write (drawn ++ map (λ b. bit_xor b 1) request)
      ∷ [],
)

sends : on_connected small_qt small_crypto 7 drawn waiting ≡ ok sent
unfolding on_connected EncryptorPrivate.create at evp_loop evp_bytes_to_key flatten Cipher.md5_hash
    Cipher.is_supported pack_address of_name set_address address_type encrypt Encryptor.create
    Cipher.create Cipher.update Cipher.random_iv
sends = refl

on_connected-looked_up_example :
    (bytes : List ℕ) × (sent.1 ≡ timer_stop ∷ lag_test_finished (msecs 7) ∷ socket_write bytes ∷ [])
    × (v' : TcpRelay SmallHost ℕ) × (on_local_ready_read small_qt small_crypto bytes
          (record (server_at init) { encryptor = Encryptor.create settings [] })
        ≡ ok (v', info ∷ resolve the_remote (codes "www.google.com") ∷ []))
    × (v'.stage ≡ dns)
    × (v'.data_to_write ≡ payload)
on_connected-looked_up_example =
    on_connected-looked_up small_qt small_qt_laws small_crypto small_crypto_laws waiting
      (record (server_at init) { encryptor = Encryptor.create settings [] }) settings 7 drawn []
      sent refl made (omega arith) (omega arith) refl refl refl refl (refl, refl, refl, omega arith)
      sends
