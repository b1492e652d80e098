-- ===== src/AddressTester.antt =====
-- lib/addresstester.cpp, lib/addresstester.h: the latency and connectivity test of a server, as a
-- state and its slots. Qt's part is the relation `Can`: which signal the timer and the socket can
-- send in which state.
pub mod Verdicts
pub mod Request
pub mod Tests
use shadowsocks_qt.Prelude.{
  ℕ, ◌+◌, ◌-◌, ◌*◌, List, [], ◌∷◌, ◌++◌, Bool, true, false, ltb, if◌then◌else◌, Result, ok, err,
  ◌>>=◌, ◌≡◌,
}
use shadowsocks_qt.Qt.{Qt}
use shadowsocks_qt.Crypto.{Crypto}
use shadowsocks_qt.Address.{Address, of_name}
use shadowsocks_qt.Cipher.{codes}
use shadowsocks_qt.Common.Header.{pack_address}
use shadowsocks_qt.EncryptorPrivate
use shadowsocks_qt.Encryptor
use shadowsocks_qt.Encryptor.{encrypt}

-- What the socket is doing; `abort` makes it idle at once.
pub data SocketState : Type 0 where
  idle connecting connected : SocketState

pub record AddressTester (Host : Type 0) : Type 0 where
  pub address : Host
  pub port : ℕ
  pub socket : SocketState
  pub timer_active : Bool
  pub testing_connectivity : Bool
  pub encryption_method : List ℕ
  pub encryption_password : List ℕ

-- The argument of `lagTestFinished`: milliseconds, LAG_TIMEOUT or LAG_ERROR.
pub data Lag : Type 0 where
  msecs : ℕ → Lag
  lag_timeout lag_error : Lag

pub data Effect (Host : Type 0) : Type 0 where
  timer_start : ℕ → Effect Host
  timer_stop : Effect Host
  connect_to : Host → ℕ → Effect Host
  abort : Effect Host
  socket_write : List ℕ → Effect Host
  connectivity_test_finished : Bool → Effect Host
  lag_test_finished : Lag → Effect Host
  test_error_string : Effect Host

-- `QByteArray::fromHex`, of pairs of lower-case digits.
abbrev pub hex_digit : ℕ → ℕ
hex_digit c = if ltb c 58 then c - 48 else c - 87

abbrev pub from_hex : List ℕ → List ℕ
from_hex [] = []
from_hex (a ∷ []) = []
from_hex (a ∷ b ∷ text) = (hex_digit a * 16 + hex_digit b) ∷ from_hex text

abbrev pub payload : List ℕ
payload = from_hex (
    codes "474554202f20485454502f312e310d0a486f73743a"
    ++ codes "207777772e676f6f676c652e636f6d0d0a55736572"
    ++ codes "2d4167656e743a206375726c2f372e34332e300d0a"
    ++ codes "4163636570743a202a2f2a0d0a0d0a")

module _ {Host : Type 0} where
  -- The constructor.
  unfoldable pub create : Host → ℕ → AddressTester Host
  create address port = record {
    address = address;
    port = port;
    socket = idle;
    timer_active = false;
    testing_connectivity = false;
    encryption_method = [];
    encryption_password = [];
  }

  -- On an idle socket; Qt refuses the call on another.
  unfoldable pub connect_to_server :
      ℕ → AddressTester Host → AddressTester Host × List (Effect Host)
  connect_to_server timeout s = (
    record s { socket = connecting; timer_active = true },
    timer_start timeout ∷ connect_to s.address s.port ∷ [],
  )

  unfoldable pub start_lag_test : ℕ → AddressTester Host → AddressTester Host × List (Effect Host)
  unfolding connect_to_server
  start_lag_test timeout s = connect_to_server timeout (record s { testing_connectivity = false })

  unfoldable pub start_connectivity_test :
      List ℕ → List ℕ → ℕ → AddressTester Host → AddressTester Host × List (Effect Host)
  unfolding connect_to_server
  start_connectivity_test method password timeout s = connect_to_server timeout (record s {
    testing_connectivity = true;
    encryption_method = method;
    encryption_password = password;
  })

  -- The timer is a single shot, so it is no longer active when it has run out.
  unfoldable pub on_timeout : AddressTester Host → AddressTester Host × List (Effect Host)
  on_timeout s = (
    record s { socket = idle; timer_active = false },
    abort ∷ connectivity_test_finished false ∷ lag_test_finished lag_timeout ∷ [],
  )

  unfoldable pub on_socket_error : AddressTester Host → AddressTester Host × List (Effect Host)
  on_socket_error s = (
    record s { socket = idle; timer_active = false },
    timer_stop
        ∷ abort
        ∷ connectivity_test_finished false
        ∷ test_error_string
        ∷ lag_test_finished lag_error
        ∷ [],
  )

  unfoldable pub on_socket_ready_read : AddressTester Host → AddressTester Host × List (Effect Host)
  on_socket_ready_read s =
      (record s { socket = idle }, connectivity_test_finished true ∷ abort ∷ [])

-- The signals: the timer runs out, the socket reports an error, is connected after so many
-- milliseconds (with the bytes that the encryptor then draws), or has bytes to read.
pub data Event : Type 0 where
  timed_out failed : Event
  connects : ℕ → List ℕ → Event
  ready_read : Event

-- When Qt sends them.
pub data Can {Host : Type 0} : Event → AddressTester Host → Type 0 where
  can_time_out : {s : AddressTester Host} → s.timer_active ≡ true → Can timed_out s
  can_fail_to_connect : {s : AddressTester Host} → s.socket ≡ connecting → Can failed s
  can_be_cut : {s : AddressTester Host} → s.socket ≡ connected → Can failed s
  can_connect :
      {s : AddressTester Host} {ms : ℕ} {drawn : List ℕ}
      → s.socket ≡ connecting
      → Can (connects ms drawn) s
  can_read : {s : AddressTester Host} → s.socket ≡ connected → Can ready_read s

module _ {Host Pipe : Type 0} (q : Qt Host) (crypto : Crypto Pipe) where
  -- What `onConnected` writes.
  abbrev pub test_request : List ℕ → AddressTester Host → Result (List ℕ)
  test_request drawn s =
      EncryptorPrivate.create crypto q s.encryption_method s.encryption_password >>= λ ep.
      let dest = pack_address q (of_name q (codes "www.google.com") 80) in
      encrypt crypto (Encryptor.create ep drawn) (dest ++ payload) >>= λ r. ok r.1

  unfoldable pub on_connected :
      ℕ → List ℕ → AddressTester Host → Result (AddressTester Host × List (Effect Host))
  on_connected ms drawn s =
      if s.testing_connectivity
      then (test_request drawn s >>= λ bytes. ok (
        record s { socket = connected; timer_active = false },
        timer_stop ∷ lag_test_finished (msecs ms) ∷ socket_write bytes ∷ [],
      ))
      else ok (
        record s { socket = idle; timer_active = false },
        timer_stop ∷ lag_test_finished (msecs ms) ∷ abort ∷ [],
      )

  unfoldable pub step :
      Event → AddressTester Host → Result (AddressTester Host × List (Effect Host))
  unfolding on_timeout on_socket_error on_connected on_socket_ready_read
  step timed_out s = ok (on_timeout s)
  step failed s = ok (on_socket_error s)
  step (connects ms drawn) s = on_connected ms drawn s
  step ready_read s = ok (on_socket_ready_read s)

  -- The runs of a tester, with all that they emit.
  pub data Run : AddressTester Host → List (Effect Host) → AddressTester Host → Type 0 where
    rests : {s : AddressTester Host} → Run s [] s
    goes_on :
        {s s' t : AddressTester Host} {es es' : List (Effect Host)} (e : Event)
        → Can e s
        → step e s ≡ ok (s', es)
        → Run s' es' t
        → Run s (es ++ es') t
