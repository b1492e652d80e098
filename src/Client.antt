-- ===== src/Client.antt =====
-- client.cpp, client.h and main.cpp: the command line program around a Controller. The file, its
-- JSON, the numbers in texts and the parsed command line are Qt's.
pub mod HeaderTest
pub mod Tests
use shadowsocks_qt.Prelude.{
  ℕ, ◌%◌, ◌^◌, List, [], ◌∷◌, ◌++◌, Bool, true, false, not, ◌&&◌, ◌==◌, if◌then◌else◌, Option, none,
  some, Result, ok, ◌>>=◌,
}
use shadowsocks_qt.Qt.{Qt}
use shadowsocks_qt.Crypto.{Crypto}
use shadowsocks_qt.Address.{Address, no_address, same_address, of_name, of_host, get_first_ip}
use shadowsocks_qt.Cipher.{codes}
use shadowsocks_qt.Common.Header.{pack_address, pack_host, parse_header}
use shadowsocks_qt.AddressTester
use shadowsocks_qt.AddressTester.{AddressTester}
use shadowsocks_qt.Profile.{Profile, default_profile}
use shadowsocks_qt.Controller
use shadowsocks_qt.Controller.{Controller, Network}

-- A JSON object, by what `toString` and `toInt` give for the value of a key.
pub record Object : Type 0 where
  pub text_of : List ℕ → List ℕ
  pub int_of : List ℕ → ℕ

-- Opening a file: it cannot be opened or read, or it has these bytes.
pub data File : Type 0 where
  cannot_open not_readable : File
  readable : List ℕ → File

-- What Qt gives: files, `QJsonDocument::fromJson(...).object()` and `QString::toInt`. An int is the
-- bit pattern of 32 bits.
pub record Platform : Type 0 where
  pub open_file : List ℕ → File
  pub from_json : List ℕ → Object
  pub to_int : List ℕ → ℕ

-- The conversion of an int to quint16.
abbrev pub to_port : ℕ → ℕ
to_port n = n % 2 ^ 16

pub record Client (Host Pipe : Type 0) : Type 0 where
  pub lc : Option (Controller Host Pipe)
  pub profile : Profile
  pub auto_ban : Bool

-- What the client does: it prints a line, deletes its old controller, starts a test, or what its
-- controller does.
pub data Effect (Host : Type 0) : Type 0 where
  printed delete_controller : Effect Host
  of_tester : AddressTester.Effect Host → Effect Host
  of_controller : Controller.Effect Host → Effect Host

abbrev pub of_testers : {Host : Type 0} → List (AddressTester.Effect Host) → List (Effect Host)
of_testers [] = []
of_testers (e ∷ es) = of_tester e ∷ of_testers es

abbrev pub of_controllers : {Host : Type 0} → List (Controller.Effect Host) → List (Effect Host)
of_controllers [] = []
of_controllers (e ∷ es) = of_controller e ∷ of_controllers es

-- The values of the command line options.
pub record Options : Type 0 where
  pub config_file : List ℕ
  pub server_address : List ℕ
  pub server_port : List ℕ
  pub local_address : List ℕ
  pub local_port : List ℕ
  pub password : List ℕ
  pub method : List ℕ
  pub timeout : List ℕ
  pub server_mode : Bool
  pub debug : Bool
  pub auto_ban : Bool

-- The fields of a profile that a file has.
abbrev with_object : Object → Profile → Profile
with_object o p = record p {
  local_address = o.text_of (codes "local_address");
  local_port = to_port (o.int_of (codes "local_port"));
  method = o.text_of (codes "method");
  password = o.text_of (codes "password");
  server = o.text_of (codes "server");
  server_port = to_port (o.int_of (codes "server_port"));
  timeout = o.int_of (codes "timeout");
}

module _ {Host Pipe : Type 0} where
  -- The constructor.
  unfoldable pub create : Client Host Pipe
  create = record { lc = none; profile = default_profile; auto_ban = false }

  abbrev read_from :
      Platform → File → Client Host Pipe → Client Host Pipe × Bool × List (Effect Host)
  read_from platform cannot_open c = (c, false, printed ∷ [])
  read_from platform not_readable c = (c, false, printed ∷ [])
  read_from platform (readable bytes) c =
      (record c { profile = with_object (platform.from_json bytes) c.profile }, true, [])

  unfoldable pub read_config :
      Platform → List ℕ → Client Host Pipe → Client Host Pipe × Bool × List (Effect Host)
  read_config platform file c = read_from platform (platform.open_file file) c

  unfoldable pub setup : Platform → Options → Client Host Pipe → Client Host Pipe
  setup platform o c = record c {
    profile = record c.profile {
      server = o.server_address;
      server_port = to_port (platform.to_int o.server_port);
      local_address = o.local_address;
      local_port = to_port (platform.to_int o.local_port);
      password = o.password;
      method = o.method;
      timeout = platform.to_int o.timeout;
      debug = o.debug;
    };
  }

  abbrev pub set_auto_ban : Bool → Client Host Pipe → Client Host Pipe
  set_auto_ban ban c = record c { auto_ban = ban }

  abbrev pub set_debug : Bool → Client Host Pipe → Client Host Pipe
  set_debug debug c = record c { profile = record c.profile { debug = debug } }

module _ {Host Pipe : Type 0} where
  -- The part of `main` between the command line and the start.
  unfoldable pub configured : Platform → Options → Client Host Pipe × List (Effect Host)
  unfolding create read_config setup
  configured platform o =
      let (c, found, es) = read_config platform o.config_file create in
      let c1 = if found then c else setup platform o c in
      (set_debug o.debug (set_auto_ban o.auto_ban c1), es)

abbrev pub test_port : ℕ
test_port = 56

module _ {Host : Type 0} (q : Qt Host) where
  abbrev pub test_addr : Host
  test_addr = q.host_of_string (codes "1.2.3.4")

  abbrev pub test_addr_v6 : Host
  test_addr_v6 = q.host_of_string (codes "2001:0db8:85a3:0000:0000:8a2e:1010:2020")

  -- The result, without the lines that it prints.
  unfoldable pub header_test : Result Bool
  header_test =
      let test_v6 = of_host q test_addr_v6 test_port in
      parse_header q (pack_address q test_v6) no_address >>= λ first.
      let success = same_address test_v6 first.0 in
      parse_header q (pack_host q test_addr test_port) first.0 >>= λ second.
      let success2 =
        q.same_host (get_first_ip q second.0) test_addr && second.0.port == test_port in
      ok (success && success2)

-- What a new controller finds: the hardware threads, the banned addresses, the random bytes, and the
-- memory of its counters.
pub record Surroundings (Host : Type 0) : Type 0 where
  pub concurrency : ℕ
  pub banned : List Host
  pub drawn : List ℕ
  pub received : ℕ
  pub sent : ℕ

module _ {Host Pipe : Type 0} (q : Qt Host) (n : Network Host) (crypto : Crypto Pipe) where
  -- The part of `start` behind the header test.
  abbrev pub launch :
      Bool
      → Surroundings Host
      → Client Host Pipe
      → Result (Client Host Pipe × Bool × List (Effect Host))
  launch server w c =
      let old = elim c.lc as (λ _. List (Effect Host)) [
        | none ↦ []
        | some lc ↦ delete_controller ∷ []
      ] in
      let lc =
        Controller.create (not server) c.auto_ban w.concurrency w.banned w.drawn w.received
          w.sent in
      Controller.setup q n crypto c.profile w.drawn lc >>= λ r.
      let a = of_name q c.profile.server c.profile.server_port in
      let tester = AddressTester.create (get_first_ip q a) a.port in
      let t =
        AddressTester.start_connectivity_test c.profile.method c.profile.password 3000 tester in
      let tests = if server then [] else of_testers t.1 in
      let (lc', started, es) = Controller.start q n r.0 in
      ok (
        record c { lc = some lc' },
        started,
        old ++ of_controllers r.1 ++ tests ++ of_controllers es,
      )

  unfoldable pub start :
      Bool
      → Surroundings Host
      → Client Host Pipe
      → Result (Client Host Pipe × Bool × List (Effect Host))
  unfolding header_test
  start server w c =
      if c.profile.debug
      then (header_test q >>= λ fine.
          if fine then launch server w c else ok (c, false, printed ∷ []))
      else launch server w c

  -- `main`, up to the event loop: the client, and whether the loop is entered; if not, the exit code
  -- is 2.
  unfoldable pub main :
      Platform → Options → Surroundings Host → Result (Client Host Pipe × Bool × List (Effect Host))
  unfolding configured start
  main platform o w =
      let (c, es) = configured platform o in
      start o.server_mode w c >>= λ r. ok (r.0, r.1, es ++ r.2)
