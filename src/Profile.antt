-- ===== src/Profile.antt =====
-- lib/profile.cpp, lib/profile.h: the settings of a client or a server.
use shadowsocks_qt.Prelude.{ℕ, List, [], Bool, false}
use shadowsocks_qt.Cipher.{codes}

-- The ports are of the type `quint16`; the timeout is in seconds.
pub record Profile : Type 0 where
  pub name_tag : List ℕ
  pub server : List ℕ
  pub local_address : List ℕ
  pub method : List ℕ
  pub password : List ℕ
  pub server_port : ℕ
  pub local_port : ℕ
  pub timeout : ℕ
  pub debug : Bool

-- The constructor.
abbrev pub default_profile : Profile
default_profile = record {
  name_tag = [];
  server = [];
  local_address = codes "127.0.0.1";
  method = [];
  password = [];
  server_port = 8388;
  local_port = 1080;
  timeout = 300;
  debug = false;
}
