-- ===== src/Qt.antt =====
-- What the relay takes from Qt: host addresses (QHostAddress), the conversions of texts (QString)
-- and of byte orders (QtEndian). Qt is not part of the repository, so these are parameters, with
-- the facts that Qt documents of them. A text is the list of its code units.
use shadowsocks_qt.Prelude.{ℕ, ◌^◌, ◌<◌, ◌≡◌, Bool, true, false, List, length}

pub record Qt (Host : Type 0) : Type 0 where
  -- `QHostAddress()`, the null address, and `isNull`.
  pub null_host : Host
  pub is_null : Host → Bool
  -- `protocol() == QAbstractSocket::IPv4Protocol`.
  pub is_ipv4 : Host → Bool
  pub to_ipv4_address : Host → ℕ
  pub of_ipv4_address : ℕ → Host
  pub to_ipv6_address : Host → List ℕ
  pub of_ipv6_address : List ℕ → Host
  -- `QHostAddress(QString)` and `toString`.
  pub host_of_string : List ℕ → Host
  pub host_to_string : Host → List ℕ
  -- `operator==` of host addresses.
  pub same_host : Host → Host → Bool
  pub trimmed : List ℕ → List ℕ
  pub to_lower : List ℕ → List ℕ
  pub to_local8bit : List ℕ → List ℕ
  -- `QString(QByteArray)`.
  pub of_bytes : List ℕ → List ℕ
  -- `qToBigEndian` as the bytes of the result, `qFromBigEndian` on the bytes that are read.
  pub to_big_endian16 : ℕ → ℕ × ℕ
  pub from_big_endian16 : ℕ → ℕ → ℕ
  pub to_big_endian32 : ℕ → ℕ × ℕ × ℕ × ℕ
  pub from_big_endian32 : ℕ → ℕ → ℕ → ℕ → ℕ

-- What Qt documents of them.
pub record QtLaws {Host : Type 0} (q : Qt Host) : Type 0 where
  pub big_endian16 :
      (n : ℕ) → n < 2 ^ 16 → q.from_big_endian16 (q.to_big_endian16 n).0 (q.to_big_endian16 n).1 ≡ n
  pub big_endian32 :
      (n : ℕ) → n < 2 ^ 32 → let b = q.to_big_endian32 n in q.from_big_endian32 b.0 b.1 b.2 b.3 ≡ n
  pub to_ipv4_address-lt : (h : Host) → q.to_ipv4_address h < 2 ^ 32
  pub to_ipv6_address-length : (h : Host) → length (q.to_ipv6_address h) ≡ 16
  pub ipv4_round_trip :
      (h : Host) → q.is_ipv4 h ≡ true → q.of_ipv4_address (q.to_ipv4_address h) ≡ h
  pub ipv4_valid : (h : Host) → q.is_ipv4 h ≡ true → q.is_null h ≡ false
