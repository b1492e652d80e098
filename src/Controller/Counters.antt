-- ===== src/Controller/Counters.antt =====
-- The byte counters of lib/controller.cpp.
use shadowsocks_qt.Prelude.{
  ℕ, ◌+◌, ◌%◌, ◌^◌, ◌<◌, ◌≡◌, refl, List, [], ◌∷◌, Bool-cases, inl, inr, ◌==◌, if◌then◌else◌, arith,
}
use shadowsocks_qt.Controller.{Controller, minus_one, on_bytes_read, on_bytes_send}

-- What the TCP server and the UDP relay report.
pub data Report : Type 0 where
  bytes_read bytes_send : ℕ → Report

-- The bytes of a report; -1 is a failure.
abbrev counted : ℕ → ℕ
counted r = if r == minus_one then 0 else r

-- The bytes that reports count, of each kind.
unfoldable pub all_read : List Report → ℕ
all_read [] = 0
all_read (bytes_read r ∷ rs) = counted r + all_read rs
all_read (bytes_send r ∷ rs) = all_read rs

unfoldable pub all_sent : List Report → ℕ
all_sent [] = 0
all_sent (bytes_read r ∷ rs) = all_sent rs
all_sent (bytes_send r ∷ rs) = counted r + all_sent rs

module _ {Host Pipe : Type 0} where
  unfoldable pub on_reports : List Report → Controller Host Pipe → Controller Host Pipe
  unfolding on_bytes_read on_bytes_send
  on_reports [] s = s
  on_reports (bytes_read r ∷ rs) s = on_reports rs (on_bytes_read r s).0
  on_reports (bytes_send r ∷ rs) s = on_reports rs (on_bytes_send r s).0

  read_one :
      (r : ℕ) (s : Controller Host Pipe)
      → s.bytes_received < 2 ^ 64
      → ((on_bytes_read r s).0.bytes_received ≡ (s.bytes_received + counted r) % 2 ^ 64)
        × ((on_bytes_read r s).0.bytes_sent ≡ s.bytes_sent)
  unfolding on_bytes_read
  read_one r s h = elim (Bool-cases (r == minus_one)) [
    | inl failed ↦ rw failed (omega arith, refl)
    | inr fine ↦ rw fine (refl, refl)
  ]

  sent_one :
      (r : ℕ) (s : Controller Host Pipe)
      → s.bytes_sent < 2 ^ 64
      → ((on_bytes_send r s).0.bytes_sent ≡ (s.bytes_sent + counted r) % 2 ^ 64)
        × ((on_bytes_send r s).0.bytes_received ≡ s.bytes_received)
  unfolding on_bytes_send
  sent_one r s h = elim (Bool-cases (r == minus_one)) [
    | inl failed ↦ rw failed (omega arith, refl)
    | inr fine ↦ rw fine (refl, refl)
  ]

  -- After any reports of bytes read and sent, each counter holds what it held before and all the
  -- bytes of its kind that were reported, without the reports of -1, modulo 2 ^ 64.
  pub on_reports-counters :
      (rs : List Report) (s : Controller Host Pipe)
      → s.bytes_received < 2 ^ 64
      → s.bytes_sent < 2 ^ 64
      → ((on_reports rs s).bytes_received ≡ (s.bytes_received + all_read rs) % 2 ^ 64)
        × ((on_reports rs s).bytes_sent ≡ (s.bytes_sent + all_sent rs) % 2 ^ 64)
  unfolding on_reports all_read all_sent
  on_reports-counters [] s h k = (omega arith, omega arith)
  on_reports-counters (bytes_read r ∷ rs) s h k =
      let one = read_one r s h in
      let all =
        on_reports-counters rs (on_bytes_read r s).0 (omega (arith, one.0))
          (omega (arith, one.1)) in
      (omega (arith, all.0, one.0), omega (arith, all.1, one.1))
  on_reports-counters (bytes_send r ∷ rs) s h k =
      let one = sent_one r s k in
      let all =
        on_reports-counters rs (on_bytes_send r s).0 (omega (arith, one.1))
          (omega (arith, one.0)) in
      (omega (arith, all.0, one.1), omega (arith, all.1, one.0))
