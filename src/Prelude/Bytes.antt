-- ===== src/Prelude/Bytes.antt =====
-- What the source does with a `QByteArray`, as a list of bytes: indexing, the memory behind
-- `data()` with the zero that ends it, `mid` and `left`.
use Prim.Native.Nat.{ℕ, zero, suc, ◌+◌, ◌≤◌, ◌<◌}
use mathlib.Core.Path.{◌≡◌, refl}
use mathlib.Core.List.{List, [], ◌∷◌, ◌++◌}
use native.Mathlib.Nat.{zero-add, suc-add}
use native.Mathlib.Omega.{arith}
use shadowsocks_qt.Prelude.Lists.{length, get_elem?, take, drop, length-append}
use shadowsocks_qt.Prelude.Results.{Result, err, bad_read, or_fail, Returns}

-- `at(i)`, and `[i]` on a constant array: `i` must be an index of the array.
abbrev pub byte_at : List ℕ → ℕ → Result ℕ
byte_at bytes i = or_fail (get_elem? bytes i) bad_read

-- A read through the pointer `data()`: the zero behind the last byte may be read too.
abbrev pub raw_byte : List ℕ → ℕ → Result ℕ
raw_byte bytes i = byte_at (bytes ++ 0 ∷ []) i

-- `mid(pos, len)` for a length that is not negative.
abbrev pub mid : List ℕ → ℕ → ℕ → List ℕ
mid bytes pos len = take len (drop pos bytes)

-- A value whose range does not matter.
abbrev pub Any {ℓ} : {A : Type ℓ} → A → Type 0
Any a = Unit

pub byte_at-Returns : (bytes : List ℕ) (i : ℕ) → i < length bytes → Returns Any (byte_at bytes i)
byte_at-Returns [] i h = absurd (omega arith)
byte_at-Returns (b ∷ bytes) zero h = tt
byte_at-Returns (b ∷ bytes) (suc i) h = byte_at-Returns bytes i (omega arith)

pub byte_at_past : (bytes : List ℕ) (i : ℕ) → length bytes ≤ i → byte_at bytes i ≡ err bad_read
byte_at_past [] i h = refl
byte_at_past (b ∷ bytes) zero h = absurd (omega arith)
byte_at_past (b ∷ bytes) (suc i) h = byte_at_past bytes i (omega arith)

pub raw_byte-Returns : (bytes : List ℕ) (i : ℕ) → i ≤ length bytes → Returns Any (raw_byte bytes i)
raw_byte-Returns bytes i h =
    byte_at-Returns (bytes ++ 0 ∷ []) i (omega (arith, length-append bytes (0 ∷ [])))

pub raw_byte_past : (bytes : List ℕ) (i : ℕ) → length bytes < i → raw_byte bytes i ≡ err bad_read
raw_byte_past bytes i h =
    byte_at_past (bytes ++ 0 ∷ []) i (omega (arith, length-append bytes (0 ∷ [])))

-- A read behind a prefix is a read in the rest.
pub byte_at-append : (xs ys : List ℕ) (i : ℕ) → byte_at (xs ++ ys) (length xs + i) ≡ byte_at ys i
byte_at-append [] ys i = rw zero-add
byte_at-append (x ∷ xs) ys i = rw suc-add (byte_at-append xs ys i)

pub byte_at_behind :
    (xs ys : List ℕ) (n i : ℕ) → n ≡ length xs + i → byte_at (xs ++ ys) n ≡ byte_at ys i
byte_at_behind xs ys n i e = rw e (byte_at-append xs ys i)
