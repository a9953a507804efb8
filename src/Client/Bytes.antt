-- ===== src/Client/Bytes.antt =====
-- Byte strings as lists of numbers: little-endian numbers, and reading a file from front to back.
use native.Mathlib.Nat.{pow-suc}
use backuwup.Prelude.{
  ℕ, zero, suc, ◌+◌, ◌*◌, ◌/◌, ◌%◌, ◌^◌, ◌<◌, ◌≡◌, refl, List, [], ◌∷◌, ◌++◌, Option, none, some,
  length, take, drop, leb, if◌then◌else◌, arith, take-append_length, drop-append_length,
  length-append,
}

abbrev pub Bytes : Type 0
Bytes = List ℕ

-- The `k` bytes of a number, the lowest first (`to_le_bytes`), and back (`from_le_bytes`).
unfoldable pub to_le_bytes : ℕ → ℕ → Bytes
to_le_bytes zero n = []
to_le_bytes (suc k) n = n % 256 ∷ to_le_bytes k (n / 256)

unfoldable pub from_le_bytes : Bytes → ℕ
from_le_bytes [] = 0
from_le_bytes (b ∷ bs) = b + 256 * from_le_bytes bs

pub length-to_le_bytes : (k n : ℕ) → length (to_le_bytes k n) ≡ k
unfolding to_le_bytes
length-to_le_bytes zero n = refl
length-to_le_bytes (suc k) n = omega (arith, length-to_le_bytes k (n / 256))

pub from_le_bytes-to_le_bytes : (k n : ℕ) → n < 256 ^ k → from_le_bytes (to_le_bytes k n) ≡ n
unfolding to_le_bytes from_le_bytes
from_le_bytes-to_le_bytes zero n h = omega arith
from_le_bytes-to_le_bytes (suc k) n h =
    let bound : n < 256 ^ k * 256 = rw (pow-suc) at h in
    omega (arith, from_le_bytes-to_le_bytes k (n / 256) (omega arith))

-- `read_exact`: `none` is the end of the file before `n` bytes.
unfoldable pub read_exact : ℕ → Bytes → Option (Bytes × Bytes)
read_exact n file = if leb n (length file) then some (take n file, drop n file) else none

pub read_exact-append :
    (n : ℕ) (xs ys : Bytes) → length xs ≡ n → read_exact n (xs ++ ys) ≡ some (xs, ys)
unfolding read_exact
read_exact-append n xs ys h =
    rw (take-append_length n xs ys h, drop-append_length n xs ys h)
      (ground (arith, length-append xs ys))
