-- ===== src/Client/Net/Obfuscation.antt =====
-- `obfuscate_data_impl` (client/src/net_p2p/mod.rs): files of other clients are stored xored with a key.
use backuwup.Prelude.{
  ℕ, zero, suc, ◌+◌, ◌*◌, ◌/◌, ◌%◌, ◌^◌, ◌<◌, ◌≡◌, refl, [], ◌∷◌, arith, All, length,
}
use native.Mathlib.Nat.{pow-suc}
use backuwup.Client.Bytes.{Bytes}

-- The bits of two numbers, the lowest `k` of them.
xor_bits : ℕ → ℕ → ℕ → ℕ
xor_bits zero a b = 0
xor_bits (suc k) a b = (a + b) % 2 + 2 * xor_bits k (a / 2) (b / 2)

-- `^` on `u8`
unfoldable pub xor : ℕ → ℕ → ℕ
unfolding xor_bits
xor a b = xor_bits 8 a b

-- the four bytes of the key
pub record ObfuscationKey : Type 0 where
  pub k0 : ℕ
  pub k1 : ℕ
  pub k2 : ℕ
  pub k3 : ℕ

-- The chunks of four bytes, the last one of which may be shorter.
unfoldable pub obfuscate_data_impl : Bytes → ObfuscationKey → Bytes
obfuscate_data_impl (a ∷ b ∷ c ∷ d ∷ data_left) key =
    xor a key.k0 ∷ xor b key.k1 ∷ xor c key.k2 ∷ xor d key.k3 ∷ obfuscate_data_impl data_left key
obfuscate_data_impl (a ∷ b ∷ c ∷ []) key = xor a key.k0 ∷ xor b key.k1 ∷ xor c key.k2 ∷ []
obfuscate_data_impl (a ∷ b ∷ []) key = xor a key.k0 ∷ xor b key.k1 ∷ []
obfuscate_data_impl (a ∷ []) key = xor a key.k0 ∷ []
obfuscate_data_impl [] key = []

abbrev pub IsByte : ℕ → Type 0
IsByte b = b < 256

xor_bits_twice : (k a b : ℕ) → a < 2 ^ k → xor_bits k (xor_bits k a b) b ≡ a
unfolding xor_bits
xor_bits_twice zero a b h = omega arith
xor_bits_twice (suc k) a b h =
    let rest : ℕ = xor_bits k (a / 2) (b / 2) in
    let small : a < 2 ^ k * 2 = rw (pow-suc) at h in
    let halved : ((a + b) % 2 + 2 * rest) / 2 ≡ rest = omega arith in
    rw halved (omega (arith, xor_bits_twice k (a / 2) (b / 2) (omega arith)))

xor_twice : (a b : ℕ) → IsByte a → xor (xor a b) b ≡ a
unfolding xor
xor_twice a b h = xor_bits_twice 8 a b h

-- Obfuscating twice with one key gives the bytes back, whatever their number and whatever the key.
pub obfuscate_data_impl_twice :
    (data_given : Bytes) (key : ObfuscationKey)
    → All IsByte data_given
    → obfuscate_data_impl (obfuscate_data_impl data_given key) key ≡ data_given
unfolding obfuscate_data_impl
obfuscate_data_impl_twice [] key h = refl
obfuscate_data_impl_twice (a ∷ []) key h = rw (xor_twice a key.k0 h.0)
obfuscate_data_impl_twice (a ∷ b ∷ []) key h = rw (xor_twice a key.k0 h.0, xor_twice b key.k1 h.1.0)
obfuscate_data_impl_twice (a ∷ b ∷ c ∷ []) key h =
    rw (xor_twice a key.k0 h.0, xor_twice b key.k1 h.1.0, xor_twice c key.k2 h.1.1.0)
obfuscate_data_impl_twice (a ∷ b ∷ c ∷ d ∷ rest) key h = rw (
  xor_twice a key.k0 h.0,
  xor_twice b key.k1 h.1.0,
  xor_twice c key.k2 h.1.1.0,
  xor_twice d key.k3 h.1.1.1.0,
  obfuscate_data_impl_twice rest key h.1.1.1.1,
)

pub length-obfuscate_data_impl :
    (data_given : Bytes) (key : ObfuscationKey)
    → length (obfuscate_data_impl data_given key) ≡ length data_given
unfolding obfuscate_data_impl
length-obfuscate_data_impl [] key = refl
length-obfuscate_data_impl (a ∷ []) key = refl
length-obfuscate_data_impl (a ∷ b ∷ []) key = refl
length-obfuscate_data_impl (a ∷ b ∷ c ∷ []) key = refl
length-obfuscate_data_impl (a ∷ b ∷ c ∷ d ∷ rest) key =
    omega (arith, length-obfuscate_data_impl rest key)
