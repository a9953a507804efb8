-- ===== src/DelayMap.antt =====
-- The crate `delay_map`: `HashMapDelay`, a map with numbers for keys whose entries may expire. The
-- server keeps challenges and sessions in such maps, the client its connection requests.
use backuwup.Prelude.{ℕ, ◌≡◌, ◌⊎◌, Option, none, some, ◌==◌, if◌then◌else◌}

pub record DelayMap (V : Type 0) : Type 1 where
  pub Map : Type 0
  pub new : Map
  pub get : Map → ℕ → Option V
  pub insert : Map → ℕ → V → Map
  pub remove : Map → ℕ → Map
  -- time passes
  pub elapse : Map → Map

-- The documented behaviour: as time passes an entry stays or is gone, and nothing else does that.
pub record IsDelayMap {V : Type 0} (D : DelayMap V) : Type 0 where
  pub get-new : (k : ℕ) → D.get D.new k ≡ none
  pub get-insert :
      (m : D.Map) (k j : ℕ) (v : V)
      → D.get (D.insert m k v) j ≡ (if k == j then some v else D.get m j)
  pub get-remove :
      (m : D.Map) (k j : ℕ) → D.get (D.remove m k) j ≡ (if k == j then none else D.get m j)
  pub get-elapse :
      (m : D.Map) (k : ℕ) → (D.get (D.elapse m) k ≡ none) ⊎ (D.get (D.elapse m) k ≡ D.get m k)
