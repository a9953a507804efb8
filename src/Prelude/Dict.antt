-- ===== src/Prelude/Dict.antt =====
-- A map with numbers for keys (`HashMap`, or a table by its primary key) as an association list.
-- The program never depends on the order in which such a map is iterated.
use Prim.Native.Nat.{ℕ}
use mathlib.Core.Path.{◌≡◌, refl}
use mathlib.Core.Option.{Option, none, some}
use mathlib.Core.List.{List, [], ◌∷◌}
use native.Mathlib.Omega.{arith}
use backuwup.Prelude.Tests.{◌==◌, if◌then◌else◌}

abbrev pub Dict {ℓ} : Type ℓ → Type ℓ
Dict V = List (ℕ × V)

module _ {ℓ} {V : Type ℓ} where
  unfoldable pub lookup : ℕ → Dict V → Option V
  lookup key [] = none
  lookup key ((other, value) ∷ rest) = if other == key then some value else lookup key rest

  -- `remove`, written to drop every entry of the key; `insert` leaves at most one.
  unfoldable pub erase : ℕ → Dict V → Dict V
  erase key [] = []
  erase key ((other, value) ∷ rest) =
      let kept = erase key rest in if other == key then kept else (other, value) ∷ kept

  -- `insert`: an entry of the key is replaced.
  unfoldable pub insert : ℕ → V → Dict V → Dict V
  insert key new [] = (key, new) ∷ []
  insert key new ((other, value) ∷ rest) =
      if other == key then (key, new) ∷ rest else (other, value) ∷ insert key new rest

  pub lookup-erase :
      (key asked : ℕ) (d : Dict V)
      → lookup asked (erase key d) ≡ (if key == asked then none else lookup asked d)
  unfolding lookup erase
  lookup-erase key asked [] = ground arith
  lookup-erase key asked ((other, value) ∷ rest) = ground (arith, lookup-erase key asked rest)

  pub lookup-insert :
      (key asked : ℕ) (new : V) (d : Dict V)
      → lookup asked (insert key new d) ≡ (if key == asked then some new else lookup asked d)
  unfolding lookup insert
  lookup-insert key asked new [] = refl
  lookup-insert key asked new ((other, value) ∷ rest) =
      ground (arith, lookup-insert key asked new rest)
