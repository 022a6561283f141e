-- ===== src/Prelude/Maps.antt =====
-- Dictionaries with keys of any type that can be compared, in the order of insertion.
use mathlib.Core.Path.{◌≡◌}
use mathlib.Core.Option.{Option, none, some}
use mathlib.Core.List.{List, [], ◌∷◌}
use native.Mathlib.Omega.{arith}
use autosubmit.Prelude.Tests.{if◌then◌else◌}
use autosubmit.Prelude.Equality.{Eq, ◌==◌}

abbrev pub Map : Type 0 → Type 0 → Type 0
Map K V = List (K × V)

module _ {K V : Type 0} ⦃e : Eq K⦄ where
  -- `m.get(k)`
  unfoldable pub get_key : K → Map K V → Option V
  get_key k [] = none
  get_key k ((j, v) ∷ m) = if k == j then some v else get_key k m

  -- `m[k] = v`
  unfoldable pub set_key : K → V → Map K V → Map K V
  set_key k v [] = (k, v) ∷ []
  set_key k v ((j, w) ∷ m) = if k == j then (j, v) ∷ m else (j, w) ∷ set_key k v m

  pub get_key-set_key :
      (j k : K) (v : V) (m : Map K V)
      → get_key j (set_key k v m) ≡ (if j == k then some v else get_key j m)
  unfolding get_key set_key
  get_key-set_key j k v [] = ground arith
  get_key-set_key j k v ((i, w) ∷ m) = ground (arith, get_key-set_key j k v m)
