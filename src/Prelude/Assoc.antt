-- ===== src/Prelude/Assoc.antt =====
-- `HashMap` as an association list: the program never iterates over one in a way that shows its
-- order. A key stands once after an insertion.
use mathlib.Core.Path.{◌≡◌, refl}
use mathlib.Core.List.{List, [], ◌∷◌}
use mathlib.Core.Option.{Option, none, some}
use native.Mathlib.Omega.{arith}
use airgap.Prelude.Tests.{if◌then◌else◌}
use airgap.Prelude.Equality.{PartialEq, ◌==◌}

abbrev pub Assoc {ℓ κ} : Type ℓ → Type κ → Type (ℓ ⊔ κ)
Assoc K V = List (K × V)

module _ {ℓ κ} {K : Type ℓ} {V : Type κ} ⦃e : PartialEq K⦄ where
  unfoldable pub lookup : Assoc K V → K → Option V
  lookup [] k = none
  lookup ((j, v) ∷ m) k = if j == k then some v else lookup m k

  unfoldable pub remove : Assoc K V → K → Assoc K V
  remove [] k = []
  remove ((j, v) ∷ m) k = let rest = remove m k in if j == k then rest else (j, v) ∷ rest

  unfoldable pub insert : Assoc K V → K → V → Assoc K V
  unfolding remove
  insert m k v = (k, v) ∷ remove m k

  pub lookup-remove :
      (m : Assoc K V) (k j : K) → lookup (remove m k) j ≡ (if k == j then none else lookup m j)
  unfolding lookup remove
  lookup-remove [] k j = ground arith
  lookup-remove ((i, v) ∷ m) k j =
      ground (arith, lookup-remove m k j, e.same_iff i k, e.same_iff i j, e.same_iff k j)

  pub lookup-insert :
      (m : Assoc K V) (k j : K) (v : V)
      → lookup (insert m k v) j ≡ (if k == j then some v else lookup m j)
  unfolding lookup insert
  lookup-insert m k j v = ground (arith, lookup-remove m k j)

  pub lookup-empty : (k : K) → lookup [] k ≡ none
  unfolding lookup
  lookup-empty k = refl

pub ruleset map_laws = (lookup-remove, lookup-insert, lookup-empty)
