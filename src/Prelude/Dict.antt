-- ===== src/Prelude/Dict.antt =====
-- Go's maps as association lists, with what a read of a missing key gives left to the caller.
use mathlib.Core.Path.{◌≡◌, refl}
use mathlib.Core.Option.{Option, none, some}
use mathlib.Core.List.{List, [], ◌∷◌}
use native.Mathlib.Omega.{arith}
use dicode_core.Prelude.Tests.{if◌then◌else◌, Keyed, ◌==◌, beq_refl}

module _ {ℓ κ} {K : Type ℓ} {V : Type κ} ⦃e : Keyed K⦄ where
  unfoldable pub lookup : K → List (K × V) → Option V
  lookup key [] = none
  lookup key ((other, val) ∷ rest) = if other == key then some val else lookup key rest

  -- `m[key] = val`
  unfoldable pub insert : K → V → List (K × V) → List (K × V)
  insert key val [] = (key, val) ∷ []
  insert key val ((other, old) ∷ rest) =
      if other == key then (key, val) ∷ rest else (other, old) ∷ insert key val rest

  -- `delete(m, key)`
  unfoldable pub delete : K → List (K × V) → List (K × V)
  delete key [] = []
  delete key ((other, old) ∷ rest) =
      let kept = delete key rest in if other == key then kept else (other, old) ∷ kept

  pub lookup-insert :
      (key other : K) (val : V) (rest : List (K × V))
      → lookup other (insert key val rest) ≡ (if key == other then some val else lookup other rest)
  unfolding lookup insert
  lookup-insert key other val [] = refl
  lookup-insert key other val ((i, old) ∷ rest) = ground (
    arith,
    e.eqb_iff key other,
    e.eqb_iff i key,
    e.eqb_iff i other,
    lookup-insert key other val rest,
  )

  pub lookup-delete :
      (key other : K) (rest : List (K × V))
      → lookup other (delete key rest) ≡ (if key == other then none else lookup other rest)
  unfolding lookup delete
  lookup-delete key other [] = ground arith
  lookup-delete key other ((i, old) ∷ rest) =
      ground (
        arith,
        e.eqb_iff key other,
        e.eqb_iff i key,
        e.eqb_iff i other,
        lookup-delete key other rest,
      )

  pub lookup-insert_self :
      (key : K) (val : V) (rest : List (K × V)) → lookup key (insert key val rest) ≡ some val
  lookup-insert_self key val rest = simp (lookup-insert, beq_refl)

  pub lookup-delete_self : (key : K) (rest : List (K × V)) → lookup key (delete key rest) ≡ none
  lookup-delete_self key rest = simp (lookup-delete, beq_refl)

pub ruleset dict_laws = (lookup-insert_self, lookup-delete_self, lookup-insert, lookup-delete)
