-- ===== src/Base/Map.antt =====
-- A Go map with string keys, as an association list, behind its laws: reading a missing key gives
-- `none`, a write replaces the value of its key, `delete` takes the key away.
use Prim.Native.String.{String}
use mathlib.Core.Path.{◌≡◌, refl}
use mathlib.Core.Bool.{Bool}
use mathlib.Core.Option.{Option, none, some}
use mathlib.Core.List.{List, [], ◌∷◌}
use native.Mathlib.Omega.{arith}
use text.Mathlib.Text.{◌==◌}
use text.Mathlib.TextEquality.{eq_iff}
use text.Mathlib.TextPositions.{eq_refl}
use nano_cloud.Base.Tests.{if◌then◌else◌}

abbrev pub Map {ℓ} : Type ℓ → Type ℓ
Map V = List (String × V)

module _ {ℓ} {V : Type ℓ} where
  unfoldable pub delete : String → Map V → Map V
  delete key [] = []
  delete key ((other, value) ∷ later) =
      let rest = delete key later in if other == key then rest else (other, value) ∷ rest

  -- the entries that pass the test: a Go loop that deletes the others
  unfoldable pub keep : (String → V → Bool) → Map V → Map V
  keep passes [] = []
  keep passes ((key, value) ∷ later) =
      let rest = keep passes later in if passes key value then (key, value) ∷ rest else rest

  unfoldable pub lookup : String → Map V → Option V
  lookup key [] = none
  lookup key ((other, value) ∷ later) = if other == key then some value else lookup key later

  unfoldable pub insert : String → V → Map V → Map V
  insert key new [] = (key, new) ∷ []
  insert key new ((other, value) ∷ later) =
      if other == key then (key, new) ∷ later else (other, value) ∷ insert key new later

  pub lookup-delete :
      (key at_key : String) (entries : Map V)
      → lookup at_key (delete key entries) ≡ (if key == at_key then none else lookup at_key entries)
  unfolding lookup delete
  lookup-delete key at_key [] = ground arith
  lookup-delete key at_key ((other, value) ∷ later) = ground (
    arith,
    eq_iff other key,
    eq_iff other at_key,
    eq_iff key at_key,
    lookup-delete key at_key later,
  )

  pub lookup-insert :
      (key at_key : String) (new : V) (entries : Map V)
      → lookup at_key (insert key new entries)
        ≡ (if key == at_key then some new else lookup at_key entries)
  unfolding lookup insert
  lookup-insert key at_key new [] = refl
  lookup-insert key at_key new ((other, value) ∷ later) = ground (
    arith,
    eq_iff other key,
    eq_iff other at_key,
    eq_iff key at_key,
    lookup-insert key at_key new later,
  )

  pub lookup-empty : (k : String) → lookup k (let m : Map V = [] in m) ≡ none
  unfolding lookup
  lookup-empty k = refl

  pub lookup-insert_self : (k : String) (v : V) (m : Map V) → lookup k (insert k v m) ≡ some v
  lookup-insert_self k v m = simp (lookup-insert, eq_refl)

  pub lookup-delete_self : (k : String) (m : Map V) → lookup k (delete k m) ≡ none
  lookup-delete_self k m = simp (lookup-delete, eq_refl)

pub ruleset map_laws = (lookup-insert, lookup-delete, lookup-empty)
