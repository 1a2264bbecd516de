-- ===== src/Prelude/Maps.antt =====
-- `std::unordered_map<std::string, V>` as an association list. `emplace` keeps an entry that is
-- there; the order of iteration, which the standard leaves open, is the order of insertion.
use Prim.Native.String.{String}
use mathlib.Core.Path.{◌≡◌}
use mathlib.Core.Option.{Option, none, some}
use mathlib.Core.List.{List, [], ◌∷◌}
use native.Mathlib.Omega.{arith}
use text.Mathlib.Text.{◌==◌}
use text.Mathlib.TextEquality.{eq_iff}
use kekmonitors_cpp.Prelude.Tests.{if◌then◌else◌}

abbrev pub Map {ℓ} : Type ℓ → Type ℓ
Map V = List (String × V)

module _ {ℓ} {V : Type ℓ} where
  unfoldable pub find : String → Map V → Option V
  find k [] = none
  find k ((j, v) ∷ m) = if j == k then some v else find k m

  -- `m.erase(m.find(k))`.
  unfoldable pub erase : String → Map V → Map V
  erase k [] = []
  erase k ((j, v) ∷ m) = if j == k then erase k m else (j, v) ∷ erase k m

  -- A write through the iterator of the entry for `k`.
  unfoldable pub assign : String → V → Map V → Map V
  assign k v [] = []
  assign k v ((j, w) ∷ m) = if j == k then (j, v) ∷ assign k v m else (j, w) ∷ assign k v m

  unfoldable pub emplace : String → V → Map V → Map V
  emplace k v [] = (k, v) ∷ []
  emplace k v ((j, w) ∷ m) = if j == k then (j, w) ∷ m else (j, w) ∷ emplace k v m

  pub find-erase :
      (k j : String) (m : Map V) → find j (erase k m) ≡ (if k == j then none else find j m)
  unfolding find erase
  find-erase k j [] = ground arith
  find-erase k j ((i, w) ∷ m) = ground (arith, eq_iff k j, eq_iff i k, eq_iff i j, find-erase k j m)

  pub find-assign :
      (k j : String) (v : V) (m : Map V)
      → find j (assign k v m)
        ≡ (if k == j then elim (find k m) [ none ↦ none | some _ ↦ some v ] else find j m)
  unfolding find assign
  find-assign k j v [] = ground arith
  find-assign k j v ((i, w) ∷ m) =
      ground (arith, eq_iff k j, eq_iff i k, eq_iff i j, find-assign k j v m)

  pub find-emplace :
      (k j : String) (v : V) (m : Map V)
      → find j (emplace k v m)
        ≡ (if k == j then elim (find k m) [ none ↦ some v | some w ↦ some w ] else find j m)
  unfolding find emplace
  find-emplace k j v [] = ground (arith, eq_iff k j)
  find-emplace k j v ((i, w) ∷ m) =
      ground (arith, eq_iff k j, eq_iff i k, eq_iff i j, find-emplace k j v m)

pub ruleset map_laws = (find-erase, find-assign, find-emplace)
