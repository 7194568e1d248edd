-- ===== src/Prelude/Maps.antt =====
-- Go's maps with string keys, and Go's slices, both with their `nil`.
-- A map is `nil` or its entries. A Go program ranges over a map in no fixed order: the loops here
-- visit the last entry first, and the lemmas speak of lookups only.
use Prim.Native.String.{String}
use mathlib.Core.Path.{◌≡◌, refl}
use mathlib.Core.Bool.{true, false}
use mathlib.Core.Option.{Option, none, some}
use mathlib.Core.List.{List, [], ◌∷◌}
use native.Mathlib.Omega.{arith}
use text.Mathlib.Text.{◌==◌}
use text.Mathlib.TextEquality.{eq_iff}
use yurt_app_manager.Prelude.Lists.{has}
use yurt_app_manager.Prelude.Errors.{Result, ok, panic}
use yurt_app_manager.Prelude.Tests.{if◌then◌else◌}

abbrev pub GoSlice {ℓ} : Type ℓ → Type ℓ
GoSlice A = Option (List A)

abbrev pub GoMap {ℓ} : Type ℓ → Type ℓ
GoMap V = Option (List (String × V))

module _ {ℓ} {A : Type ℓ} where
  -- The items that a range over a slice or a map visits: none of `nil`.
  abbrev pub items : Option (List A) → List A
  items none = []
  items (some l) = l

module _ {ℓ} {V : Type ℓ} where
  abbrev pub lookup : String → List (String × V) → Option V
  lookup k [] = none
  lookup k ((j, v) ∷ m) = if j == k then some v else lookup k m

  abbrev pub without : String → List (String × V) → List (String × V)
  without k [] = []
  without k ((j, v) ∷ m) = let rest = without k m in if j == k then rest else (j, v) ∷ rest

  abbrev pub insert : String → V → List (String × V) → List (String × V)
  insert k v m = (k, v) ∷ without k m

  abbrev pub keys : List (String × V) → List String
  keys [] = []
  keys ((k, v) ∷ m) = k ∷ keys m

  -- A name is a key exactly where it has a value.
  pub has-keys :
      (k : String) (m : List (String × V))
      → has k (keys m) ≡ elim (lookup k m) [ none ↦ false | some _ ↦ true ]
  has-keys k [] = refl
  has-keys k ((j, v) ∷ m) = ground (arith, has-keys k m)

  pub lookup-without :
      (k j : String) (m : List (String × V))
      → lookup j (without k m) ≡ (if k == j then none else lookup j m)
  lookup-without k j [] = ground arith
  lookup-without k j ((i, v) ∷ m) =
      ground (arith, lookup-without k j m, eq_iff i k, eq_iff i j, eq_iff k j)

  pub lookup-insert :
      (k j : String) (v : V) (m : List (String × V))
      → lookup j (insert k v m) ≡ (if k == j then some v else lookup j m)
  lookup-insert k j v m = ground (arith, lookup-without k j m)

module _ {ℓ} {V : Type ℓ} where
  -- `m[k]` with its `ok`; a `nil` map has no key
  abbrev pub get : GoMap V → String → Option V
  get m k = lookup k (items m)

  -- `delete(m, k)`, which does nothing to a `nil` map
  abbrev pub delete : String → GoMap V → GoMap V
  delete k none = none
  delete k (some m) = some (without k m)

  -- `m[k] = v`, which panics on a `nil` map
  abbrev pub put : String → V → GoMap V → Result (GoMap V)
  put k v none = panic
  put k v (some m) = ok (some (insert k v m))

  pub get-delete :
      (k j : String) (m : GoMap V) → get (delete k m) j ≡ (if k == j then none else get m j)
  get-delete k j none = ground arith
  get-delete k j (some m) = lookup-without k j m

-- `m[k]` of a map of texts: the empty text where the key is missing
abbrev pub value_of : GoMap String → String → String
value_of m k = elim (get m k) [ none ↦ "" | some v ↦ v ]
