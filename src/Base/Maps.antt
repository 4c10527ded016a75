-- ===== src/Base/Maps.antt =====
-- Go maps with text keys, as association lists. A nil map is the empty list, where the code
-- only reads it or makes it before a write.
use Prim.Native.String.{String}
use mathlib.Core.Path.{◌≡◌}
use mathlib.Core.Bool.{Bool, true, false}
use mathlib.Core.Option.{Option, none, some}
use mathlib.Core.List.{List, [], ◌∷◌}
use native.Mathlib.Omega.{arith}
use text.Mathlib.TextEquality.{eq_iff}
use cliapp.Base.Tests.{◌==◌, if◌then◌else◌}

module _ {ℓ} {V : Type ℓ} where
  -- Go's `delete(m, k)`
  unfoldable pub delete : String → List (String × V) → List (String × V)
  delete key [] = []
  delete key ((name, value) ∷ others) =
      let kept = delete key others in if name == key then kept else (name, value) ∷ kept

  -- `m[key]` and whether it was found
  unfoldable pub lookup : String → List (String × V) → Option V
  lookup key [] = none
  lookup key ((name, value) ∷ others) =
      let further = lookup key others in if name == key then some value else further

  -- the second result of `_, found := m[key]`
  unfoldable pub contains_key : String → List (String × V) → Bool
  contains_key key [] = false
  contains_key key ((name, _) ∷ others) =
      let further = contains_key key others in if name == key then true else further

  -- `m[key] = value`: the order of a map is of no account, so a new entry stands first.
  unfoldable pub insert : String → V → List (String × V) → List (String × V)
  unfolding delete
  insert key value m = (key, value) ∷ delete key m

  pub lookup-delete :
      (key other : String) (m : List (String × V))
      → lookup other (delete key m) ≡ (if key == other then none else lookup other m)
  unfolding lookup delete
  lookup-delete key other [] = ground arith
  lookup-delete key other ((name, value) ∷ others) =
      ground (
        arith,
        lookup-delete key other others,
        eq_iff name key,
        eq_iff name other,
        eq_iff key other,
      )

  pub lookup-insert :
      (key other : String) (value : V) (m : List (String × V))
      → lookup other (insert key value m) ≡ (if key == other then some value else lookup other m)
  unfolding lookup insert
  lookup-insert key other value m = ground (arith, lookup-delete key other m)
