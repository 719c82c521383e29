-- ===== src/Prelude/Maps.antt =====
-- Go maps with string keys, as association lists in the order in which the keys were added.
use Prim.Native.String.{String}
use mathlib.Core.Path.{◌≡◌, refl}
use mathlib.Core.Bool.{Bool, true, false}
use mathlib.Core.Option.{Option, none, some}
use mathlib.Core.List.{List, [], ◌∷◌}
use native.Mathlib.Omega.{arith}
use lago.Prelude.Tests.{str_eq, eq_iff, if◌then◌else◌}

-- Reading a key, as `m[key]` with its `ok`, and writing one.
module _ {V : Type 0} where
  unfoldable pub lookup : String → List (String × V) → Option V
  lookup key [] = none
  lookup key ((first, value) ∷ entries) =
      if str_eq first key then some value else lookup key entries

  unfoldable pub insert : String → V → List (String × V) → List (String × V)
  insert key new [] = (key, new) ∷ []
  insert key new ((first, value) ∷ entries) =
      if str_eq first key then (first, new) ∷ entries else (first, value) ∷ insert key new entries

  pub lookup-insert :
      (written read : String) (new : V) (entries : List (String × V))
      → lookup read (insert written new entries)
        ≡ (if str_eq written read then some new else lookup read entries)
  unfolding lookup insert
  lookup-insert written read new [] = refl
  lookup-insert written read new ((first, value) ∷ entries) =
      let others = lookup-insert written read new entries in
      ground (others, arith, eq_iff first written, eq_iff first read, eq_iff written read)

-- `slices.Contains`
unfoldable pub contains : List String → String → Bool
contains [] s = false
contains (x ∷ xs) s = if str_eq x s then true else contains xs s
