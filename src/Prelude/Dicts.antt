-- ===== src/Prelude/Dicts.antt =====
-- Go maps with string keys, as association lists. A read of a missing key of a map of numbers
-- is 0, as in Go.
use Prim.Native.Nat.{ℕ}
use Prim.Native.String.{String}
use mathlib.Core.Path.{◌≡◌, refl}
use mathlib.Core.List.{List, [], ◌∷◌}
use mathlib.Core.Option.{Option, none, some}
use native.Mathlib.Omega.{arith}
use text.Mathlib.Text.{◌==◌ as str_eq}
use text.Mathlib.TextEquality.{eq_iff}
use shardlands.Prelude.Tests.{if◌then◌else◌}

abbrev pub Dict {ℓ} : Type ℓ → Type ℓ
Dict V = List (String × V)

module _ {ℓ} {V : Type ℓ} where
  unfoldable pub lookup : String → Dict V → Option V
  lookup key [] = none
  lookup key ((name, value) ∷ rest) = if str_eq name key then some value else lookup key rest

  -- m[key] = new: in the place of the old value, or at the end.
  unfoldable pub insert : String → V → Dict V → Dict V
  insert key new [] = (key, new) ∷ []
  insert key new ((name, value) ∷ rest) =
      if str_eq name key then (key, new) ∷ rest else (name, value) ∷ insert key new rest

  -- delete(m, key)
  unfoldable pub delete : String → Dict V → Dict V
  delete key [] = []
  delete key ((name, value) ∷ rest) =
      let others = delete key rest in if str_eq name key then others else (name, value) ∷ others

  pub lookup-insert :
      (key asked : String) (new : V) (dict : Dict V)
      → lookup asked (insert key new dict)
        ≡ (if str_eq key asked then some new else lookup asked dict)
  unfolding insert lookup
  lookup-insert key asked new ((name, value) ∷ rest) =
      let ih = lookup-insert key asked new rest in
      ground (arith, ih, eq_iff name asked, eq_iff key asked, eq_iff name key)
  lookup-insert key asked new [] = refl

  pub lookup-delete :
      (key asked : String) (dict : Dict V)
      → lookup asked (delete key dict) ≡ (if str_eq key asked then none else lookup asked dict)
  unfolding delete lookup
  lookup-delete key asked ((name, value) ∷ rest) =
      let ih = lookup-delete key asked rest in
      ground (arith, ih, eq_iff name asked, eq_iff key asked, eq_iff name key)
  lookup-delete key asked [] = ground arith

abbrev pub or_zero : Option ℕ → ℕ
or_zero none = 0
or_zero (some n) = n

-- m[k] of a map of numbers
abbrev pub count_of : String → Dict ℕ → ℕ
count_of k m = or_zero (lookup k m)
