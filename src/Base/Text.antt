-- ===== src/Base/Text.antt =====
-- Texts that the code only compares, and association lists with texts for keys.
use Prim.Native.String.{String, ◌++◌ as concat}
use text.Mathlib.Text.{◌==◌ as string_beq}
use text.Mathlib.TextEquality.{eq_iff}
use mathlib.Core.Path.{◌≡◌, refl}
use mathlib.Core.Logic.{◌↔◌, ◌≢◌}
use mathlib.Core.Bool.{Bool, true, false}
use mathlib.Core.Option.{Option, none, some}
use mathlib.Core.List.{List, [], ◌∷◌}
use native.Mathlib.Omega.{arith}
use brother_connect.Base.Tests.{if◌then◌else◌}

abbrev pub str_eq : String → String → Bool
str_eq = string_beq

pub str_eq_iff : (s t : String) → (str_eq s t ≡ true) ↔ (s ≡ t)
str_eq_iff = eq_iff

pub str_eq_no : (s t : String) → s ≢ t → str_eq s t ≡ false
str_eq_no s t n = by_test (str_eq s t) (eq_iff s t).0
  where
    by_test : (b : Bool) → (b ≡ true → s ≡ t) → b ≡ false
    by_test true h = absurd (n (h refl))
    by_test false h = refl

pub str_ne : (s t : String) → str_eq s t ≡ false → s ≢ t
str_ne s t e same = absurd (no_test (str_eq s t) ((eq_iff s t).1 same) e)
  where
    no_test : (b : Bool) → b ≡ true → b ≡ false → ⊥
    no_test b t f = cc (t, f)

abbrev pub str_append : String → String → String
str_append s t = concat s t

-- Go's maps: a read gives `none` for a missing key, a write puts a value in place or at the end,
-- and `delete` takes a key out.
module _ {ℓ} {V : Type ℓ} where
  unfoldable pub lookup : String → List (String × V) → Option V
  lookup key [] = none
  lookup key ((name, value) ∷ rest) =
      let later = lookup key rest in if str_eq name key then some value else later

  unfoldable pub delete : String → List (String × V) → List (String × V)
  delete key [] = []
  delete key ((name, value) ∷ rest) =
      let later = delete key rest in if str_eq name key then later else (name, value) ∷ later

  pub lookup-delete :
      (gone key : String) (entries : List (String × V))
      → lookup key (delete gone entries) ≡ (if str_eq gone key then none else lookup key entries)
  unfolding lookup delete
  lookup-delete gone key [] = ground arith
  lookup-delete gone key ((name, value) ∷ rest) =
      ground
        (arith, lookup-delete gone key rest, eq_iff name gone, eq_iff name key, eq_iff gone key)

  unfoldable pub insert : String → V → List (String × V) → List (String × V)
  insert key value [] = (key, value) ∷ []
  insert key value ((name, old) ∷ rest) =
      let later = insert key value rest in
      if str_eq name key then (key, value) ∷ rest else (name, old) ∷ later

  pub lookup-insert :
      (written key : String) (value : V) (entries : List (String × V))
      → lookup key (insert written value entries)
        ≡ (if str_eq written key then some value else lookup key entries)
  unfolding lookup insert
  lookup-insert written key value [] = refl
  lookup-insert written key value ((name, old) ∷ rest) = ground (
    arith,
    lookup-insert written key value rest,
    eq_iff name written,
    eq_iff name key,
    eq_iff written key,
  )
