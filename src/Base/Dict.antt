-- ===== src/Base/Dict.antt =====
-- `HashMap<String, V>` as an association list and `HashSet<String>` as a list without order.
-- `insert` replaces the value of a key that is present, as in the standard library.
use mathlib.Core.Path.{◌≡◌, refl}
use mathlib.Core.Bool.{Bool, false, ◌||◌}
use mathlib.Core.List.{List, [], ◌∷◌}
use mathlib.Core.Option.{Option, none, some}
use native.Mathlib.Omega.{arith}
use rosrust_async.Base.Tests.{if◌then◌else◌}
use rosrust_async.Base.Text.{Str, str_eq, str_eq_iff}

module _ {ℓ} {V : Type ℓ} where
  unfoldable pub lookup : Str → List (Str × V) → Option V
  lookup k [] = none
  lookup k ((j, v) ∷ m) = if str_eq j k then some v else lookup k m

  unfoldable pub insert : Str → V → List (Str × V) → List (Str × V)
  insert k v [] = (k, v) ∷ []
  insert k v ((j, w) ∷ m) = if str_eq j k then (k, v) ∷ m else (j, w) ∷ insert k v m

  unfoldable pub remove : Str → List (Str × V) → List (Str × V)
  remove k [] = []
  remove k ((j, w) ∷ m) = if str_eq j k then remove k m else (j, w) ∷ remove k m

  pub lookup-insert :
      (k j : Str) (v : V) (m : List (Str × V))
      → lookup j (insert k v m) ≡ (if str_eq k j then some v else lookup j m)
  unfolding lookup insert
  lookup-insert k j v [] = refl
  lookup-insert k j v ((i, w) ∷ m) =
      ground (arith, str_eq_iff k j, str_eq_iff i k, str_eq_iff i j, lookup-insert k j v m)

  pub lookup-remove :
      (k j : Str) (m : List (Str × V))
      → lookup j (remove k m) ≡ (if str_eq k j then none else lookup j m)
  unfolding lookup remove
  lookup-remove k j [] = ground arith
  lookup-remove k j ((i, w) ∷ m) =
      ground (arith, str_eq_iff k j, str_eq_iff i k, str_eq_iff i j, lookup-remove k j m)

unfoldable pub contains : Str → List Str → Bool
contains k [] = false
contains k (j ∷ s) = str_eq j k || contains k s

unfoldable pub add : Str → List Str → List Str
unfolding contains
add k s = if contains k s then s else k ∷ s

unfoldable pub discard : Str → List Str → List Str
discard k [] = []
discard k (j ∷ s) = if str_eq j k then discard k s else j ∷ discard k s

pub contains-add : (k j : Str) (s : List Str) → contains j (add k s) ≡ (str_eq k j || contains j s)
unfolding add
contains-add k j s = ground (arith, str_eq_iff k j)

pub contains-discard :
    (k j : Str) (s : List Str)
    → contains j (discard k s) ≡ (if str_eq k j then false else contains j s)
unfolding contains discard
contains-discard k j [] = ground arith
contains-discard k j (i ∷ s) =
    ground (arith, str_eq_iff k j, str_eq_iff i k, str_eq_iff i j, contains-discard k j s)
