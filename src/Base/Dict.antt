-- ===== src/Base/Dict.antt =====
-- Go maps with text keys, as association lists.
use Prim.Native.Nat.{suc}
use Prim.Native.String.{String}
use mathlib.Core.Path.{◌≡◌, refl}
use mathlib.Core.Option.{Option, none, some}
use mathlib.Core.List.{List, [], ◌∷◌}
use native.Mathlib.Omega.{arith}
use text.Mathlib.Text.{◌==◌ as str_eq}
use text.Mathlib.TextEquality.{eq_iff}
use root_open_im_server.Base.Tests.{if◌then◌else◌}
use root_open_im_server.Base.Lists.{length}

module _ {ℓ} {V : Type ℓ} where
  abbrev pub lookup : String → List (String × V) → Option V
  lookup k [] = none
  lookup k ((j, v) ∷ m) = if str_eq j k then some v else lookup k m

  -- `m[k] = v`: in place, or as a new entry.
  abbrev pub insert : String → V → List (String × V) → List (String × V)
  insert k v [] = (k, v) ∷ []
  insert k v ((j, w) ∷ m) = if str_eq j k then (k, v) ∷ m else (j, w) ∷ insert k v m

  -- `delete(m, k)`.
  abbrev pub remove : String → List (String × V) → List (String × V)
  remove k [] = []
  remove k ((j, w) ∷ m) = if str_eq j k then remove k m else (j, w) ∷ remove k m

  pub lookup-insert :
      (k j : String) (v : V) (m : List (String × V))
      → lookup j (insert k v m) ≡ (if str_eq k j then some v else lookup j m)
  lookup-insert k j v [] = refl
  lookup-insert k j v ((i, w) ∷ m) =
      ground (arith, eq_iff k j, eq_iff i k, eq_iff i j, lookup-insert k j v m)

  pub lookup-remove :
      (k j : String) (m : List (String × V))
      → lookup j (remove k m) ≡ (if str_eq k j then none else lookup j m)
  lookup-remove k j [] = ground arith
  lookup-remove k j ((i, w) ∷ m) =
      ground (arith, eq_iff k j, eq_iff i k, eq_iff i j, lookup-remove k j m)

  -- No key occurs twice.
  abbrev pub IsMap : List (String × V) → Type ℓ
  IsMap [] = Unit
  IsMap ((k, v) ∷ m) = (lookup k m ≡ none) × IsMap m

  pub insert-IsMap : (k : String) (v : V) (m : List (String × V)) → IsMap m → IsMap (insert k v m)
  insert-IsMap k v [] h = (refl, tt)
  insert-IsMap k v ((j, w) ∷ m) h =
      ground (arith, eq_iff j k, eq_iff k j, lookup-insert k j v m, insert-IsMap k v m)

  pub remove-IsMap : (k : String) (m : List (String × V)) → IsMap m → IsMap (remove k m)
  remove-IsMap k [] h = tt
  remove-IsMap k ((j, w) ∷ m) h = ground (arith, eq_iff k j, lookup-remove k j m, remove-IsMap k m)

  pub remove_absent : (k : String) (m : List (String × V)) → lookup k m ≡ none → remove k m ≡ m
  remove_absent k [] h = refl
  remove_absent k ((j, w) ∷ m) h = ground (arith, remove_absent k m)

  pub length-insert_new :
      (k : String) (v : V) (m : List (String × V))
      → lookup k m ≡ none
      → length (insert k v m) ≡ suc (length m)
  length-insert_new k v [] h = refl
  length-insert_new k v ((j, w) ∷ m) h = ground (arith, length-insert_new k v m)

  pub length-insert_old :
      (k : String) (v w : V) (m : List (String × V))
      → lookup k m ≡ some w
      → length (insert k v m) ≡ length m
  length-insert_old k v w [] h = ground arith
  length-insert_old k v w ((j, u) ∷ m) h = ground (arith, length-insert_old k v w m)

  pub length-remove_old :
      (k : String) (w : V) (m : List (String × V))
      → IsMap m
      → lookup k m ≡ some w
      → suc (length (remove k m)) ≡ length m
  length-remove_old k w [] h e = ground arith
  length-remove_old k w ((j, u) ∷ m) h e =
      ground (arith, eq_iff j k, remove_absent k m, length-remove_old k w m)
