-- ===== src/Prelude/Dict.antt =====
-- Go maps with text keys as association lists; an insertion replaces the key's value. The program
-- never depends on the order in which Go ranges over a map, except where a module says so.
use mathlib.Core.Path.{◌≡◌, refl, ◌∙◌}
use mathlib.Core.Option.{Option, none, some}
use mathlib.Core.List.{List, [], ◌∷◌}
use native.Mathlib.Omega.{arith}
use opencode_go_cliproxyapi.Prelude.Tests.{if◌then◌else◌}
use opencode_go_cliproxyapi.Prelude.Text.{Text, text_eq, text_eq_iff, text_eq_of_ne, text_eq_refl}

abbrev pub Dict {ℓ} : Type ℓ → Type ℓ
Dict V = List (Text × V)

module _ {ℓ} {V : Type ℓ} where
  unfoldable pub lookup : Text → Dict V → Option V
  lookup k [] = none
  lookup k ((j, v) ∷ m) = if text_eq j k then some v else lookup k m

  unfoldable pub insert : Text → V → Dict V → Dict V
  insert k v [] = (k, v) ∷ []
  insert k v ((j, w) ∷ m) = if text_eq j k then (k, v) ∷ m else (j, w) ∷ insert k v m

  pub lookup-insert :
      (k j : Text) (v : V) (m : Dict V)
      → lookup j (insert k v m) ≡ (if text_eq k j then some v else lookup j m)
  unfolding lookup insert
  lookup-insert k j v [] = refl
  lookup-insert k j v ((i, w) ∷ m) =
      ground (arith, text_eq_iff k j, text_eq_iff i k, text_eq_iff i j, lookup-insert k j v m)

  pub lookup-insert_self : (k : Text) (v : V) (m : Dict V) → lookup k (insert k v m) ≡ some v
  lookup-insert_self k v m = rw (lookup-insert, text_eq_refl) refl

  pub lookup-insert_ne :
      (k j : Text) (v : V) (m : Dict V) → ¬ (k ≡ j) → lookup j (insert k v m) ≡ lookup j m
  lookup-insert_ne k j v m n = lookup-insert k j v m ∙ rw (text_eq_of_ne k j n) refl

  -- A key that has a value is not one that has none.
  pub keys_differ :
      (k j : Text) (v : V) (m : Dict V) → lookup k m ≡ none → lookup j m ≡ some v → ¬ (k ≡ j)
  keys_differ k j v m h g e = cc

  -- An insertion under a new key keeps what the other keys have.
  pub lookup-insert_new :
      (k j : Text) (v w : V) (m : Dict V)
      → lookup k m ≡ none
      → lookup j m ≡ some w
      → lookup j (insert k v m) ≡ some w
  lookup-insert_new k j v w m h g = lookup-insert_ne k j v m (keys_differ k j w m h g) ∙ g
