-- ===== src/Common/Lists.antt =====
-- Lists over the native numbers, and association lists keyed by numbers.
use Prim.Native.Nat.{ℕ, suc}
use mathlib.Core.Path.{◌≡◌, refl}
use mathlib.Core.Logic.{◌≢◌}
use mathlib.Core.Option.{Option, none, some}
use mathlib.Core.List.{List, [], ◌∷◌}
use native.Mathlib.Omega.{arith}
use cloudmeter.Common.Tests.{◌==◌, if◌then◌else◌}

module _ {ℓ} {A : Type ℓ} where
  abbrev pub length : List A → ℕ
  length [] = 0
  length (x ∷ xs) = suc (length xs)

  abbrev pub All {κ} : (A → Type κ) → List A → Type κ
  All P [] = Unit
  All P (x ∷ xs) = P x × All P xs

  -- `key in map`, and the first value under a key.
  abbrev pub lookup : ℕ → List (ℕ × A) → Option A
  lookup k [] = none
  lookup k ((j, v) ∷ m) = if k == j then some v else lookup k m

  -- `UPDATE … WHERE id = k`: the rows under the key are changed, no row is made.
  abbrev pub update : ℕ → (A → A) → List (ℕ × A) → List (ℕ × A)
  update k f [] = []
  update k f ((j, v) ∷ m) = if k == j then (j, f v) ∷ update k f m else (j, v) ∷ update k f m

  -- A row under the key, replaced or made.
  abbrev pub insert : ℕ → A → List (ℕ × A) → List (ℕ × A)
  insert k v [] = (k, v) ∷ []
  insert k v ((j, w) ∷ m) = if k == j then (k, v) ∷ m else (j, w) ∷ insert k v m

module _ {ℓ} {A : Type ℓ} where
  pub lookup-update_self :
      (k : ℕ) (f : A → A) (v : A) (m : List (ℕ × A))
      → lookup k m ≡ some v
      → lookup k (update k f m) ≡ some (f v)
  lookup-update_self k f v [] h = ground arith
  lookup-update_self k f v ((j, w) ∷ m) h = ground (arith, lookup-update_self k f v m)

  pub lookup-update_ne :
      (j k : ℕ) (f : A → A) (m : List (ℕ × A)) → j ≢ k → lookup j (update k f m) ≡ lookup j m
  lookup-update_ne j k f [] h = refl
  lookup-update_ne j k f ((i, w) ∷ m) h = ground (arith, lookup-update_ne j k f m h)

  pub lookup-update-none :
      (j k : ℕ) (f : A → A) (m : List (ℕ × A)) → lookup j m ≡ none → lookup j (update k f m) ≡ none
  lookup-update-none j k f [] h = refl
  lookup-update-none j k f ((i, w) ∷ m) h = ground (arith, lookup-update-none j k f m)

  pub lookup-insert_self : (k : ℕ) (v : A) (m : List (ℕ × A)) → lookup k (insert k v m) ≡ some v
  lookup-insert_self k v [] = ground arith
  lookup-insert_self k v ((j, w) ∷ m) = ground (arith, lookup-insert_self k v m)

  pub lookup-insert_ne :
      (j k : ℕ) (v : A) (m : List (ℕ × A)) → j ≢ k → lookup j (insert k v m) ≡ lookup j m
  lookup-insert_ne j k v [] h = ground arith
  lookup-insert_ne j k v ((i, w) ∷ m) h = ground (arith, lookup-insert_ne j k v m h)

  -- Two updates of the same rows are one.
  pub update-update :
      (k : ℕ) (f g h : A → A) (m : List (ℕ × A))
      → ((v : A) → f (g v) ≡ h v)
      → update k f (update k g m) ≡ update k h m
  update-update k f g h [] e = refl
  update-update k f g h ((j, w) ∷ m) e = ground (arith, e w, update-update k f g h m e)

  pub update-none : (k : ℕ) (f : A → A) (m : List (ℕ × A)) → lookup k m ≡ none → update k f m ≡ m
  update-none k f [] h = refl
  update-none k f ((j, w) ∷ m) h = ground (arith, update-none k f m)

  pub update-lookup-none :
      (j k : ℕ) (f : A → A) (m : List (ℕ × A)) → lookup j (update k f m) ≡ none → lookup j m ≡ none
  update-lookup-none j k f [] h = refl
  update-lookup-none j k f ((i, w) ∷ m) h = ground (arith, update-lookup-none j k f m)
