-- ===== src/Common/Map.antt =====
-- A hash map as an association list with one entry for a key; the order is not part of the model.
use Prim.Native.Nat.{suc, ◌≤◌}
use mathlib.Core.Path.{◌≡◌, refl}
use mathlib.Core.Logic.{◌≢◌, ite}
use mathlib.Core.Option.{Option, none, some}
use mathlib.Core.List.{List, [], ◌∷◌}
use native.Mathlib.Omega.{arith}
use simple_chat_ddn.Common.Lists.{length}

abbrev pub Map {ℓ} : Type ℓ → Type ℓ → Type ℓ
Map K V = List (K × V)

module _ {ℓ} {K V : Type ℓ} (dec : Discrete K) where
  unfoldable pub lookup : K → Map K V → Option V
  lookup k [] = none
  lookup k ((j, v) ∷ m) = ite (dec j k) (some v) (lookup k m)

  unfoldable pub insert : K → V → Map K V → Map K V
  insert k v [] = (k, v) ∷ []
  insert k v ((j, w) ∷ m) = ite (dec j k) ((k, v) ∷ m) ((j, w) ∷ insert k v m)

  unfoldable pub remove : K → Map K V → Map K V
  remove k [] = []
  remove k ((j, w) ∷ m) = ite (dec j k) m ((j, w) ∷ remove k m)

  -- One entry for a key.
  abbrev pub NodupKeys : Map K V → Type ℓ
  NodupKeys [] = Unit {ℓ}
  NodupKeys ((j, v) ∷ m) = (lookup j m ≡ none) × NodupKeys m

  pub lookup-insert_self : (k : K) (v : V) (m : Map K V) → lookup k (insert k v m) ≡ some v
  unfolding lookup insert
  lookup-insert_self k v [] = ground arith
  lookup-insert_self k v ((j, w) ∷ m) = ground (arith, lookup-insert_self k v m)

  pub lookup-insert_ne :
      (k j : K) (v : V) (m : Map K V) → j ≢ k → lookup j (insert k v m) ≡ lookup j m
  unfolding lookup insert
  lookup-insert_ne k j v [] h = ground arith
  lookup-insert_ne k j v ((i, w) ∷ m) h = ground (arith, lookup-insert_ne k j v m)

  pub lookup-remove_ne : (k j : K) (m : Map K V) → j ≢ k → lookup j (remove k m) ≡ lookup j m
  unfolding lookup remove
  lookup-remove_ne k j [] h = refl
  lookup-remove_ne k j ((i, w) ∷ m) h = ground (arith, lookup-remove_ne k j m)

  pub lookup-remove_self : (k : K) (m : Map K V) → NodupKeys m → lookup k (remove k m) ≡ none
  unfolding lookup remove
  lookup-remove_self k [] u = refl
  lookup-remove_self k ((i, w) ∷ m) u = ground (arith, lookup-remove_self k m u.1)

  pub insert-NodupKeys : (k : K) (v : V) (m : Map K V) → NodupKeys m → NodupKeys (insert k v m)
  unfolding lookup insert
  insert-NodupKeys k v [] u = (refl, tt)
  insert-NodupKeys k v ((j, w) ∷ m) u =
      ground (arith, insert-NodupKeys k v m u.1, lookup-insert_ne k j v m)

  pub lookup-remove-none :
      (j k : K) (m : Map K V) → lookup j m ≡ none → lookup j (remove k m) ≡ none
  unfolding lookup remove
  lookup-remove-none j k [] h = refl
  lookup-remove-none j k ((i, w) ∷ m) h = ground (arith, lookup-remove-none j k m)

  pub remove-NodupKeys : (k : K) (m : Map K V) → NodupKeys m → NodupKeys (remove k m)
  unfolding lookup remove
  remove-NodupKeys k [] u = tt
  remove-NodupKeys k ((j, w) ∷ m) u =
      ground (arith, remove-NodupKeys k m u.1, lookup-remove-none j k m)

  pub length-insert_le : (k : K) (v : V) (m : Map K V) → length (insert k v m) ≤ suc (length m)
  unfolding insert
  length-insert_le k v [] = omega arith
  length-insert_le k v ((j, w) ∷ m) = ground (arith, length-insert_le k v m)

  pub length-remove :
      (k : K) (v : V) (m : Map K V) → lookup k m ≡ some v → suc (length (remove k m)) ≡ length m
  unfolding lookup remove
  length-remove k v [] h = cc
  length-remove k v ((j, w) ∷ m) h = ground (arith, length-remove k v m)
