-- ===== src/Common/Maps.antt =====
-- `HashMap<i64, V>` as an association list. Iteration and `drain` go in the order of the list.
use Prim.Native.Nat.{ℕ}
use mathlib.Core.Path.{◌≡◌, refl, ◌∙◌}
use mathlib.Core.Logic.{◌≢◌}
use mathlib.Core.Bool.{Bool}
use mathlib.Core.Option.{Option, none, some}
use mathlib.Core.List.{List, [], ◌∷◌}
use native.Mathlib.Omega.{arith}
use stream_gateway.Common.Tests.{◌==◌, if◌then◌else◌, is_some}

abbrev pub Map {ℓ} : Type ℓ → Type ℓ
Map V = List (ℕ × V)

module _ {ℓ} {V : Type ℓ} where
  unfoldable pub lookup : ℕ → Map V → Option V
  lookup key [] = none
  lookup key ((other, held) ∷ entries) =
      let later = lookup key entries in if other == key then some held else later

  unfoldable pub insert : ℕ → V → Map V → Map V
  insert key fresh [] = (key, fresh) ∷ []
  insert key fresh ((other, held) ∷ entries) =
      let later = insert key fresh entries in
      if other == key then (key, fresh) ∷ entries else (other, held) ∷ later

  -- Every entry of the key goes.
  unfoldable pub remove : ℕ → Map V → Map V
  remove k [] = []
  remove k ((j, v) ∷ m) = let rest = remove k m in if j == k then rest else (j, v) ∷ rest

  -- `contains_key`
  unfoldable pub contains_key : ℕ → Map V → Bool
  unfolding lookup
  contains_key k m = is_some (lookup k m)

  -- `extend`
  unfoldable pub extend : Map V → Map V → Map V
  unfolding insert
  extend m [] = m
  extend m ((k, v) ∷ n) = extend (insert k v m) n

  pub lookup-insert :
      (key asked : ℕ) (fresh : V) (entries : Map V)
      → lookup asked (insert key fresh entries)
        ≡ (if key == asked then some fresh else lookup asked entries)
  unfolding lookup insert
  lookup-insert key asked fresh [] = refl
  lookup-insert key asked fresh ((other, held) ∷ entries) =
      ground (arith, lookup-insert key asked fresh entries)

  pub lookup-insert_self :
      (key : ℕ) (fresh : V) (entries : Map V) → lookup key (insert key fresh entries) ≡ some fresh
  lookup-insert_self key fresh entries = lookup-insert key key fresh entries ∙ ground arith

  pub lookup-insert_ne :
      (k j : ℕ) (v : V) (m : Map V) → k ≢ j → lookup j (insert k v m) ≡ lookup j m
  lookup-insert_ne k j v m h = lookup-insert k j v m ∙ ground arith

  pub lookup-remove :
      (k j : ℕ) (m : Map V) → lookup j (remove k m) ≡ (if k == j then none else lookup j m)
  unfolding lookup remove
  lookup-remove k j [] = ground arith
  lookup-remove k j ((i, w) ∷ m) = ground (arith, lookup-remove k j m)

  pub lookup-remove_self : (k : ℕ) (m : Map V) → lookup k (remove k m) ≡ none
  lookup-remove_self k m = lookup-remove k k m ∙ ground arith

  pub lookup-remove_ne : (k j : ℕ) (m : Map V) → k ≢ j → lookup j (remove k m) ≡ lookup j m
  lookup-remove_ne k j m h = lookup-remove k j m ∙ ground arith

  pub lookup-extend-none :
      (k : ℕ) (m n : Map V) → lookup k n ≡ none → lookup k (extend m n) ≡ lookup k m
  unfolding extend lookup
  lookup-extend-none k m [] h = refl
  lookup-extend-none k m ((j, v) ∷ n) h =
      ground (arith, lookup-extend-none k (insert j v m) n, lookup-insert j k v m)

  -- No key occurs twice, as in every `HashMap`.
  unfoldable pub Distinct : Map V → Type ℓ
  unfolding lookup
  Distinct [] = Unit
  Distinct ((k, v) ∷ m) = (lookup k m ≡ none) × Distinct m

  pub insert-Distinct : (k : ℕ) (v : V) (m : Map V) → Distinct m → Distinct (insert k v m)
  unfolding Distinct lookup insert
  insert-Distinct k v [] d = (refl, tt)
  insert-Distinct k v ((j, w) ∷ m) (h, d) =
      ground (arith, insert-Distinct k v m d, lookup-insert k j v m)

  pub lookup-extend-some :
      (k : ℕ) (v : V) (m n : Map V)
      → Distinct n
      → lookup k n ≡ some v
      → lookup k (extend m n) ≡ some v
  unfolding Distinct lookup extend
  lookup-extend-some k v m [] d h = absurd (ground arith)
  lookup-extend-some k v m ((j, w) ∷ n) (e, d) h = ground (
    arith,
    lookup-extend-some k v (insert j w m) n d,
    lookup-extend-none k (insert j w m) n,
    lookup-insert j k w m,
  )
