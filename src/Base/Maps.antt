-- ===== src/Base/Maps.antt =====
-- Go maps with string keys, as association lists. A map is ranged over in the list's order; the
-- theorems hold for every list, so for every order.
use mathlib.Core.Path.{◌≡◌, refl, subst₂}
use mathlib.Core.Logic.{inl, inr}
use mathlib.Core.Bool.{Bool}
use mathlib.Core.Option.{Option, none, some}
use mathlib.Core.List.{List, [], ◌∷◌}
use native.Mathlib.Omega.{arith}
use lierc.Base.Tests.{if◌then◌else◌, is_some, Bool-cases}
use lierc.Base.Strings.{Text, text_eq, text_eq_iff}

abbrev pub Map {ℓ} : Type ℓ → Type ℓ
Map V = List (Text × V)

module _ {ℓ} {V : Type ℓ} where
  -- v, ok := m[k]
  unfoldable pub lookup : Text → Map V → Option V
  lookup k [] = none
  lookup k ((j, v) ∷ m) = if text_eq j k then some v else lookup k m

  -- m[k] = v
  unfoldable pub insert : Text → V → Map V → Map V
  insert k v [] = (k, v) ∷ []
  insert k v ((j, w) ∷ m) = if text_eq j k then (k, v) ∷ m else (j, w) ∷ insert k v m

  -- delete(m, k)
  unfoldable pub delete : Text → Map V → Map V
  delete k [] = []
  delete k ((j, w) ∷ m) = if text_eq j k then delete k m else (j, w) ∷ delete k m

  -- The values, in the order of the list.
  unfoldable pub values : Map V → List V
  values [] = []
  values ((k, v) ∷ m) = v ∷ values m

  -- _, ok := m[k]
  abbrev pub has : Text → Map V → Bool
  has k m = is_some (lookup k m)

  pub lookup-insert :
      (k j : Text) (v : V) (m : Map V)
      → lookup j (insert k v m) ≡ (if text_eq k j then some v else lookup j m)
  unfolding lookup insert
  lookup-insert k j v [] = refl
  lookup-insert k j v ((i, w) ∷ m) =
      ground (arith, text_eq_iff k j, text_eq_iff i k, text_eq_iff i j, lookup-insert k j v m)

  pub lookup-delete :
      (k j : Text) (m : Map V) → lookup j (delete k m) ≡ (if text_eq k j then none else lookup j m)
  unfolding lookup delete
  lookup-delete k j [] = ground arith
  lookup-delete k j ((i, w) ∷ m) =
      ground (arith, text_eq_iff k j, text_eq_iff i k, text_eq_iff i j, lookup-delete k j m)

-- The same map with each value changed.
unfoldable pub map_values {ℓ κ} : {V : Type ℓ} {W : Type κ} → (V → W) → Map V → Map W
map_values f [] = []
map_values f ((k, v) ∷ m) = (k, f v) ∷ map_values f m

abbrev pub map_option {ℓ κ} : {V : Type ℓ} {W : Type κ} → (V → W) → Option V → Option W
map_option f none = none
map_option f (some v) = some (f v)

pub lookup-map_values {ℓ κ} :
    {V : Type ℓ} {W : Type κ} (f : V → W) (k : Text) (m : Map V)
    → lookup k (map_values f m) ≡ map_option f (lookup k m)
unfolding lookup map_values
lookup-map_values f k [] = refl
lookup-map_values f k ((j, v) ∷ m) = elim (Bool-cases (text_eq j k)) [
  | inl e ↦ rw e
  | inr e ↦ rw e (lookup-map_values f k m)
]

-- A predicate of every entry.
abbrev pub Entries {ℓ κ} : {V : Type ℓ} → (Text → V → Type κ) → Map V → Type κ
Entries P [] = Unit
Entries P ((k, v) ∷ m) = P k v × Entries P m

module _ {ℓ κ} {V : Type ℓ} (P : Text → V → Type κ) where
  pub lookup-Entries : (k : Text) (v : V) (m : Map V) → Entries P m → lookup k m ≡ some v → P k v
  unfolding lookup
  lookup-Entries k v [] h e = absurd (cc)
  lookup-Entries k v ((j, w) ∷ m) h e = elim (Bool-cases (text_eq j k)) [
    | inl t ↦ let same : w ≡ v = ground arith in subst₂ P ((text_eq_iff j k).0 t) same h.0
    | inr t ↦ lookup-Entries k v m h.1 (rw (t, lookup) at e)
  ]

  pub insert-Entries :
      (k : Text) (v : V) (m : Map V) → P k v → Entries P m → Entries P (insert k v m)
  unfolding insert
  insert-Entries k v [] p h = (p, tt)
  insert-Entries k v ((j, w) ∷ m) p h = elim (Bool-cases (text_eq j k)) [
    | inl t ↦ rw t (p, h.1)
    | inr t ↦ rw t (h.0, insert-Entries k v m p h.1)
  ]

  pub delete-Entries : (k : Text) (m : Map V) → Entries P m → Entries P (delete k m)
  unfolding delete
  delete-Entries k [] h = tt
  delete-Entries k ((j, w) ∷ m) h = elim (Bool-cases (text_eq j k)) [
    | inl t ↦ rw t (delete-Entries k m h.1)
    | inr t ↦ rw t (h.0, delete-Entries k m h.1)
  ]

pub map_values-Entries {ℓ κ} :
    {V : Type ℓ} (P : Text → V → Type κ) (f : V → V)
    → ((k : Text) (v : V) → P k v → P k (f v))
    → (m : Map V) → Entries P m
    → Entries P (map_values f m)
unfolding map_values
map_values-Entries P f step [] h = tt
map_values-Entries P f step ((k, v) ∷ m) h = (step k v h.0, map_values-Entries P f step m h.1)
