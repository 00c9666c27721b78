-- ===== src/Base/Map.antt =====
-- Maps with numeric keys (DashMap and HashMap keyed by ids) as association lists. The order of
-- the list stands for the order in which an iterator visits the entries.
use Prim.Native.Nat.{ℕ}
use mathlib.Core.Path.{◌≡◌, refl}
use mathlib.Core.Logic.{inl, inr}
use mathlib.Core.Bool.{Bool, true}
use mathlib.Core.Option.{Option, none, some}
use mathlib.Core.List.{List, [], ◌∷◌}
use native.Mathlib.Omega.{arith}
use aos_server.Base.Tests.{◌==◌, if◌then◌else◌, is_some, Bool-cases, ==_refl}
use aos_server.Base.Lists.{is_nil}

abbrev pub Map {ℓ} : Type ℓ → Type ℓ
Map V = List (ℕ × V)

module _ {ℓ} {V : Type ℓ} where
  unfoldable pub get : ℕ → Map V → Option V
  get k [] = none
  get k ((j, v) ∷ m) = if j == k then some v else get k m

  unfoldable pub insert : ℕ → V → Map V → Map V
  insert k v [] = (k, v) ∷ []
  insert k v ((j, w) ∷ m) = if j == k then (k, v) ∷ m else (j, w) ∷ insert k v m

  unfoldable pub remove : ℕ → Map V → Map V
  remove k [] = []
  remove k ((j, w) ∷ m) = if j == k then remove k m else (j, w) ∷ remove k m

  -- `retain` by the value.
  unfoldable pub retain : (V → Bool) → Map V → Map V
  retain p [] = []
  retain p ((j, w) ∷ m) = if p w then (j, w) ∷ retain p m else retain p m

  abbrev pub contains_key : ℕ → Map V → Bool
  contains_key k m = is_some (get k m)

  abbrev pub is_empty : Map V → Bool
  is_empty m = is_nil m

  abbrev pub keys : Map V → List ℕ
  keys [] = []
  keys ((k, v) ∷ m) = k ∷ keys m

  abbrev pub values : Map V → List V
  values [] = []
  values ((k, v) ∷ m) = v ∷ values m

  pub get-insert :
      (k j : ℕ) (v : V) (m : Map V) → get j (insert k v m) ≡ (if k == j then some v else get j m)
  unfolding get insert
  get-insert k j v [] = refl
  get-insert k j v ((i, w) ∷ m) = ground (arith, get-insert k j v m)

  pub get-insert_self : (k : ℕ) (v : V) (m : Map V) → get k (insert k v m) ≡ some v
  get-insert_self k v m = ground (arith, get-insert k k v m)

  pub get-remove : (k j : ℕ) (m : Map V) → get j (remove k m) ≡ (if k == j then none else get j m)
  unfolding get remove
  get-remove k j [] = ground arith
  get-remove k j ((i, w) ∷ m) = ground (arith, get-remove k j m)

  pub get-is_empty : (k : ℕ) (m : Map V) → is_empty m ≡ true → get k m ≡ none
  unfolding get
  get-is_empty k [] h = refl
  get-is_empty k (x ∷ m) h = cc

  pub is_empty_of_get : (m : Map V) → ((k : ℕ) → get k m ≡ none) → is_empty m ≡ true
  unfolding get
  is_empty_of_get [] h = refl
  is_empty_of_get ((k, v) ∷ m) h = cc (rw (==_refl k) at (h k))

  pub get_one : (k j : ℕ) (v : V) → get j ((k, v) ∷ []) ≡ (if k == j then some v else none)
  unfolding get
  get_one k j v = refl

  -- Every key has one entry.
  abbrev pub IsMap : Map V → Type ℓ
  IsMap [] = Unit
  IsMap ((k, v) ∷ m) = (get k m ≡ none) × IsMap m

  pub insert-IsMap : (k : ℕ) (v : V) (m : Map V) → IsMap m → IsMap (insert k v m)
  unfolding insert get
  insert-IsMap k v [] h = (refl, tt)
  insert-IsMap k v ((j, w) ∷ m) h = elim (Bool-cases (j == k)) [
    | inl e ↦ ground (arith, e)
    | inr e ↦ rw e (ground (arith, e, get-insert k j v m), insert-IsMap k v m h.1)
  ]

  pub remove-IsMap : (k : ℕ) (m : Map V) → IsMap m → IsMap (remove k m)
  unfolding remove get
  remove-IsMap k [] h = tt
  remove-IsMap k ((j, w) ∷ m) h = elim (Bool-cases (j == k)) [
    | inl e ↦ rw e (remove-IsMap k m h.1)
    | inr e ↦ rw e (ground (arith, e, get-remove k j m), remove-IsMap k m h.1)
  ]

  -- With one entry for each key, `retain` keeps exactly the entries that pass the test.
  abbrev pub filter_option : (V → Bool) → Option V → Option V
  filter_option p none = none
  filter_option p (some v) = if p v then some v else none

  pub get-retain :
      (p : V → Bool) (k : ℕ) (m : Map V) → IsMap m → get k (retain p m) ≡ filter_option p (get k m)
  unfolding get retain
  get-retain p k [] h = refl
  get-retain p k ((j, w) ∷ m) h = elim (Bool-cases (j == k)) [
    | inl e ↦
        let e' : j ≡ k = ground arith in
        let gone : get k m ≡ none = rw e' at h.0 in
        elim (Bool-cases (p w)) [
          | inl t ↦ rw (e, t, retain) (rw e)
          | inr f ↦ rw (e, f) (rw (get-retain p k m h.1, gone))
        ]
    | inr e ↦ elim (Bool-cases (p w)) [
      | inl t ↦ ground (arith, get-retain p k m h.1)
      | inr f ↦ ground (arith, get-retain p k m h.1)
    ]
  ]

  pub retain-IsMap : (p : V → Bool) (m : Map V) → IsMap m → IsMap (retain p m)
  unfolding retain get
  retain-IsMap p [] h = tt
  retain-IsMap p ((j, w) ∷ m) h = elim (Bool-cases (p w)) [
    | inl t ↦ rw t (rw (get-retain p j m h.1, h.0), retain-IsMap p m h.1)
    | inr f ↦ rw f (retain-IsMap p m h.1)
  ]

-- `alter_all`, and iterators that map the values.
unfoldable pub map_values {ℓ κ} : {V : Type ℓ} {W : Type κ} → (V → W) → Map V → Map W
map_values f [] = []
map_values f ((k, v) ∷ m) = (k, f v) ∷ map_values f m

abbrev pub map_option {ℓ κ} : {V : Type ℓ} {W : Type κ} → (V → W) → Option V → Option W
map_option f none = none
map_option f (some v) = some (f v)

module _ {ℓ κ} {V : Type ℓ} {W : Type κ} (f : V → W) where
  pub get-map_values : (k : ℕ) (m : Map V) → get k (map_values f m) ≡ map_option f (get k m)
  unfolding get map_values
  get-map_values k [] = refl
  get-map_values k ((j, v) ∷ m) = ground (arith, get-map_values k m)

  pub map_values-IsMap : (m : Map V) → IsMap m → IsMap (map_values f m)
  unfolding map_values
  map_values-IsMap [] h = tt
  map_values-IsMap ((k, v) ∷ m) h = (rw (get-map_values k m, h.0) refl, map_values-IsMap m h.1)
