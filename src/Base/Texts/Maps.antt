-- ===== src/Base/Texts/Maps.antt =====
-- Laws of the maps with texts as keys.
use Prim.Native.String.{String}
use mathlib.Core.Bool.{true, false}
use mathlib.Core.Logic.{◌≢◌, inl, inr}
use mathlib.Core.Option.{none, some}
use mathlib.Core.List.{List, [], ◌∷◌}
use mathlib.Core.Path.{◌≡◌, refl}
use text.Mathlib.Text.{◌==◌}
use text.Mathlib.TextEquality.{eq_iff}
use native.Mathlib.Omega.{arith}
use aos_server.Base.Tests.{if◌then◌else◌, Bool-cases}
use aos_server.Base.Lists.{In}
use aos_server.Base.Texts.{lookup, put, erase}

pub eq_refl : (s : String) → (s == s) ≡ true
eq_refl s = (eq_iff s s).1 refl

pub ne-eq_false : (s t : String) → s ≢ t → (s == t) ≡ false
ne-eq_false s t h = elim (Bool-cases (s == t)) [
  | inl same ↦ absurd (h ((eq_iff s t).0 same))
  | inr other ↦ other
]

module _ {V : Type 0} where
  pub lookup-put :
      (k j : String) (v : V) (m : List (String × V))
      → lookup j (put k v m) ≡ (if k == j then some v else lookup j m)
  unfolding lookup put
  lookup-put k j v [] = refl
  lookup-put k j v ((i, w) ∷ m) =
      ground (arith, eq_iff k j, eq_iff i k, eq_iff i j, lookup-put k j v m)

  pub lookup-put_self : (k : String) (v : V) (m : List (String × V)) → lookup k (put k v m) ≡ some v
  lookup-put_self k v m = simp (lookup-put, eq_refl)

  pub lookup-erase :
      (k j : String) (m : List (String × V))
      → lookup j (erase k m) ≡ (if k == j then none else lookup j m)
  unfolding lookup erase
  lookup-erase k j [] = ground arith
  lookup-erase k j ((i, w) ∷ m) =
      ground (arith, eq_iff k j, eq_iff i k, eq_iff i j, lookup-erase k j m)

  abbrev pub erase_each : List String → List (String × V) → List (String × V)
  erase_each [] m = m
  erase_each (k ∷ ks) m = erase_each ks (erase k m)

  pub lookup-erase_each_none :
      (ks : List String) (j : String) (m : List (String × V))
      → lookup j m ≡ none
      → lookup j (erase_each ks m) ≡ none
  lookup-erase_each_none [] j m h = h
  lookup-erase_each_none (k ∷ ks) j m h =
      lookup-erase_each_none ks j (erase k m) (elim (Bool-cases (k == j)) [
        | inl same ↦ rw (lookup-erase k j m, same)
        | inr other ↦ rw (lookup-erase k j m, other) h
      ])

  -- What is erased is found no more.
  pub lookup-erase_each :
      (ks : List String) (j : String) (m : List (String × V))
      → In j ks
      → lookup j (erase_each ks m) ≡ none
  lookup-erase_each [] j m h = absurd h
  lookup-erase_each (k ∷ ks) j m (inl e) =
      lookup-erase_each_none ks j (erase k m) (rw (lookup-erase k j m, e, eq_refl) refl)
  lookup-erase_each (k ∷ ks) j m (inr h) = lookup-erase_each ks j (erase k m) h
