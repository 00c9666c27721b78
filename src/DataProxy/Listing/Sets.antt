-- ===== src/DataProxy/Listing/Sets.antt =====
-- The sets that a page of a listing is made of.
use text.Mathlib.Text.{◌==◌ as str_eq}
use text.Mathlib.TextEquality.{eq_iff}
use aos_server.Base.{
  arith, ℕ, suc, ◌≤◌, Bool, true, ◌≡◌, refl, inl, inr, Option, List, [], ◌∷◌, ◌++◌, In,
  In-append_left, In-append_right, length, any, All, Bool-cases,
}
use aos_server.Enums.Api.{ApiDataClass}
use aos_server.DataProxy.Listing.{same_class, same_time, same_contents, enter_into}

pub All-mono {ℓ κ μ} :
    {A : Type ℓ} (P : A → Type κ) (Q : A → Type μ) (xs : List A)
    → ((x : A) → P x → Q x)
    → All P xs
    → All Q xs
All-mono P Q [] f h = tt
All-mono P Q (x ∷ xs) f (h, hs) = (f x h, All-mono P Q xs f hs)

pub All-snoc {ℓ κ} :
    {A : Type ℓ} (P : A → Type κ) (x : A) (xs : List A) → All P xs → P x → All P (xs ++ x ∷ [])
All-snoc P x [] h p = (p, tt)
All-snoc P x (y ∷ xs) (h, hs) p = (h, All-snoc P x xs hs p)

module _ {A : Type 0} (same : A → A → Bool) where
  pub IsExact : Type 0
  IsExact = (x y : A) → same x y ≡ true → x ≡ y

  any-In : IsExact → (x : A) (xs : List A) → any (same x) xs ≡ true → In x xs
  unfolding IsExact
  any-In exact x [] e = cc
  any-In exact x (y ∷ xs) e = elim (Bool-cases (same x y)) [
    | inl here ↦ inl (exact x y here)
    | inr further ↦ inr (any-In exact x xs (rw further at e))
  ]

  pub In-enter_into : IsExact → (x : A) (xs : List A) → In x (enter_into same x xs)
  In-enter_into exact x xs = elim (Bool-cases (any (same x) xs)) [
    | inl there ↦ rw there (any-In exact x xs there)
    | inr new ↦ rw new (In-append_right x xs (x ∷ []) (inl refl))
  ]

  pub enter_into-keeps : (x y : A) (xs : List A) → In y xs → In y (enter_into same x xs)
  enter_into-keeps x y xs h = elim (Bool-cases (any (same x) xs)) [
    | inl there ↦ rw there h
    | inr new ↦ rw new (In-append_left y xs (x ∷ []) h)
  ]

  pub enter_into-All {κ} :
      (P : A → Type κ) (x : A) (xs : List A) → All P xs → P x → All P (enter_into same x xs)
  enter_into-All P x xs h p = elim (Bool-cases (any (same x) xs)) [
    | inl there ↦ rw there h
    | inr new ↦ rw new (All-snoc P x xs h p)
  ]

  length-snoc : (x : A) (xs : List A) → length (xs ++ x ∷ []) ≡ suc (length xs)
  length-snoc x [] = refl
  length-snoc x (y ∷ xs) = rw (length-snoc x xs) refl

  pub length-enter_into : (x : A) (xs : List A) → length (enter_into same x xs) ≤ suc (length xs)
  length-enter_into x xs = elim (Bool-cases (any (same x) xs)) [
    | inl there ↦ rw there (omega arith)
    | inr new ↦ rw new (omega (arith, length-snoc x xs))
  ]

pub str_eq-IsExact : IsExact str_eq
unfolding IsExact
str_eq-IsExact x y e = (eq_iff x y).0 e

same_class-eq : (a b : ApiDataClass) → same_class a b ≡ true → a ≡ b
same_class-eq a b e = ground arith

same_time-eq : (a b : Option ℕ) → same_time a b ≡ true → a ≡ b
same_time-eq a b e = ground arith

pub same_contents-IsExact : IsExact same_contents
unfolding IsExact
same_contents-IsExact a b e = ground (
  arith,
  eq_iff a.key b.key,
  same_class-eq a.storage_class b.storage_class,
  same_time-eq a.created_at b.created_at,
)
