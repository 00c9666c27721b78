-- ===== src/Base/Results.antt =====
-- Rust's `Result`, with `?` as the bind of `do` blocks.
use Prim.Native.String.{String}
use mathlib.Core.Path.{◌≡◌, refl, subst}
use mathlib.Core.Bool.{Bool, true, false}
use aos_server.Base.Tests.{if◌then◌else◌}
use mathlib.Core.Option.{Option, none, some}
use mathlib.Core.List.{List, [], ◌∷◌}

pub data Result {ℓ κ} (E : Type κ) (A : Type ℓ) : Type (ℓ ⊔ κ) where
  ok : A → Result E A
  err : E → Result E A

-- `anyhow::Error`: a message, or the one error type that the code downcasts to.
pub data Error : Type 0 where
  message : String → Error
  oidc_error : String → Error

module _ {ℓ κ μ} {E : Type μ} {A : Type ℓ} {B : Type κ} where
  infixl 5 ◌>>=◌
  abbrev pub ◌>>=◌ : Result E A → (A → Result E B) → Result E B
  err failure >>= next = err failure
  ok value >>= next = next value

infixl 5 ◌>>◌
abbrev pub ◌>>◌ {ℓ μ} : {E : Type μ} {B : Type ℓ} → Result E (Unit {0}) → Result E B → Result E B
err failure >> next = err failure
ok done >> next = next

-- `Option::ok_or_else`
abbrev pub ok_or {ℓ κ} : {E : Type κ} {A : Type ℓ} → Option A → E → Result E A
ok_or none e = err e
ok_or (some a) e = ok a

-- `collect::<Result<Vec<_>>>`: the first error, or all results in order.
pub traverse {ℓ κ μ} :
    {E : Type μ} {A : Type ℓ} {B : Type κ} → (A → Result E B) → List A → Result E (List B)
traverse f [] = ok []
traverse f (x ∷ xs) = do b ← f x; bs ← traverse f xs; ok (b ∷ bs)

-- What a result holds if it is one.
abbrev pub IsOk {ℓ κ μ} : {E : Type μ} {A : Type ℓ} → (A → Type κ) → Result E A → Type κ
IsOk P (ok a) = P a
IsOk P (err e) = Unit

pub >>=-IsOk {ℓ κ μ ν} :
    {E : Type μ} {A : Type ℓ} {B : Type κ} (P : B → Type ν) (m : Result E A) (f : A → Result E B)
    → ((a : A) → m ≡ ok a → IsOk P (f a))
    → IsOk P (m >>= f)
>>=-IsOk P (ok a) f h = h a refl
>>=-IsOk P (err e) f h = tt

pub eq_some_of_ok_or {ℓ μ} :
    {E : Type μ} {A : Type ℓ} (o : Option A) (e : E) {a : A} → ok_or o e ≡ ok a → o ≡ some a
eq_some_of_ok_or none e h = cc
eq_some_of_ok_or (some b) e h = cc

pub >>-IsOk {ℓ μ ν} :
    {E : Type μ} {B : Type ℓ} (P : B → Type ν) (m : Result E (Unit {0})) (next : Result E B)
    → (m ≡ ok tt → IsOk P next)
    → IsOk P (m >> next)
>>-IsOk P (ok tt) next h = h refl
>>-IsOk P (err e) next h = tt

pub eq_ok_of_ok_or {ℓ μ} :
    {E : Type μ} {A : Type ℓ} (o : Option A) (e : E) {a : A} → o ≡ some a → ok_or o e ≡ ok a
eq_ok_of_ok_or none e h = cc
eq_ok_of_ok_or (some b) e h = cc

pub IsOk-mono {ℓ κ μ} :
    {E : Type μ} {A : Type ℓ} (P Q : A → Type κ) (r : Result E A)
    → ((a : A) → P a → Q a)
    → IsOk P r
    → IsOk Q r
IsOk-mono P Q (ok a) weaken h = weaken a h
IsOk-mono P Q (err e) weaken h = tt

pub IsOk-at {ℓ κ μ} :
    {E : Type μ} {A : Type ℓ} (P : A → Type κ) (r : Result E A) (a : A) → IsOk P r → r ≡ ok a → P a
IsOk-at P (ok b) a h e = let same : b ≡ a = cc in subst P same h
IsOk-at P (err failure) a h e = cc

pub if-IsOk {ℓ κ μ} :
    {E : Type μ} {A : Type ℓ} (P : A → Type κ) (b : Bool) (r s : Result E A)
    → (b ≡ true → IsOk P r)
    → (b ≡ false → IsOk P s)
    → IsOk P (if b then r else s)
if-IsOk P true r s h k = h refl
if-IsOk P false r s h k = k refl
