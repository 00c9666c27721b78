-- ===== src/Base/Texts/Order.antt =====
-- Laws of the order of texts and of their prefixes.
use Prim.Native.Nat.{ℕ}
use Prim.Native.Char.{Char, code}
use Prim.Native.String.{String, ◌++◌ as ◌<>◌}
use Prim.Native.String.append
use mathlib.Core.Bool.{Bool, true, false}
use mathlib.Core.Option.{some}
use mathlib.Core.Path.{◌≡◌, refl, sym, ◌∙◌}
use text.Mathlib.TextEquality.{Char-path}
use native.Mathlib.Omega.{arith}
use aos_server.Base.Tests.{if◌then◌else◌, ltb, ◌==◌}
use aos_server.Base.Texts.Parts.{strip_prefix, text_leb}

pub text_leb_refl : (s : String) → text_leb s s ≡ true
unfolding text_leb
text_leb_refl String.[] = refl
text_leb_refl (String.◌∷◌ x s) = ground (arith, text_leb_refl s)

pub text_leb_total : (s t : String) → text_leb s t ≡ false → text_leb t s ≡ true
unfolding text_leb
text_leb_total String.[] t e = cc
text_leb_total (String.◌∷◌ x s) String.[] e = refl
text_leb_total (String.◌∷◌ x s) (String.◌∷◌ y t) e = ground (arith, text_leb_total s t)

pub text_leb_trans :
    (s t u : String) → text_leb s t ≡ true → text_leb t u ≡ true → text_leb s u ≡ true
unfolding text_leb
text_leb_trans String.[] t u e f = refl
text_leb_trans (String.◌∷◌ x s) String.[] u e f = cc
text_leb_trans (String.◌∷◌ x s) (String.◌∷◌ y t) String.[] e f = cc
text_leb_trans (String.◌∷◌ x s) (String.◌∷◌ y t) (String.◌∷◌ z u) e f =
    ground (arith, text_leb_trans s t u)

-- Of two texts that begin with a character each, which neither is above the other.
heads :
    (x y : ℕ) (below above : Bool)
    → (if ltb x y then true else (if x == y then below else false)) ≡ true
    → (if ltb y x then true else (if y == x then above else false)) ≡ true
    → (x ≡ y) × (below ≡ true) × (above ≡ true)
heads x y below above e f = ground arith

pub text_leb_antisym : (s t : String) → text_leb s t ≡ true → text_leb t s ≡ true → s ≡ t
unfolding text_leb
text_leb_antisym String.[] String.[] e f = refl
text_leb_antisym String.[] (String.◌∷◌ y t) e f = cc
text_leb_antisym (String.◌∷◌ x s) String.[] e f = cc
text_leb_antisym (String.◌∷◌ x s) (String.◌∷◌ y t) e f =
    let (same, below, above) = heads (code x) (code y) (text_leb s t) (text_leb t s) e f in
    cc (Char-path x y same, text_leb_antisym s t below above)

strip_prefix-cons :
    (x y : Char) (p s : String)
    → code x ≡ code y
    → strip_prefix (String.◌∷◌ x p) (String.◌∷◌ y s) ≡ strip_prefix p s
unfolding strip_prefix
strip_prefix-cons x y p s e = ground (arith, e)

strip_prefix-nil : (s : String) → strip_prefix String.[] s ≡ some s
unfolding strip_prefix
strip_prefix-nil s = refl

-- What lies between two texts with a common prefix has the prefix.
pub strip_prefix-between :
    (p a b s : String)
    → text_leb (p <> a) s ≡ true
    → text_leb s (p <> b) ≡ true
    → (rest : String) × (strip_prefix p s ≡ some rest) × (s ≡ (p <> rest))
unfolding text_leb
strip_prefix-between String.[] a b s e f = (s, strip_prefix-nil s, sym (append.nil s))
strip_prefix-between (String.◌∷◌ x p) a b String.[] e f = cc (rw (append.cons x p a) at e)
strip_prefix-between (String.◌∷◌ x p) a b (String.◌∷◌ y s) e f =
    let (same, above, below) =
      heads (code x) (code y) (text_leb (p <> a) s) (text_leb s (p <> b))
        (rw (append.cons x p a) at e) (rw (append.cons x p b) at f) in
    let (rest, stripped, whole) = strip_prefix-between p a b s above below in
    (
      rest,
      strip_prefix-cons x y p s same ∙ stripped,
      cc (Char-path x y same, whole, append.cons x p rest),
    )
