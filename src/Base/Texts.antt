-- ===== src/Base/Texts.antt =====
-- Texts: what `split`, `parse` and string-keyed maps of the program need.
pub mod Maps
pub mod Parts
pub mod Order
use Prim.Native.Nat.{ℕ, zero, suc, ◌+◌, ◌*◌, ◌-◌, ◌/◌, ◌%◌}
use Prim.Native.Char.{code}
use Prim.Native.String.{String, ◌++◌ as ◌<>◌}
use mathlib.Core.Bool.{◌&&◌}
use mathlib.Core.Option.{Option, none, some}
use mathlib.Core.List.{List, [], ◌∷◌}
use mathlib.Core.Path.{◌≡◌, refl}
use text.Mathlib.Text.{◌==◌}
use aos_server.Base.Tests.{leb, if◌then◌else◌}
use aos_server.Base.Tests.{◌==◌ as nat_eq}

-- Maps with texts as keys.
module _ {V : Type 0} where
  unfoldable pub lookup : String → List (String × V) → Option V
  lookup wanted [] = none
  lookup wanted ((name, entry) ∷ rest) =
      let later = lookup wanted rest in if name == wanted then some entry else later

  unfoldable pub put : String → V → List (String × V) → List (String × V)
  put wanted new [] = (wanted, new) ∷ []
  put wanted new ((name, entry) ∷ rest) =
      let later = put wanted new rest in
      if name == wanted then (wanted, new) ∷ rest else (name, entry) ∷ later

  -- `remove`
  unfoldable pub erase : String → List (String × V) → List (String × V)
  erase wanted [] = []
  erase wanted ((name, entry) ∷ rest) =
      let later = erase wanted rest in if name == wanted then later else (name, entry) ∷ later

-- The text behind the first character with this code, and the text in front of it.
abbrev pub behind : ℕ → String → Option String
behind c String.[] = none
behind c (String.◌∷◌ x s) = if nat_eq (code x) c then some s else behind c s

abbrev pub before : ℕ → String → String
before c String.[] = ""
before c (String.◌∷◌ x s) = if nat_eq (code x) c then "" else String.◌∷◌ x (before c s)

-- `split(c).nth(1)`
unfoldable pub second_part : ℕ → String → Option String
second_part c s = elim (behind c s) [ none ↦ none | some rest ↦ some (before c rest) ]

-- Decimal digits, at least one, after those read so far.
abbrev pub digits : ℕ → String → Option ℕ
digits n String.[] = some n
digits n (String.◌∷◌ x s) =
    if leb b'0' (code x) && leb (code x) b'9' then digits (n * 10 + (code x - b'0')) s else none

abbrev pub unsigned : String → Option ℕ
unsigned String.[] = none
unsigned (String.◌∷◌ x s) = digits 0 (String.◌∷◌ x s)

abbrev at_most : ℕ → (ℕ → ℕ) → Option ℕ → Option ℕ
at_most bound f none = none
at_most bound f (some n) = if leb n bound then some (f n) else none

-- `parse::<i16>`, to the number's bit pattern.
unfoldable pub parse_i16 : String → Option ℕ
parse_i16 String.[] = none
parse_i16 (String.◌∷◌ x s) =
    if nat_eq (code x) b'-'
    then at_most 32768 (λ n. (65536 - n) % 65536) (unsigned s)
    else if nat_eq (code x) b'+'
    then at_most 32767 (λ n. n) (unsigned s)
    else at_most 32767 (λ n. n) (unsigned (String.◌∷◌ x s))

parse_minus_one : parse_i16 "-1" ≡ some 65535
unfolding parse_i16
parse_minus_one = refl

parse_too_large : parse_i16 "32768" ≡ none
unfolding parse_i16
parse_too_large = refl

parse_plus : parse_i16 "+12" ≡ some 12
unfolding parse_i16
parse_plus = refl

payload_of_token : second_part b'.' "head.claims.signature" ≡ some "claims"
unfolding second_part
payload_of_token = refl

-- `to_string` of a number: its decimal digits in front of a text.
abbrev digit : ℕ → String
digit zero = "0"
digit (suc zero) = "1"
digit (suc (suc zero)) = "2"
digit (suc (suc (suc zero))) = "3"
digit (suc (suc (suc (suc zero)))) = "4"
digit (suc (suc (suc (suc (suc zero))))) = "5"
digit (suc (suc (suc (suc (suc (suc zero)))))) = "6"
digit (suc (suc (suc (suc (suc (suc (suc zero))))))) = "7"
digit (suc (suc (suc (suc (suc (suc (suc (suc zero)))))))) = "8"
digit (suc (suc (suc (suc (suc (suc (suc (suc (suc n))))))))) = "9"

-- A number below 2 ^ 16 has at most five digits.
abbrev decimal : ℕ → ℕ → String → String
decimal zero n text = text
decimal (suc fuel) n text =
    let longer = digit (n % 10) <> text in
    let rest = decimal fuel (n / 10) longer in if leb 10 n then rest else longer

-- `to_string` of an `i16` that is given by its bit pattern.
unfoldable pub print_i16 : ℕ → String
print_i16 n = if leb 32768 n then "-" <> decimal 5 (65536 - n) "" else decimal 5 n ""

print_i16_negative : print_i16 65535 ≡ "-1"
unfolding print_i16
print_i16_negative = refl

print_i16_long : parse_i16 (print_i16 30705) ≡ some 30705
unfolding print_i16 parse_i16
print_i16_long = refl
