-- ===== src/Base/Texts/Parts.antt =====
-- Prefixes and parts of texts, and the order of texts.
use Prim.Native.Char.{code}
use Prim.Native.String.{String, ◌++◌ as ◌<>◌}
use mathlib.Core.Bool.{Bool, true, false}
use mathlib.Core.Option.{Option, none, some}
use mathlib.Core.Path.{◌≡◌, refl}
use aos_server.Base.Tests.{if◌then◌else◌, ltb, ◌==◌}

unfoldable pub strip_prefix : String → String → Option String
strip_prefix String.[] s = some s
strip_prefix (String.◌∷◌ x p) String.[] = none
strip_prefix (String.◌∷◌ x p) (String.◌∷◌ y s) =
    let rest = strip_prefix p s in if code x == code y then rest else none

-- `split_once`, given what is left if the delimiter stands at the start.
abbrev at_start : Option String → Option (String × String) → Option (String × String)
at_start none later = later
at_start (some rest) later = some ("", rest)

abbrev behind_first : String → Option (String × String) → Option (String × String)
behind_first first none = none
behind_first first (some (front, back)) = some (first <> front, back)

unfoldable pub split_once : String → String → Option (String × String)
unfolding strip_prefix
split_once d String.[] = at_start (strip_prefix d String.[]) none
split_once d (String.◌∷◌ x s) =
    let later = split_once d s in
    at_start (strip_prefix d (String.◌∷◌ x s)) (behind_first (String.◌∷◌ x String.[]) later)

-- The order of the texts' code points, which is the order of their bytes in UTF-8.
unfoldable pub text_leb : String → String → Bool
text_leb String.[] t = true
text_leb (String.◌∷◌ x s) String.[] = false
text_leb (String.◌∷◌ x s) (String.◌∷◌ y t) =
    let rest = text_leb s t in
    if ltb (code x) (code y) then true else (if code x == code y then rest else false)

split_twice : split_once "/" "a/b/c" ≡ some ("a", "b/c")
unfolding split_once strip_prefix
split_twice = refl
