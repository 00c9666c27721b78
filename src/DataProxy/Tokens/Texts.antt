-- ===== src/DataProxy/Tokens/Texts.antt =====
-- The text of an intent, written and read (components/data_proxy/src/auth/auth.rs).
use Prim.Native.Char.{code}
use Prim.Native.String.{◌++◌ as ◌<>◌}
use Prim.Native.String.append
use aos_server.Base.{
  String, Bool, true, not, ◌&&◌, ◌≡◌, refl, ap, ◌∙◌, inl, inr, some, ◌==◌, Bool-cases, Result, ok,
  Error,
}
use aos_server.Base.Texts.{before, behind, second_part}
use aos_server.ServerCache.{Ulid}
use aos_server.DataProxy.Tokens.{
  ProxyIntent, ProxyAction, every_action, create_secrets, impersonate, fetch_info, dp_exchange,
  intent_to_text, intent_of_text, action_of_code, of_parts, code_text,
}

-- The text has no `_`.
abbrev pub is_plain : String → Bool
is_plain String.[] = true
is_plain (String.◌∷◌ x s) = not (code x == b'_') && is_plain s

-- Native appending computes at literals only, by its two clauses elsewhere.
underscore : (t : String) → ("_" <> t) ≡ String.◌∷◌ "_" t
underscore t = append.cons "_" "" t ∙ ap (String.◌∷◌ "_") (append.nil t)

before-plain : (s t : String) → is_plain s ≡ true → before b'_' (s <> "_" <> t) ≡ s
before-plain String.[] t e = rw (append.nil ("_" <> t), underscore t) refl
before-plain (String.◌∷◌ x s) t e =
    rw (append.cons x s ("_" <> t)) (elim (Bool-cases (code x == b'_')) [
      | inl here ↦ cc (rw here at e)
      | inr other ↦ rw other (ap (String.◌∷◌ x) (before-plain s t (rw other at e)))
    ])

behind-plain : (s t : String) → is_plain s ≡ true → behind b'_' (s <> "_" <> t) ≡ some t
behind-plain String.[] t e = rw (append.nil ("_" <> t), underscore t) refl
behind-plain (String.◌∷◌ x s) t e =
    rw (append.cons x s ("_" <> t)) (elim (Bool-cases (code x == b'_')) [
      | inl here ↦ cc (rw here at e)
      | inr other ↦ rw other (behind-plain s t (rw other at e))
    ])

second-plain :
    (s t : String) → is_plain s ≡ true → second_part b'_' (s <> "_" <> t) ≡ some (before b'_' t)
unfolding second_part
second-plain s t e = rw (second_part, behind-plain s t e) refl

parts-code :
    (target : Ulid) (action : ProxyAction)
    → of_parts (ok target) (some (before b'_' (code_text action)))
      ≡ some (ok (record { target = target; action = action }))
unfolding action_of_code
parts-code target every_action = refl
parts-code target create_secrets = refl
parts-code target impersonate = refl
parts-code target fetch_info = refl
parts-code target dp_exchange = refl

-- If ids are read back from their texts, and these have no `_`, so are intents from theirs.
pub intent_of_text-intent_to_text :
    (from_str : String → Result Error Ulid) (to_string : Ulid → String) (it : ProxyIntent)
    → from_str (to_string it.target) ≡ ok it.target
    → is_plain (to_string it.target) ≡ true
    → intent_of_text from_str (intent_to_text to_string it) ≡ some (ok it)
unfolding intent_of_text intent_to_text
intent_of_text-intent_to_text from_str to_string it read plain =
    let text = code_text it.action in
    rw
      (
        before-plain (to_string it.target) text plain,
        second-plain (to_string it.target) text plain,
        read,
      )
      (parts-code it.target it.action)
