-- ===== src/DataProxy/Tokens.antt =====
-- The tokens that data proxies sign and verify: the claims, intents and `check_permissions` of
-- components/data_proxy/src/auth/auth.rs, and what `UserState` signs (structs.rs).
-- Parameters: JWTs are read, validated and signed by a package, an id has a text form, and a signing
-- call reads the time.
pub mod Exchange
pub mod Texts
use Prim.Native.Char.{code}
use Prim.Native.String.{◌++◌ as ◌<>◌}
use aos_server.Base.{
  ℕ, zero, suc, ◌+◌, String, true, false, Option, none, some, List, ◌==◌, Result, ok, err, ◌>>=◌,
  Error, message, ok_or, if◌then◌else◌, leb,
}
use aos_server.Base.Texts.{before, second_part, unsigned}
use aos_server.ServerCache.{Ulid}
use aos_server.DataProxy.Caching.{ProxyCache, PubKey}
use aos_server.DataProxy.Caching.Secrets.{get_pubkey}
use aos_server.DataProxy.Access.{UserState, anonymous, personal, token}

pub data ProxyAction : Type 0 where
  every_action create_secrets impersonate fetch_info dp_exchange : ProxyAction

-- `as u8` and `From<u8>`; `none` is the panic.
unfoldable pub action_code : ProxyAction → ℕ
action_code every_action = 0
action_code create_secrets = 1
action_code impersonate = 2
action_code fetch_info = 3
action_code dp_exchange = 4

unfoldable pub action_of_code : ℕ → Option ProxyAction
action_of_code zero = some every_action
action_of_code (suc zero) = some create_secrets
action_of_code (suc (suc zero)) = some impersonate
action_of_code (suc (suc (suc zero))) = some fetch_info
action_of_code (suc (suc (suc (suc zero)))) = some dp_exchange
action_of_code input = none

pub record ProxyIntent : Type 0 where
  pub target : Ulid
  pub action : ProxyAction

pub record ProxyClaims : Type 0 where
  pub iss : String
  pub sub : String
  pub exp : ℕ
  pub aud : String
  pub tid : Option String
  pub it : Option ProxyIntent

-- What the JWT package does: the key id in the header of a token, the claims of a token that is
-- validated with a key for the audience "proxy", and the token that is signed for a key id.
pub record Jwt : Type 0 where
  pub decode_header : String → Result Error (Option String)
  pub decode : String → PubKey → Result Error ProxyClaims
  pub encode : String → ProxyClaims → Result Error String

-- The handler's own id and the serial of its key, and the packages.
pub record ProxyTokens : Type 0 where
  pub self_id : Ulid
  pub serial : String
  pub jwt : Jwt
  pub to_string : Ulid → String
  pub from_str : String → Result Error Ulid
  pub parse_i32 : String → Result Error ℕ
  pub now : ℕ

pub record Verified : Type 0 where
  pub id : Ulid
  pub token_id : Option String
  pub key : PubKey

module _ (h : ProxyTokens) where
  unfoldable pub verified : ProxyClaims → Option String → PubKey → Result Error Verified
  verified claims tid pk = do
    id ← h.from_str claims.sub
    ok (record { id = id; token_id = tid; key = pk })

  abbrev for_self : ProxyIntent → Result Error Verified → Result Error Verified
  for_self it accepted =
      if it.target == h.self_id
      then accepted
      else err (message "Token is not valid for this Dataproxy")

  unfoldable pub by_action :
      ProxyAction → ProxyIntent → ProxyClaims → PubKey → Result Error Verified
  unfolding verified
  by_action every_action it claims pk = verified claims claims.tid pk
  by_action create_secrets it claims pk = for_self it (verified claims claims.tid pk)
  by_action dp_exchange it claims pk = for_self it (verified claims none pk)
  by_action impersonate it claims pk = err (message "Action not allowed for Dataproxy")
  by_action fetch_info it claims pk = err (message "Action not allowed for Dataproxy")

  unfoldable pub by_intent : Option ProxyIntent → ProxyClaims → PubKey → Result Error Verified
  unfolding by_action
  by_intent none claims pk = verified claims claims.tid pk
  by_intent (some it) claims pk = by_action it.action it claims pk

  -- `AuthHandler::check_permissions`
  unfoldable pub check_token : ProxyCache → String → Result Error Verified
  unfolding by_intent get_pubkey
  check_token c text = do
    named ← h.jwt.decode_header text
    kid ← ok_or named (message "Unspecified kid")
    serial ← h.parse_i32 kid
    pk ← get_pubkey serial c
    claims ← h.jwt.decode text pk
    by_intent claims.it claims pk

  unfoldable pub sign_token : ProxyClaims → Result Error String
  sign_token claims = h.jwt.encode h.serial claims

  unfoldable pub impersonating_claims : String → Option String → ProxyClaims
  impersonating_claims user_id tid = record {
    iss = h.to_string h.self_id;
    sub = user_id;
    exp = h.now + 86400;
    aud = "aruna";
    tid = tid;
    it = some record { target = h.self_id; action = impersonate };
  }

  unfoldable pub sign_impersonating_token : String → Option String → Result Error String
  unfolding sign_token impersonating_claims
  sign_impersonating_token user_id tid = sign_token (impersonating_claims user_id tid)

  unfoldable pub sign_notification_token : Result Error String
  unfolding sign_token
  sign_notification_token = sign_token record {
    iss = h.to_string h.self_id;
    sub = h.to_string h.self_id;
    exp = h.now + 315360000;
    aud = "aruna";
    tid = none;
    it = some record { target = h.self_id; action = fetch_info };
  }

  unfoldable pub exchange_claims : Ulid → ProxyClaims
  exchange_claims target_endpoint = record {
    iss = h.to_string h.self_id;
    sub = h.to_string h.self_id;
    exp = h.now + 900;
    aud = "proxy";
    tid = none;
    it = some record { target = target_endpoint; action = dp_exchange };
  }

  unfoldable pub sign_dataproxy_token : Ulid → Result Error String
  unfolding sign_token exchange_claims
  sign_dataproxy_token target_endpoint = sign_token (exchange_claims target_endpoint)

  -- `UserState::sign_impersonating_token`
  abbrev signed : Result Error String → Option String
  signed (ok text) = some text
  signed (err e) = none

  unfoldable pub sign_for_user : UserState → Option String
  unfolding sign_impersonating_token
  sign_for_user (token access_key user_id) =
      signed (sign_impersonating_token (h.to_string user_id) (some access_key))
  sign_for_user (personal user_id) = signed (sign_impersonating_token (h.to_string user_id) none)
  sign_for_user anonymous = none

-- `UserState::get_user_id`
unfoldable pub get_user_id : UserState → Option Ulid
get_user_id (token access_key user_id) = some user_id
get_user_id (personal user_id) = some user_id
get_user_id anonymous = none

-- The text of an intent: the target's and the action's code, with a `_` between.
abbrev code_text : ProxyAction → String
code_text every_action = "0"
code_text create_secrets = "1"
code_text impersonate = "2"
code_text fetch_info = "3"
code_text dp_exchange = "4"

unfoldable pub intent_to_text : (Ulid → String) → ProxyIntent → String
intent_to_text to_string it = to_string it.target <> "_" <> code_text it.action

-- `u8::from_str`
abbrev at_most_255 : Option ℕ → Option ℕ
at_most_255 none = none
at_most_255 (some n) = if leb n 255 then some n else none

abbrev parse_u8 : String → Option ℕ
parse_u8 String.[] = none
parse_u8 (String.◌∷◌ x s) =
    if code x == b'+' then at_most_255 (unsigned s) else at_most_255 (unsigned (String.◌∷◌ x s))

abbrev with_action : Ulid → Option ProxyAction → Option (Result Error ProxyIntent)
with_action target none = none
with_action target (some action) = some (ok record { target = target; action = action })

abbrev of_parts : Result Error Ulid → Option String → Option (Result Error ProxyIntent)
of_parts (err e) second = some (err (message "Invalid UUID"))
of_parts (ok target) none = none
of_parts (ok target) (some second) = elim (parse_u8 second) [
  | none ↦ some (err (message "Invalid Action"))
  | some input ↦ with_action target (action_of_code input)
]

-- `none` is a panic: nothing stands behind a `_`, or the code is unknown.
unfoldable pub intent_of_text :
    (String → Result Error Ulid) → String → Option (Result Error ProxyIntent)
unfolding second_part action_of_code
intent_of_text from_str text = of_parts (from_str (before b'_' text)) (second_part b'_' text)
