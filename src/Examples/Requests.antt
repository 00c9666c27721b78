-- ===== src/Examples/Requests.antt =====
-- Requests to the small instance, with packages that read a token's middle part as its claims.
use text.Mathlib.Text.{◌==◌ as str_eq}
use aos_server.Base.{
  String, true, false, Option, none, some, List, [], ◌∷◌, Result, ok, err, Error, message,
  if◌then◌else◌,
}
use aos_server.Base.Map
use aos_server.Base.Texts.{second_part}
use aos_server.Enums.{DbPermissionLevel}
use aos_server.Auth.Contexts.{Context, res_ctx}
use aos_server.Auth.Issuers.{fetch_info, ArunaTokenClaims}
use aos_server.Auth.Tokens.{ProcessedToken, Packages}
use aos_server.Auth.Handler.{PermissionCheck}

abbrev read : DbPermissionLevel
read = DbPermissionLevel.read

abbrev claims_of : String → ArunaTokenClaims
claims_of s =
    if str_eq s "user" then record { iss = "aruna"; sub = "9"; tid = none; it = none } else record {
      iss = "proxy";
      sub = "9";
      tid = none;
      it = some (record { target = 50; action = fetch_info });
    }

abbrev claims_in : Option String → Result Error ArunaTokenClaims
claims_in none = err (message "no claims")
claims_in (some s) = ok (claims_of s)

abbrev read_claims : String → Result Error ArunaTokenClaims
unfolding second_part
read_claims token = claims_in (second_part b'.' token)

abbrev packages : Packages
packages = record {
  tokens = record {
    decode_header = λ token. ok (some "7");
    get_validate_claims = λ token key audiences. read_claims token;
  };
  ulid_from_str = λ s. ok 9;
  decode_claims = λ s. ok (claims_of s);
  try_send = λ name. ok tt;
}

abbrev of_user : ProcessedToken
of_user = record {
  main_id = 9;
  token = none;
  is_personal = true;
  user_permissions = (1, read) ∷ [];
  is_proxy = false;
  proxy_intent = none;
}

abbrev asks : List Context
asks = res_ctx 4 read true ∷ []

abbrev for_user : PermissionCheck
for_user = record { user_id = 9; token = none; is_proxy = false; proxy_id = none }

abbrev for_proxy : PermissionCheck
for_proxy = record { user_id = 9; token = none; is_proxy = true; proxy_id = some 50 }
