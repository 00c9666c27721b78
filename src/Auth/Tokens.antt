-- ===== src/Auth/Tokens.antt =====
-- From a token to who presents it: `TokenHandler::process_token` and the three checks behind it, of
-- components/server/src/auth/token_handler.rs.
pub mod Accounted
use aos_server.Base.{
  ℕ, zero, suc, String, Bool, true, false, not, Option, none, some, List, [], ◌∷◌, ◌==◌, Result, ok,
  err, ◌>>=◌, ◌>>◌, Error, message, oidc_error, ok_or, if◌then◌else◌,
}
use aos_server.Base.Texts.{second_part, parse_i16}
use aos_server.Auth.Contexts.{Grants, get_permissions}
use aos_server.Auth.Issuers.{
  Action, all, create_secrets, impersonate, fetch_info, Intent, ArunaTokenClaims, TokenPackage,
  check_token, get_issuer,
}
use aos_server.ServerCache.{
  Ulid, User, OidcMapping, PubKeyEnum, data_proxy, server, IssuerType, aruna, dataproxy, oidc,
  Cache,
}
use aos_server.ServerCache.Users.{get_user, get_pubkey, get_user_by_oidc, oidc_mapping_exists}

-- `Action::from(u8)`; other numbers panic.
unfoldable pub action_of : ℕ → Option Action
action_of zero = some all
action_of (suc zero) = some create_secrets
action_of (suc (suc zero)) = some impersonate
action_of (suc (suc (suc zero))) = some fetch_info
action_of (suc (suc (suc (suc n)))) = none

pub record ProcessedToken : Type 0 where
  pub main_id : Ulid
  pub token : Option Ulid
  pub is_personal : Bool
  pub user_permissions : Grants
  pub is_proxy : Bool
  pub proxy_intent : Option Intent

-- What packages provide: tokens, ids (`DieselUlid::from_str`), base64 with JSON for the payload of a
-- token, and the channel to the task that refreshes issuers.
pub record Packages : Type 0 where
  pub tokens : TokenPackage
  pub ulid_from_str : String → Result Error Ulid
  pub decode_claims : String → Result Error ArunaTokenClaims
  pub try_send : String → Result Error (Unit {0})

module _ (p : Packages) (c : Cache) where
  abbrev pub token_id : Option String → Result Error (Option Ulid)
  token_id none = ok none
  token_id (some tid) = p.ulid_from_str tid >>= λ id. ok (some id)

  unfoldable pub validate_server_token : ArunaTokenClaims → Result Error ProcessedToken
  validate_server_token claims = do
    uid ← p.ulid_from_str claims.sub
    maybe_token ← token_id claims.tid
    user ← ok_or (get_user uid c) (message "Invalid user")
    (perms, personal) ← get_permissions maybe_token user
    ok (record {
      main_id = user.id;
      token = maybe_token;
      is_personal = personal;
      user_permissions = perms;
      is_proxy = false;
      proxy_intent = none;
    })

  -- The arms of the match on the intent's action, for the id of the subject.
  abbrev pub by_action : ArunaTokenClaims → Intent → Ulid → Action → Result Error ProcessedToken
  by_action claims intent sub_id fetch_info = ok (record {
    main_id = sub_id;
    token = none;
    is_personal = false;
    user_permissions = [];
    is_proxy = true;
    proxy_intent = some intent;
  })
  by_action claims intent sub_id impersonate = do
    token ← token_id claims.tid
    user ← ok_or (get_user sub_id c) (message "Invalid user provided")
    perms ← get_permissions token user
    ok (record {
      main_id = user.id;
      token = token;
      is_personal = false;
      user_permissions = perms.0;
      is_proxy = true;
      proxy_intent = some intent;
    })
  by_action claims intent sub_id _ = err (message "Invalid Dataproxy signed token intent")

  abbrev pub with_intent : ArunaTokenClaims → Ulid → Option Intent → Result Error ProcessedToken
  with_intent claims endpoint_id none = err (message "Missing intent in Dataproxy signed token")
  with_intent claims endpoint_id (some intent) =
      if not (endpoint_id == intent.target)
      then err (message "Invalid intent target id")
      else p.ulid_from_str claims.sub >>= λ sub_id. by_action claims intent sub_id intent.action

  abbrev pub by_key : ArunaTokenClaims → PubKeyEnum → Result Error ProcessedToken
  by_key claims (data_proxy key endpoint_id) = with_intent claims endpoint_id claims.it
  by_key claims (server key) = err (message "Token not signed from Dataproxy")

  unfoldable pub validate_dataproxy_token : ArunaTokenClaims → String → Result Error ProcessedToken
  validate_dataproxy_token claims kid = do
    serial ← ok_or (parse_i16 kid) (message "Invalid kid")
    key ← ok_or (get_pubkey serial c) (message "Unspecified kid")
    by_key claims key

  unfoldable pub validate_oidc_token : ArunaTokenClaims → Result Error ProcessedToken
  validate_oidc_token claims = do
    user ←
        ok_or (get_user_by_oidc (record { external_id = claims.sub; oidc_name = claims.iss }) c)
          (oidc_error "Not registered")
    perms ← get_permissions none user
    ok (record {
      main_id = user.id;
      token = none;
      is_personal = true;
      user_permissions = perms.0;
      is_proxy = false;
      proxy_intent = none;
    })

  -- A token that fails its check has its issuer refreshed later, by a message to another task.
  abbrev pub checked :
      String → Result Error (String × ArunaTokenClaims) → Result Error (String × ArunaTokenClaims)
  checked issuer_name (ok validated) = ok validated
  checked issuer_name (err e) = p.try_send issuer_name >> err (message "Invalid token")

  abbrev pub by_issuer : IssuerType → String → ArunaTokenClaims → Result Error ProcessedToken
  by_issuer oidc kid claims = validate_oidc_token claims
  by_issuer aruna kid claims = validate_server_token claims
  by_issuer dataproxy kid claims = validate_dataproxy_token claims kid

  unfoldable pub process_token : String → Result Error ProcessedToken
  process_token token = do
    split ← ok_or (second_part b'.' token) (message "Invalid token")
    claims ← p.decode_claims split
    issuer ← ok_or (get_issuer claims.iss c) (message "Unknown issuer")
    (kid, validated_claims) ← checked issuer.issuer_name (check_token p.tokens issuer token)
    by_issuer issuer.issuer_type kid validated_claims

  abbrev unregistered : OidcMapping → Result Error OidcMapping
  unregistered mapping =
      if oidc_mapping_exists mapping c then err (message "User already registered") else ok mapping

  unfoldable pub check_unregistered_oidc : String → Result Error OidcMapping
  check_unregistered_oidc token = do
    split ← ok_or (second_part b'.' token) (message "Invalid token")
    claims ← p.decode_claims split
    issuer ← ok_or (get_issuer claims.iss c) (message "Unknown issuer")
    (kid, validated_claims) ← check_token p.tokens issuer token
    unregistered (record { external_id = validated_claims.sub; oidc_name = issuer.issuer_name })
