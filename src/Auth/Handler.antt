-- ===== src/Auth/Handler.antt =====
-- The answer to a request: `PermissionHandler::check_permissions_verbose` of
-- components/server/src/auth/permission_handler.rs.
pub mod Proxy
pub mod Users
use aos_server.Base.{
  ℕ, String, Bool, true, false, Option, none, some, List, [], ◌∷◌, Result, ok, err, Error, message,
  oidc_error, if◌then◌else◌,
}
use aos_server.Enums.{DbPermissionLevel, perm_gt}
use aos_server.Auth.Contexts.{
  ContextVariant, not_activated, resource, user, self_user, registered, global_proxy, global_admin,
  Context,
}
use aos_server.Auth.Issuers.{Action, all, create_secrets, impersonate, fetch_info, Intent}
use aos_server.Auth.Tokens.{ProcessedToken, Packages, process_token}
use aos_server.ServerCache.{Ulid, Cache}
use aos_server.ServerCache.Permissions.{check_permissions_with_contexts, check_proxy_ctxs}

-- The kinds of `tonic::Status` that are used.
pub data Status : Type 0 where
  unauthenticated permission_denied invalid_argument internal : String → Status

pub record PermissionCheck : Type 0 where
  pub user_id : Ulid
  pub token : Option Ulid
  pub is_proxy : Bool
  pub proxy_id : Option Ulid

-- The loop over the contexts: the first that is refused ends it.
abbrev pub first_refused : (ContextVariant → Option Status) → List Context → Option Status
first_refused test [] = none
first_refused test (ctx ∷ ctxs) = elim (test ctx.variant) [
  | none ↦ first_refused test ctxs
  | some status ↦ some status
]

unfoldable pub impersonate_refuses : ContextVariant → Option Status
impersonate_refuses self_user = none
impersonate_refuses registered = none
impersonate_refuses global_proxy = none
impersonate_refuses (resource id perm) = none
impersonate_refuses _ =
    some (invalid_argument "Only resource functionality allowed for Dataproxy signed tokens")

abbrev above_read : DbPermissionLevel → Option Status
above_read perm =
    if perm_gt perm DbPermissionLevel.read
    then some (permission_denied "Only get functions allowed")
    else none

unfoldable pub fetch_info_refuses : ContextVariant → Option Status
fetch_info_refuses self_user = none
fetch_info_refuses registered = none
fetch_info_refuses global_proxy = none
fetch_info_refuses (resource id perm) = above_read perm
fetch_info_refuses (user uid perm) = above_read perm
fetch_info_refuses _ = some (permission_denied "Only get functions allowed")

abbrev pub intent_refuses : Action → List Context → Option Status
intent_refuses impersonate ctxs = first_refused impersonate_refuses ctxs
intent_refuses fetch_info ctxs = first_refused fetch_info_refuses ctxs
intent_refuses _ ctxs = none

module _ (c : Cache) where
  -- The answer to a data proxy.
  unfoldable pub check_proxy :
      ProcessedToken → List Context → Option Intent → Result Status PermissionCheck
  check_proxy t ctxs none = err (internal "Missing intent action")
  check_proxy t ctxs (some intent) = elim (intent_refuses intent.action ctxs) [
    | some status ↦ err status
    | none ↦
        if check_proxy_ctxs c intent.target ctxs
        then ok (record {
          user_id = t.main_id;
          token = t.token;
          is_proxy = true;
          proxy_id = some intent.target;
        })
        else err (unauthenticated "Invalid proxy authentication")
  ]

  abbrev pub answered : ProcessedToken → Option Bool → Option (Result Status PermissionCheck)
  answered t none = none
  answered t (some true) =
      some (
        ok
          (record { user_id = t.main_id; token = t.token; is_proxy = t.is_proxy; proxy_id = none }))
  answered t (some false) = some (err (unauthenticated "Invalid permissions"))

  abbrev pub check_processed :
      ℕ → List Context → Result Error ProcessedToken → Option (Result Status PermissionCheck)
  check_processed fuel ctxs (err (oidc_error e)) = some (err (unauthenticated "Not registered"))
  check_processed fuel ctxs (err (message e)) = some (err (unauthenticated "Unauthorized"))
  check_processed fuel ctxs (ok t) =
      if t.is_proxy
      then some (check_proxy t ctxs t.proxy_intent)
      else answered t
          (check_permissions_with_contexts fuel c ctxs t.user_permissions t.is_personal t.main_id)

  -- `none` means that a walk down the hierarchy ran out of fuel.
  unfoldable pub check_permissions_verbose :
      Packages → ℕ → String → List Context → Option (Result Status PermissionCheck)
  check_permissions_verbose p fuel token ctxs = check_processed fuel ctxs (process_token p c token)

  abbrev user_of : Option (Result Status PermissionCheck) → Option (Result Status Ulid)
  user_of none = none
  user_of (some (err status)) = some (err status)
  user_of (some (ok check)) = some (ok check.user_id)

  unfoldable pub check_permissions :
      Packages → ℕ → String → List Context → Option (Result Status Ulid)
  unfolding check_permissions_verbose
  check_permissions p fuel token ctxs = user_of (check_permissions_verbose p fuel token ctxs)
