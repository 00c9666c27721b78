-- ===== src/Auth/Contexts.antt =====
-- What a request needs (`Context`) and what a user holds (`User::get_permissions`), from
-- components/server/src/auth/structs.rs.
use aos_server.Base.{
  Bool, true, false, Option, none, some, List, [], ◌∷◌, Result, ok, err, Error, message,
}
use aos_server.Base.Map
use aos_server.Base.Map.{Map}
use aos_server.Enums.{DbPermissionLevel, into_inner}
use aos_server.ServerCache.{Ulid, User}

pub data ContextVariant : Type 0 where
  not_activated : ContextVariant
  resource : Ulid → DbPermissionLevel → ContextVariant
  user : Ulid → DbPermissionLevel → ContextVariant
  self_user registered global_proxy global_admin : ContextVariant

pub record Context : Type 0 where
  pub variant : ContextVariant
  pub allow_service_account : Bool
  pub is_self : Bool

unfoldable pub res_ctx : Ulid → DbPermissionLevel → Bool → Context
res_ctx id level allow_sa = record {
  variant = resource id level;
  allow_service_account = allow_sa;
  is_self = false;
}

unfoldable pub user_ctx : Ulid → DbPermissionLevel → Context
user_ctx id level = record {
  variant = user id level;
  allow_service_account = false;
  is_self = false;
}

unfoldable pub admin : Context
admin = record { variant = global_admin; allow_service_account = false; is_self = false }

unfoldable pub self_ctx : Context
self_ctx = record { variant = self_user; allow_service_account = false; is_self = true }

unfoldable pub proxy : Context
proxy = record { variant = global_proxy; allow_service_account = false; is_self = false }

unfoldable pub registered_ctx : Context
registered_ctx = record { variant = registered; allow_service_account = true; is_self = false }

-- `Context::default`
unfoldable pub default_ctx : Context
default_ctx = record { variant = self_user; allow_service_account = true; is_self = false }

abbrev pub Grants : Type 0
Grants = List (Ulid × DbPermissionLevel)

-- The permissions of a user or of one of the user's tokens; the flag says whether they are the
-- user's own.
unfoldable pub get_permissions : Option Ulid → User → Result Error (Grants × Bool)
unfolding into_inner
get_permissions none u = ok (Map.map_values into_inner u.attributes.permissions, true)
get_permissions (some token) u = elim (Map.get token u.attributes.tokens) [
  | none ↦ err (message "Token not found")
  | some t ↦ elim (t.object_id) [
    | none ↦ ok (Map.map_values into_inner u.attributes.permissions, true)
    | some mapping ↦ ok ((into_inner mapping, t.user_rights) ∷ [], false)
  ]
]
