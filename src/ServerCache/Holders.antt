-- ===== src/ServerCache/Holders.antt =====
-- `Cache::get_resource_permissions`: who holds which permission on a resource and, on demand, on
-- what lies under it. Ids stand for the strings that they are printed to, and an enum of the gRPC
-- interface for its number.
pub mod Held
use aos_server.Base.{
  ℕ, String, Bool, Option, none, some, List, [], ◌∷◌, ◌++◌, ◌==◌, Result, ok, ◌>>=◌, Error,
  if◌then◌else◌,
}
use aos_server.Base.Map
use aos_server.Base.Map.{Map}
use aos_server.Enums.{DbPermissionLevel}
use aos_server.Enums.Api.{PermissionLevel, permission_to_api}
use aos_server.Auth.Contexts.{Grants, get_permissions}
use aos_server.ServerCache.{Ulid, User, Cache}
use aos_server.ServerCache.Subresources.{get_subresources}

pub record UserPermission : Type 0 where
  pub user_id : Ulid
  pub user_name : String
  pub permission_level : PermissionLevel

abbrev pub ResourcePerms : Type 0
ResourcePerms = Map (List UserPermission)

abbrev pub permission_of : User → DbPermissionLevel → UserPermission
permission_of u perm = record {
  user_id = u.id;
  user_name = u.display_name;
  permission_level = permission_to_api perm;
}

abbrev pub push : Ulid → UserPermission → ResourcePerms → ResourcePerms
push resource_id p perms = elim (Map.get resource_id perms) [
  | none ↦ Map.insert resource_id (p ∷ []) perms
  | some permissions ↦ Map.insert resource_id (permissions ++ p ∷ []) perms
]

unfoldable pub each_perm : Ulid → User → Grants → ResourcePerms → ResourcePerms
each_perm resource_id u [] perms = perms
each_perm resource_id u ((id, perm) ∷ granted) perms =
    if id == resource_id
    then each_perm resource_id u granted (push resource_id (permission_of u perm) perms)
    else each_perm resource_id u granted perms

unfoldable pub each_user : Ulid → List User → ResourcePerms → Result Error ResourcePerms
each_user resource_id [] perms = ok perms
each_user resource_id (u ∷ us) perms = do
  (granted, personal) ← get_permissions none u
  each_user resource_id us (each_perm resource_id u granted perms)

unfoldable pub each_resource : List Ulid → List User → ResourcePerms → Result Error ResourcePerms
each_resource [] us perms = ok perms
each_resource (resource_id ∷ resources) us perms = do
  perms' ← each_user resource_id us perms
  each_resource resources us perms'

-- `none` means that `get_subresources` ran out of fuel.
unfoldable pub get_resource_permissions :
    ℕ → Cache → Ulid → Bool → Option (Result Error ResourcePerms)
get_resource_permissions fuel c resource_id recursive =
    if recursive
    then elim (get_subresources fuel c resource_id) [
      | none ↦ none
      | some subresources ↦
          some (each_resource (resource_id ∷ subresources) (Map.values c.user_cache) [])
    ]
    else some (each_resource (resource_id ∷ []) (Map.values c.user_cache) [])
