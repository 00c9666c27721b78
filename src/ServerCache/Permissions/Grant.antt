-- ===== src/ServerCache/Permissions/Grant.antt =====
-- No access without a grant: what `check_permissions_with_contexts` lets pass is held by the user.
use aos_server.Base.{Bool, true, Option, some, In}
use aos_server.Base.Map
use aos_server.Enums.{DbPermissionLevel}
use aos_server.Auth.Contexts.{Grants}
use aos_server.ServerCache.{Ulid, Cache}
use aos_server.ServerCache.Traverse.{Requests}
use aos_server.ServerCache.Traverse.Sound.{Keeps, Covers, IsGrantedFrom}
use aos_server.ServerCache.Permissions.{Claim, all_met, unmet}

-- The user holds a resource that `id` lies under (or is), at the level needed or above.
abbrev pub IsGranted : Cache → Grants → Ulid → DbPermissionLevel → Type 0
IsGranted c permitted id needed =
    (pid : Ulid) × (got : DbPermissionLevel) × In (pid, got) permitted
    × IsGrantedFrom c pid got id needed

module _ (c : Cache) (permitted : Grants) where
  abbrev Good : Ulid → DbPermissionLevel → Type 0
  Good = IsGranted c permitted

  abbrev GrantOk : Requests → Option Bool → Type 0
  GrantOk r (some true) = Covers Good r
  GrantOk r _ = Unit

  abbrev ClaimOk : Requests → Claim → Type 0
  ClaimOk r all_met = Covers Good r
  ClaimOk r (unmet r') = Keeps Good r r'
