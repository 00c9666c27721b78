-- ===== src/Enums.antt =====
-- The enums of components/server/src/database/enums.rs and hook_dsl.rs, with the orders that the
-- server derives for them. An `i32` is its two's-complement bit pattern, a number below 2 ^ 32: the
-- conversions match non-negative literals only, so a negative value takes the default branch.
pub mod Codes
pub mod Api
pub mod RoundTrip
use aos_server.Base.{ℕ, String, Bool, List, [], ◌∷◌, leb, ltb}

pub data ObjectStatus : Type 0 where
  initializing validating available unavailable error deleted : ObjectStatus

pub data DataClass : Type 0 where
  public private workspace confidential : DataClass

pub data ObjectMapping {ℓ} (T : Type ℓ) : Type ℓ where
  project collection dataset object : T → ObjectMapping T

unfoldable pub into_inner {ℓ} : {T : Type ℓ} → ObjectMapping T → T
into_inner (ObjectMapping.project inner) = inner
into_inner (ObjectMapping.collection inner) = inner
into_inner (ObjectMapping.dataset inner) = inner
into_inner (ObjectMapping.object inner) = inner

pub data ObjectType : Type 0 where
  project collection dataset object : ObjectType

pub data DbPermissionLevel : Type 0 where
  deny none read append write admin : DbPermissionLevel

pub data DataProxyFeature : Type 0 where
  grpc s3 : DataProxyFeature

pub data EndpointVariant : Type 0 where
  persistent volatile : EndpointVariant

pub data EndpointStatus : Type 0 where
  initializing available degraded unavailable maintenance : EndpointStatus

pub data PersistentNotificationVariant : Type 0 where
  access_requested permission_revoked permission_granted permission_updated announcement :
      PersistentNotificationVariant

pub data ReplicationStatus : Type 0 where
  waiting running finished error : ReplicationStatus

pub data ReplicationType : Type 0 where
  full_sync : ReplicationType
  partial_sync : Bool → ReplicationType

pub data KeyValueVariant : Type 0 where
  hook label static_label hook_status : KeyValueVariant

pub data Algorithm : Type 0 where
  md5 sha256 : Algorithm

pub data Method : Type 0 where
  put post : Method

-- The derived order of the permission levels is that of the declaration.
unfoldable pub level : DbPermissionLevel → ℕ
level DbPermissionLevel.deny = 0
level DbPermissionLevel.none = 1
level DbPermissionLevel.read = 2
level DbPermissionLevel.append = 3
level DbPermissionLevel.write = 4
level DbPermissionLevel.admin = 5

-- `a >= b` and `a > b` of the derived `PartialOrd`.
abbrev pub perm_ge : DbPermissionLevel → DbPermissionLevel → Bool
perm_ge a b = leb (level b) (level a)

abbrev pub perm_gt : DbPermissionLevel → DbPermissionLevel → Bool
perm_gt a b = ltb (level b) (level a)

-- The labels of the Postgres enum in `ObjectStatus::get_type`.
abbrev pub status_labels : List String
status_labels =
    "INITIALIZING" ∷ "VALIDATING" ∷ "AVAILABLE" ∷ "UNAVAILABLE" ∷ "ERROR" ∷ "DELETED" ∷ []
