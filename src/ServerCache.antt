-- ===== src/ServerCache.antt =====
-- The server's in-memory cache: components/server/src/caching/cache.rs and structs.rs, with the
-- records of components/server/src/database/dsls that it holds. An id (DieselUlid) is a number.
-- The maps are association lists, so the theorems hold for whatever order an iterator takes. Each
-- operation runs while the cache is unlocked: `check_lock` waits until a `sync_cache` is over. Of
-- the records only the fields are kept that a modelled operation reads or writes.
pub mod Objects
pub mod Users
pub mod Rules
pub mod Relations
pub mod Traverse
pub mod Subresources
pub mod Hierarchy
pub mod Holders
pub mod Upstream
pub mod Permissions
pub mod Invariant
pub mod Sync
use aos_server.Base.{ℕ, String, Bool, Option, List, [], ◌∷◌}
use aos_server.Base.Map.{Map}
use aos_server.Enums.{
  ObjectStatus, DataClass, ObjectMapping, ObjectType, DbPermissionLevel, ReplicationStatus,
  ReplicationType,
}

abbrev pub Ulid : Type 0
Ulid = ℕ

pub record InternalRelation : Type 0 where
  pub id : Ulid
  pub origin_pid : Ulid
  pub origin_type : ObjectType
  pub relation_name : String
  pub target_pid : Ulid
  pub target_type : ObjectType
  pub target_name : String

pub record EndpointInfo : Type 0 where
  pub replication : ReplicationType
  pub status : Option ReplicationStatus

pub record Object : Type 0 where
  pub id : Ulid
  pub name : String
  pub content_len : ℕ
  pub count : ℕ
  pub object_status : ObjectStatus
  pub data_class : DataClass
  pub object_type : ObjectType
  pub endpoints : Map EndpointInfo

pub record ObjectWithRelations : Type 0 where
  pub object : Object
  pub inbound : Map InternalRelation
  pub inbound_belongs_to : Map InternalRelation
  pub outbound : Map InternalRelation
  pub outbound_belongs_to : Map InternalRelation

pub record ApiToken : Type 0 where
  pub name : String
  pub object_id : Option (ObjectMapping Ulid)
  pub user_rights : DbPermissionLevel

pub record OidcMapping : Type 0 where
  pub external_id : String
  pub oidc_name : String

pub record UserAttributes : Type 0 where
  pub global_admin : Bool
  pub service_account : Bool
  pub tokens : Map ApiToken
  pub trusted_endpoints : Map (Unit {0})
  pub permissions : Map (ObjectMapping DbPermissionLevel)
  pub external_ids : List OidcMapping

pub record User : Type 0 where
  pub id : Ulid
  pub display_name : String
  pub attributes : UserAttributes
  pub active : Bool

-- The decoding key beside each key string belongs to a package and is left out.
pub data PubKeyEnum : Type 0 where
  data_proxy : String → Ulid → PubKeyEnum
  server : String → PubKeyEnum

pub record RuleBinding : Type 0 where
  pub rule_id : Ulid
  pub origin_id : Ulid
  pub object_id : Ulid
  pub cascading : Bool

-- A `CachedRule` without its compiled expression, which belongs to a package.
pub record Rule : Type 0 where
  pub id : Ulid
  pub rule_expressions : String
  pub owner_id : Ulid
  pub is_public : Bool

pub data IssuerType : Type 0 where
  aruna dataproxy oidc : IssuerType

-- A decoding key belongs to a package; a text stands for it. `last_updated` is in seconds.
pub record Issuer : Type 0 where
  pub issuer_name : String
  pub pubkey_endpoint : Option String
  pub decoding_keys : List (String × String)
  pub last_updated : ℕ
  pub audiences : Option (List String)
  pub issuer_type : IssuerType

pub record Cache : Type 0 where
  pub object_cache : Map ObjectWithRelations
  pub user_cache : Map User
  pub pubkeys : Map PubKeyEnum
  pub issuer_info : List (String × Issuer)
  pub object_rules : Map Rule
  pub object_rule_bindings : Map (List RuleBinding)

-- `Cache::new`
abbrev pub new : Cache
new = record {
  object_cache = [];
  user_cache = [];
  pubkeys = [];
  issuer_info = [];
  object_rules = [];
  object_rule_bindings = [];
}
