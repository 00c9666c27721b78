-- ===== src/DataProxy/Caching.antt =====
-- The data proxy's cache: components/data_proxy/src/caching/cache.rs. The maps are association lists;
-- `paths`, a skip list ordered by its keys, is the list of its entries. The outcome of a query to the
-- proxy's own database is an argument; without a database it is a success. The decoding key beside
-- each public key belongs to a package and is left out.
pub mod Graph
pub mod Keys
pub mod Secrets
pub mod Paths
pub mod Uploads
pub mod Loading
use aos_server.Base.{ℕ, String, Bool, Option, List, []}
use aos_server.Base.Map.{Map}
use aos_server.Enums.{DbPermissionLevel}
use aos_server.ServerCache.{Ulid}
use aos_server.DataProxy.Format.{ObjectLocation}
use aos_server.DataProxy.Objects.{ProxyObject, Texts}
use aos_server.DataProxy.States.{AccessKeyPermissions}
use aos_server.DataProxy.Rules.Bundles.{Bundle}

pub record ProxyUser : Type 0 where
  pub user_id : Ulid
  pub personal_permissions : Map DbPermissionLevel
  pub tokens : Map (Map DbPermissionLevel)
  pub is_service_account : Bool
  pub attributes : Texts

pub record PubKey : Type 0 where
  pub id : ℕ
  pub key : String
  pub is_proxy : Bool

pub record UploadPart : Type 0 where
  pub id : Ulid
  pub object_id : Ulid
  pub upload_id : String
  pub part_number : ℕ
  pub raw_size : ℕ
  pub size : ℕ

-- A user stands with the access keys that are registered for it, a resource with its location.
pub record ProxyCache : Type 0 where
  pub users : Map (ProxyUser × List String)
  pub access_keys : List (String × AccessKeyPermissions)
  pub resources : Map (ProxyObject × Option ObjectLocation)
  pub bundles : Map Bundle
  pub multi_parts : List (String × List UploadPart)
  pub paths : List (String × Ulid)
  pub pubkeys : Map PubKey

-- The maps of `Cache::new`.
abbrev pub empty_cache : ProxyCache
empty_cache = record {
  users = [];
  access_keys = [];
  resources = [];
  bundles = [];
  multi_parts = [];
  paths = [];
  pubkeys = [];
}
