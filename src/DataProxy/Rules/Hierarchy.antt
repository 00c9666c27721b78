-- ===== src/DataProxy/Rules/Hierarchy.antt =====
-- `ObjectRuleInputBuilder` of components/data_proxy/src/auth/rule_structs.rs.
use aos_server.Base.{
  ℕ, String, Bool, false, not, ◌||◌, Option, none, some, List, [], is_nil, is_some, Result, ok, err,
  ◌>>=◌, ◌>>◌, Error, message, if◌then◌else◌,
}
use aos_server.Base.Map.{Map}
use aos_server.Enums.{DbPermissionLevel, ObjectType}
use aos_server.ServerCache.{Ulid}
use aos_server.DataProxy.Objects.{ProxyObject, Texts, HttpMethod, method_text}
use aos_server.DataProxy.States.{ResourceStates, found_or_missing}
use aos_server.DataProxy.Rules.{
  Headers, ObjectRuleInput, UserRuleInfo, RuleEngine, convert_permissions, convert_headers,
  is_empty, require,
}

pub record ObjectRuleInputBuilder : Type 0 where
  pub user_id : Option String
  pub permissions : Option Texts
  pub attributes : Option Texts
  pub bucket : Bool
  pub method : String
  pub headers : Headers
  pub object : Option ProxyObject
  pub dataset : Option ProxyObject
  pub collection : Option ProxyObject
  pub project : Option ProxyObject
  pub skip : Bool

unfoldable pub new : RuleEngine → ObjectRuleInputBuilder
new engine = record {
  user_id = none;
  permissions = none;
  attributes = none;
  bucket = false;
  method = "";
  headers = [];
  object = none;
  dataset = none;
  collection = none;
  project = none;
  skip = is_nil engine.obj;
}

unfoldable pub user_id : String → ObjectRuleInputBuilder → ObjectRuleInputBuilder
user_id id b = if b.skip then b else record b { user_id = some id }

unfoldable pub permissions :
    (Ulid → String) → Map DbPermissionLevel → ObjectRuleInputBuilder → ObjectRuleInputBuilder
permissions to_string perms b =
    if b.skip then b else record b { permissions = some (convert_permissions to_string perms) }

unfoldable pub attributes : Texts → ObjectRuleInputBuilder → ObjectRuleInputBuilder
attributes attrs b = if b.skip then b else record b { attributes = some attrs }

unfoldable pub method : HttpMethod → ObjectRuleInputBuilder → ObjectRuleInputBuilder
method m b = if b.skip then b else record b { method = method_text m }

unfoldable pub headers :
    List (String × Option String) → ObjectRuleInputBuilder → ObjectRuleInputBuilder
headers hs b = if b.skip then b else record b { headers = convert_headers hs [] }

abbrev or_kept : Option ProxyObject → Option ProxyObject → Option ProxyObject
or_kept none kept = kept
or_kept (some o) kept = some o

-- A missing resource is described by one that is initialised with a generated id.
unfoldable pub add_resource_states :
    Ulid → ℕ → ResourceStates → ObjectRuleInputBuilder → ObjectRuleInputBuilder
add_resource_states generated now s b = if b.skip then b else record b {
  project = or_kept (found_or_missing generated now ObjectType.project s.project) b.project;
  collection =
      or_kept (found_or_missing generated now ObjectType.collection s.collection) b.collection;
  dataset = or_kept (found_or_missing generated now ObjectType.dataset s.dataset) b.dataset;
  object = or_kept (found_or_missing generated now ObjectType.object s.object) b.object;
}

abbrev texts_or_empty : Option Texts → Texts
texts_or_empty none = []
texts_or_empty (some m) = m

abbrev user_info : Option String → Option Texts → Option Texts → Result Error (Option UserRuleInfo)
user_info none none none = ok none
user_info (some id) permissions attributes = ok (
    some record {
      user_id = id;
      permissions = texts_or_empty permissions;
      attributes = texts_or_empty attributes;
    })
user_info none permissions attributes = err (message "user_id is required")

unfoldable pub build : ObjectRuleInputBuilder → Result Error ObjectRuleInput
build b = do
  require (b.skip || not (is_empty b.method)) "method is required"
  require (b.skip || is_some b.project) "project is required"
  user ← user_info b.user_id b.permissions b.attributes
  ok record {
    user = user;
    object = b.object;
    dataset = b.dataset;
    collection = b.collection;
    project = b.project;
    request = record { bucket = b.bucket; method = b.method; headers = b.headers };
  }
