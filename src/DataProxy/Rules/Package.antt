-- ===== src/DataProxy/Rules/Package.antt =====
-- `PackageObjectRuleInputBuilder` of components/data_proxy/src/auth/rule_structs.rs.
use aos_server.Base.{
  String, Bool, false, not, ◌||◌, Option, none, List, [], is_nil, is_some, Result, ok, ◌>>◌, Error,
  if◌then◌else◌,
}
use aos_server.Base.Map.{Map}
use aos_server.Enums.{DbPermissionLevel}
use aos_server.ServerCache.{Ulid}
use aos_server.DataProxy.Objects.{ProxyObject, Texts, HttpMethod, method_text}
use aos_server.DataProxy.Rules.{
  Headers, PackageObjectRuleInput, RuleEngine, convert_permissions, convert_headers, is_empty,
  require,
}

pub record PackageObjectRuleInputBuilder : Type 0 where
  pub user_id : String
  pub permissions : Texts
  pub attributes : Texts
  pub method : String
  pub headers : Headers
  pub object : Option ProxyObject
  pub parents : List ProxyObject
  pub skip : Bool

unfoldable pub new : RuleEngine → PackageObjectRuleInputBuilder
new engine = record {
  user_id = "";
  permissions = [];
  attributes = [];
  method = "";
  headers = [];
  object = none;
  parents = [];
  skip = is_nil engine.obj_package;
}

unfoldable pub permissions :
    (Ulid → String)
    → Map DbPermissionLevel
    → PackageObjectRuleInputBuilder
    → PackageObjectRuleInputBuilder
permissions to_string perms b =
    if b.skip then b else record b { permissions = convert_permissions to_string perms }

unfoldable pub attributes : Texts → PackageObjectRuleInputBuilder → PackageObjectRuleInputBuilder
attributes attrs b = if b.skip then b else record b { attributes = attrs }

unfoldable pub method : HttpMethod → PackageObjectRuleInputBuilder → PackageObjectRuleInputBuilder
method m b = if b.skip then b else record b { method = method_text m }

unfoldable pub headers :
    List (String × Option String) → PackageObjectRuleInputBuilder → PackageObjectRuleInputBuilder
headers hs b = if b.skip then b else record b { headers = convert_headers hs [] }

unfoldable pub object :
    Option ProxyObject → PackageObjectRuleInputBuilder → PackageObjectRuleInputBuilder
object o b = if b.skip then b else record b { object = o }

unfoldable pub parents :
    List ProxyObject → PackageObjectRuleInputBuilder → PackageObjectRuleInputBuilder
parents ps b = if b.skip then b else record b { parents = ps }

unfoldable pub build : PackageObjectRuleInputBuilder → Result Error PackageObjectRuleInput
build b = do
  require (b.skip || not (is_empty b.user_id)) "user_id is required"
  require (b.skip || not (is_empty b.method)) "method is required"
  require (b.skip || is_some b.object) "object is required"
  ok record {
    user = record { user_id = b.user_id; permissions = b.permissions; attributes = b.attributes };
    object = b.object;
    parents = b.parents;
    request = record { bucket = false; method = b.method; headers = b.headers };
  }
