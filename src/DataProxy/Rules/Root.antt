-- ===== src/DataProxy/Rules/Root.antt =====
-- `RootRuleInputBuilder` of components/data_proxy/src/auth/rule_structs.rs.
use aos_server.Base.{
  String, Bool, false, not, ◌||◌, Option, List, [], is_nil, Result, ok, ◌>>◌, Error, if◌then◌else◌,
}
use aos_server.Base.Map.{Map}
use aos_server.Enums.{DbPermissionLevel}
use aos_server.ServerCache.{Ulid}
use aos_server.DataProxy.Objects.{Texts, HttpMethod, method_text}
use aos_server.DataProxy.Rules.{
  Headers, RootRuleInput, RuleEngine, convert_permissions, convert_headers, is_empty, require,
}

pub record RootRuleInputBuilder : Type 0 where
  pub user_id : String
  pub permissions : Texts
  pub attributes : Texts
  pub method : String
  pub headers : Headers
  pub skip : Bool

-- Here alone `skip` is set when there are rules.
unfoldable pub new : RuleEngine → RootRuleInputBuilder
new engine = record {
  user_id = "";
  permissions = [];
  attributes = [];
  method = "";
  headers = [];
  skip = not (is_nil engine.root);
}

unfoldable pub user_id : String → RootRuleInputBuilder → RootRuleInputBuilder
user_id id b = if b.skip then b else record b { user_id = id }

unfoldable pub permissions :
    (Ulid → String) → Map DbPermissionLevel → RootRuleInputBuilder → RootRuleInputBuilder
permissions to_string perms b =
    if b.skip then b else record b { permissions = convert_permissions to_string perms }

unfoldable pub attributes : Texts → RootRuleInputBuilder → RootRuleInputBuilder
attributes attrs b = if b.skip then b else record b { attributes = attrs }

unfoldable pub method : HttpMethod → RootRuleInputBuilder → RootRuleInputBuilder
method m b = if b.skip then b else record b { method = method_text m }

unfoldable pub headers : List (String × Option String) → RootRuleInputBuilder → RootRuleInputBuilder
headers hs b = if b.skip then b else record b { headers = convert_headers hs [] }

unfoldable pub build : RootRuleInputBuilder → Result Error RootRuleInput
build b = do
  require (b.skip || not (is_empty b.user_id)) "user_id is required"
  require (b.skip || not (is_empty b.method)) "method is required"
  ok record {
    user = record { user_id = b.user_id; permissions = b.permissions; attributes = b.attributes };
    request = record { bucket = false; method = b.method; headers = b.headers };
  }
