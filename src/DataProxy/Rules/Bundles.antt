-- ===== src/DataProxy/Rules/Bundles.antt =====
-- `BundleRuleInputBuilder` of components/data_proxy/src/auth/rule_structs.rs, with `Bundle` of
-- components/data_proxy/src/structs.rs.
use aos_server.Base.{
  ℕ, String, Bool, false, not, ◌||◌, Option, none, some, List, [], is_nil, ◌==◌, Result, ok, ◌>>◌,
  Error, if◌then◌else◌,
}
use aos_server.Base.Map.{Map}
use aos_server.Enums.{DbPermissionLevel}
use aos_server.ServerCache.{Ulid}
use aos_server.DataProxy.Objects.{ProxyObject, Texts, HttpMethod, method_text}
use aos_server.DataProxy.Rules.{
  Headers, BundleRuleInput, RuleEngine, convert_permissions, convert_headers, is_empty, require,
}

pub record Bundle : Type 0 where
  pub id : Ulid
  pub owner_access_key : String
  pub ids : List Ulid
  pub expires_at : Option ℕ
  pub once : Bool

abbrev pub default_bundle : Bundle
default_bundle = record { id = 0; owner_access_key = ""; ids = []; expires_at = none; once = false }

-- The id of all zeros.
unfoldable pub is_default : Bundle → Bool
is_default bundle = bundle.id == 0

pub record BundleRuleInputBuilder : Type 0 where
  pub user_id : String
  pub permissions : Texts
  pub attributes : Texts
  pub method : String
  pub headers : Headers
  pub objects : List ProxyObject
  pub bundle : Bundle
  pub skip : Bool

unfoldable pub new : RuleEngine → BundleRuleInputBuilder
new engine = record {
  user_id = "";
  permissions = [];
  attributes = [];
  method = "";
  headers = [];
  objects = [];
  bundle = default_bundle;
  skip = is_nil engine.bundle;
}

unfoldable pub permissions :
    (Ulid → String) → Map DbPermissionLevel → BundleRuleInputBuilder → BundleRuleInputBuilder
permissions to_string perms b =
    if b.skip then b else record b { permissions = convert_permissions to_string perms }

unfoldable pub attributes : Texts → BundleRuleInputBuilder → BundleRuleInputBuilder
attributes attrs b = if b.skip then b else record b { attributes = attrs }

unfoldable pub method : HttpMethod → BundleRuleInputBuilder → BundleRuleInputBuilder
method m b = if b.skip then b else record b { method = method_text m }

unfoldable pub headers :
    List (String × Option String) → BundleRuleInputBuilder → BundleRuleInputBuilder
headers hs b = if b.skip then b else record b { headers = convert_headers hs [] }

unfoldable pub bundle : Bundle → BundleRuleInputBuilder → BundleRuleInputBuilder
bundle bdl b = if b.skip then b else record b { bundle = bdl }

abbrev expiry : ℕ → Option ℕ → ℕ
expiry never none = never
expiry never (some t) = t

-- `never` is the time in a hundred years.
unfoldable pub build : ℕ → BundleRuleInputBuilder → Result Error BundleRuleInput
unfolding is_default
build never b = do
  require (b.skip || not (is_empty b.user_id)) "user_id is required"
  require (b.skip || not (is_empty b.method)) "method is required"
  require (b.skip || not (is_nil b.objects)) "objects is required"
  require (b.skip || not (is_default b.bundle)) "bundle_id is required"
  ok record {
    user = record { user_id = b.user_id; permissions = b.permissions; attributes = b.attributes };
    objects = b.objects;
    request = record { bucket = false; method = b.method; headers = b.headers };
    bundle_id = b.bundle.id;
    expires = expiry never b.bundle.expires_at;
  }
