-- ===== src/DataProxy/Rules.antt =====
-- The operator's access rules: components/data_proxy/src/auth/rule_engine.rs and the inputs of
-- rule_structs.rs. A parsed rule is named by its text. The CEL package, which evaluates rules over an
-- input, is a parameter: `resolve` is `add_variable` and `resolve_all` in one.
pub mod Root
pub mod Hierarchy
pub mod Package
pub mod Bundles
pub mod Replication
use text.Mathlib.Text.{◌==◌ as str_eq}
use aos_server.Base.{
  ℕ, String, Bool, true, false, not, ◌&&◌, Option, none, some, List, [], ◌∷◌, ◌++◌, all, is_nil,
  Result, ok, err, ◌>>=◌, Error, message, if◌then◌else◌,
}
use aos_server.Base.Map.{Map}
use aos_server.Enums.{DbPermissionLevel}
use aos_server.ServerCache.{Ulid}
use aos_server.DataProxy.Objects.{ProxyObject, Texts, permission_text}

pub data StringOrVec : Type 0 where
  elem : String → StringOrVec
  vec : List String → StringOrVec

abbrev pub Headers : Type 0
Headers = List (String × StringOrVec)

pub record UserRuleInfo : Type 0 where
  pub user_id : String
  pub permissions : Texts
  pub attributes : Texts

pub record RequestInfo : Type 0 where
  pub bucket : Bool
  pub method : String
  pub headers : Headers

pub record RootRuleInput : Type 0 where
  pub user : UserRuleInfo
  pub request : RequestInfo

-- With the fields of `ObjectHierarchyRuleInfo`.
pub record ObjectRuleInput : Type 0 where
  pub user : Option UserRuleInfo
  pub object : Option ProxyObject
  pub dataset : Option ProxyObject
  pub collection : Option ProxyObject
  pub project : Option ProxyObject
  pub request : RequestInfo

pub record PackageObjectRuleInput : Type 0 where
  pub user : UserRuleInfo
  pub object : Option ProxyObject
  pub parents : List ProxyObject
  pub request : RequestInfo

pub record BundleRuleInput : Type 0 where
  pub user : UserRuleInfo
  pub objects : List ProxyObject
  pub request : RequestInfo
  pub bundle_id : Ulid
  pub expires : ℕ

-- `convert_permissions`; `to_string` prints an id.
unfoldable pub convert_permissions : (Ulid → String) → Map DbPermissionLevel → Texts
unfolding permission_text
convert_permissions to_string [] = []
convert_permissions to_string ((k, v) ∷ perm) =
    (to_string k, permission_text v) ∷ convert_permissions to_string perm

abbrev joined : String → StringOrVec → StringOrVec
joined value (elem existing) = vec (existing ∷ value ∷ [])
joined value (vec arr) = vec (arr ++ value ∷ [])

unfoldable pub add_header : String → String → Headers → Headers
add_header k value [] = (k, elem value) ∷ []
add_header k value ((j, seen) ∷ headers) =
    let later = add_header k value headers in
    if str_eq j k then (j, joined value seen) ∷ headers else (j, seen) ∷ later

abbrev text_or_empty : Option String → String
text_or_empty none = ""
text_or_empty (some s) = s

-- A header's value is `none` where it is no text.
unfoldable pub convert_headers : List (String × Option String) → Headers → Headers
convert_headers [] map = map
convert_headers ((k, v) ∷ headers) map =
    convert_headers headers (add_header k (text_or_empty v) map)

pub data RuleTarget : Type 0 where
  root object bundle objectpackage replicationin replicationout : RuleTarget

pub record RuleEngine : Type 0 where
  pub root : List String
  pub obj : List String
  pub bundle : List String
  pub obj_package : List String
  pub repl_in : List String
  pub repl_out : List String

abbrev sorted_in : RuleTarget → String → RuleEngine → RuleEngine
sorted_in RuleTarget.root rule e = record e { root = e.root ++ rule ∷ [] }
sorted_in RuleTarget.object rule e = record e { obj = e.obj ++ rule ∷ [] }
sorted_in RuleTarget.bundle rule e = record e { bundle = e.bundle ++ rule ∷ [] }
sorted_in RuleTarget.objectpackage rule e = record e { obj_package = e.obj_package ++ rule ∷ [] }
sorted_in RuleTarget.replicationin rule e = record e { repl_in = e.repl_in ++ rule ∷ [] }
sorted_in RuleTarget.replicationout rule e = record e { repl_out = e.repl_out ++ rule ∷ [] }

unfoldable pub sort_rules :
    (String → Result Error String)
    → List (RuleTarget × String)
    → RuleEngine
    → Result Error RuleEngine
sort_rules parse [] e = ok e
sort_rules parse ((target, rule) ∷ rules) e = do
  parsed ← parse rule
  sort_rules parse rules (sorted_in target parsed e)

-- `RuleEngine::new`, of the configured rules.
unfoldable pub new_engine :
    (String → Result Error String) → List (RuleTarget × String) → Result Error RuleEngine
unfolding sort_rules
new_engine parse rules =
    sort_rules parse rules
      (record { root = []; obj = []; bundle = []; obj_package = []; repl_in = []; repl_out = [] })

-- What the package computes: the code looks for a list of Booleans.
pub data Item : Type 0 where
  bool : Bool → Item
  unmatched : Item

pub data Value : Type 0 where
  list : List Item → Value
  single : Value

pub record Cel : Type 0 where
  pub root_rules : List String → RootRuleInput → Result Error Value
  pub object_rules : List String → ObjectRuleInput → Result Error Value
  pub package_rules : List String → PackageObjectRuleInput → Result Error Value
  pub bundle_rules : List String → BundleRuleInput → Result Error Value

abbrev is_true : Item → Bool
is_true (bool b) = b
is_true unmatched = false

-- The end of each `evaluate_…`.
abbrev pub all_true : Result Error Value → Result Error Bool
all_true (err e) = err e
all_true (ok (list items)) = ok (all is_true items)
all_true (ok single) = err (message "expected bool")

unfoldable pub evaluate_root : Cel → RuleEngine → RootRuleInput → Result Error Bool
evaluate_root cel engine ctx = all_true (cel.root_rules engine.root ctx)

unfoldable pub evaluate_object : Cel → RuleEngine → ObjectRuleInput → Result Error Bool
evaluate_object cel engine ctx = all_true (cel.object_rules engine.obj ctx)

unfoldable pub evaluate_package : Cel → RuleEngine → PackageObjectRuleInput → Result Error Bool
evaluate_package cel engine ctx = all_true (cel.package_rules engine.obj_package ctx)

unfoldable pub evaluate_bundle : Cel → RuleEngine → BundleRuleInput → Result Error Bool
evaluate_bundle cel engine ctx = all_true (cel.bundle_rules engine.bundle ctx)

abbrev pub is_empty : String → Bool
is_empty s = str_eq s ""

abbrev pub require : Bool → String → Result Error (Unit {0})
require true text = ok tt
require false text = err (message text)
