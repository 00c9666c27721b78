-- ===== src/DataProxy/Access/Direct.antt =====
-- Objects and bundles that a request names by their id, and the choice between all handlers:
-- `handle_package_objects`, `handle_bundles`, `handle_object` and `check_access` of
-- components/data_proxy/src/auth/auth.rs.
pub mod Permitted
use Prim.Native.String.{◌++◌ as ◌<>◌}
use text.Mathlib.Text.{◌==◌ as str_eq}
use aos_server.Base.{
  ℕ, String, Bool, true, false, not, Option, none, some, List, [], ◌∷◌, map, Result, ok, err, ◌>>=◌,
  ◌>>◌, ok_or, if◌then◌else◌,
}
use aos_server.Enums.{DbPermissionLevel, ObjectType}
use aos_server.ServerCache.{Ulid}
use aos_server.DataProxy.Objects.{
  S3Error, no_such_key, access_denied, method_not_allowed, malformed_acl, ProxyObject, Texts, get,
  TypedId, is_method_read,
}
use aos_server.DataProxy.States.{AccessKeyPermissions, is_public}
use aos_server.DataProxy.Rules.{evaluate_package, evaluate_bundle}
use aos_server.DataProxy.Rules.Package
use aos_server.DataProxy.Rules.Bundles
use aos_server.DataProxy.Rules.Bundles.{Bundle}
use aos_server.DataProxy.Caching.{ProxyCache}
use aos_server.DataProxy.Caching.Graph.{get_prefixes, get_resource_cloned}
use aos_server.DataProxy.Caching.Uploads.{get_bundle}
use aos_server.DataProxy.Access.{
  Handler, Request, S3Path, root, bucket, object, UserState, anonymous, objects, bundle,
  CheckAccessResult, User, granted, or_s3, passed, user_state_of, extract_access_key_perms,
  check_permission_list, get_parent_project_objects, split_once, handle_root, handle_bucket,
  handle_path,
}

abbrev pub Answer : Type 0
Answer = Option (Result S3Error CheckAccessResult)

-- `get_parents` of the handler: the typed ids of all prefixes; a project stands for itself.
abbrev ids_of : Option (List (TypedId × String)) → Option (List TypedId)
ids_of none = none
ids_of (some prefixes) = some (map (λ (p : TypedId × String). p.0) prefixes)

unfoldable pub package_parents : ℕ → Ulid → ObjectType → ProxyCache → Option (List TypedId)
package_parents fuel id ObjectType.project c = some (TypedId.project id ∷ [])
package_parents fuel id _ c = ids_of (get_prefixes fuel (TypedId.unknown id) true c)

abbrev keyed_state : (Ulid → String) → Option User → UserState
keyed_state to_string none = anonymous
keyed_state to_string (some (key, attrs)) = user_state_of to_string key

module _ (h : Handler) (c : ProxyCache) (req : Request) where
  -- Of a user with an access key, a permission to read some parent, unless the object is public.
  unfoldable pub package_permitted :
      ProxyObject → List TypedId → Option User → Result S3Error (Unit {0})
  unfolding check_permission_list
  package_permitted o parents none = ok tt
  package_permitted o parents (some (key, attrs)) =
      if is_public o.data_class
      then ok tt
      else check_permission_list parents key.permissions DbPermissionLevel.read

  abbrev describe_package :
      Option User → Package.PackageObjectRuleInputBuilder → Package.PackageObjectRuleInputBuilder
  describe_package none b = b
  describe_package (some (key, attrs)) b =
      Package.permissions h.to_string key.permissions (Package.attributes attrs b)

  unfoldable pub package_rule :
      ProxyObject → List ProxyObject → Option User → Result S3Error (Unit {0})
  package_rule o parents user = do
    input ← or_s3 (malformed_acl "Rule has wrong context") (
        Package.build (
          Package.parents parents (
            describe_package user (
              Package.object (some o)
                (Package.headers req.headers (Package.method get (Package.new h.engine)))))))
    result ← or_s3 (access_denied "Forbidden by rule") (evaluate_package h.cel h.engine input)
    passed result

  unfoldable pub package_of : ProxyObject → String → List TypedId → Result S3Error CheckAccessResult
  unfolding package_permitted package_rule
  package_of o path parents = do
    let user = extract_access_key_perms req.creds c
    package_permitted o parents user
    projects ← get_parent_project_objects parents c
    package_rule o projects user
    ok (granted h c req (objects o path) (keyed_state h.to_string user) none)

  abbrev pub with_parents : ProxyObject → String → Option (List TypedId) → Answer
  with_parents o path none = none
  with_parents o path (some parents) = some (package_of o path parents)

  -- The object that the first part of a key names by its id, and the rest of the key.
  unfoldable pub named_object : String → Result S3Error (Ulid × ProxyObject × String)
  unfolding get_resource_cloned
  named_object key_name = do
    (object_name, path) ← ok_or (split_once key_name) (no_such_key "No such object")
    id ← or_s3 (no_such_key "No such object") (h.from_str object_name)
    (o, location) ← or_s3 (no_such_key "No such object") (get_resource_cloned id true c)
    ok (id, o, path)

  abbrev pub open_package : ℕ → Result S3Error (Ulid × ProxyObject × String) → Answer
  open_package fuel (err e) = some (err e)
  open_package fuel (ok (id, o, path)) =
      with_parents o path (package_parents fuel id o.object_type c)

  unfoldable pub handle_package_objects : ℕ → String → Answer
  unfolding named_object package_of package_parents
  handle_package_objects fuel key_name = open_package fuel (named_object key_name)

  abbrev describe_bundle :
      Option User → Bundles.BundleRuleInputBuilder → Bundles.BundleRuleInputBuilder
  describe_bundle none b = b
  describe_bundle (some (key, attrs)) b =
      Bundles.permissions h.to_string key.permissions (Bundles.attributes attrs b)

  unfoldable pub bundle_rule : Bundle → Option User → Result S3Error (Unit {0})
  bundle_rule bdl user = do
    input ← or_s3 (malformed_acl "Rule has wrong context") (
        Bundles.build h.never (
          describe_bundle user (
            Bundles.bundle bdl
              (Bundles.headers req.headers (Bundles.method get (Bundles.new h.engine))))))
    result ← or_s3 (access_denied "Forbidden by rule") (evaluate_bundle h.cel h.engine input)
    passed result

  unfoldable pub handle_bundles : String → Result S3Error CheckAccessResult
  unfolding get_bundle bundle_rule
  handle_bundles key_name = do
    (object_name, path) ← ok_or (split_once key_name) (no_such_key "No such object")
    id ← or_s3 (no_such_key "No such object") (h.from_str object_name)
    bdl ← ok_or (get_bundle id c) (no_such_key "No such object")
    let user = extract_access_key_perms req.creds c
    bundle_rule bdl user
    ok (granted h c req (bundle bdl path) (keyed_state h.to_string user) none)

  abbrev refused_method : S3Error
  refused_method = method_not_allowed "Method not allowed"

  unfoldable pub handle_object : ℕ → String → String → Answer
  unfolding handle_package_objects handle_bundles
  handle_object fuel bucket_name key_name =
      if str_eq bucket_name "objects"
      then (if is_method_read req.method
          then handle_package_objects fuel key_name
          else some (err refused_method))
      else if str_eq bucket_name "bundles"
      then some (if is_method_read req.method then handle_bundles key_name else err refused_method)
      else some (handle_path h c req (bucket_name <> "/" <> key_name))

  unfoldable pub check_access : ℕ → S3Path → Answer
  unfolding handle_object
  check_access fuel root = some (handle_root h c req)
  check_access fuel (bucket name) = some (handle_bucket h c req name)
  check_access fuel (object name key) = handle_object fuel name key
