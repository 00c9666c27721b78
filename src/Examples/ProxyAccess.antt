-- ===== src/Examples/ProxyAccess.antt =====
-- What the small data proxy answers, and the theorems on access at it.
use aos_server.Base.{false, ◌≡◌, refl, none, some, [], ◌∷◌, ok, err, IsOk}
use aos_server.Base.Map
use aos_server.Base.Texts
use aos_server.Base.Texts.{lookup}
use aos_server.Enums.{level}
use aos_server.Enums.Api.{ResourceVariant}
use aos_server.DataProxy.Objects.{
  access_denied, malformed_acl, get, put, TypedId, ProxyObject, is_method_read, fail_partial_sync,
  permission_of_method, initialize_now, is_partial_sync, permission_text, typed_id, relation_id,
  typed,
}
use aos_server.DataProxy.States.{
  ResourceStates, found, missing, absent, Generated, Planned, to_new_or_existing,
  reject_partial_sync, require_project, as_found, check_permissions, check_states, disallow_missing,
  found_or_missing, get_project, is_missing, partial_states, require_object, set_found, set_missing,
  validate,
}
use aos_server.DataProxy.States.Plans.{IsPlan}
use aos_server.DataProxy.Rules.{
  RuleEngine, add_header, convert_headers, convert_permissions, evaluate_object, evaluate_package,
}
use aos_server.DataProxy.Caching.Graph.{
  get_prefixes, get_location, get_parents, collect, push_parents, paths_along, enter, climb,
  get_resource_cloned,
}
use aos_server.DataProxy.Caching.Secrets.{get_key_perms, get_user_attributes}
use aos_server.DataProxy.Caching.Paths.{get_full_resource_by_path, get_resource_by_path}
use aos_server.DataProxy.Access.{
  handle_path, key_into_prefix, prefix_into_resource_states, regular, personal, root_rule,
  extract_access_key_perms, get_parent_project_objects, object_user, object_rule, note_states,
  split_key, user_state_of, split_once, check_permission_list,
}
use aos_server.DataProxy.Access.Direct.{
  handle_package_objects, named_object, package_parents, package_rule, package_of,
  package_permitted,
}
use aos_server.DataProxy.Access.ByRules.{root_rule-blind}
use aos_server.DataProxy.Access.Resolved.{IsOrdered, prefix_into_resource_states-IsPlan}
use aos_server.Examples.Proxy.{
  bucket, file, proxy, handler, keyed, unkeyed, owner_key, no_rules, with_engine,
}
use aos_server.DataProxy.Rules.Hierarchy
use aos_server.DataProxy.Cors.{
  all_requested, applies, find_cors, headers_of, into_headers, project_get_headers, split_commas,
  trim,
}
use aos_server.DataProxy.Rules.Package

-- The user of the key writes the object; nobody else reads it.
abbrev both_found : ResourceStates
both_found = record {
  project = found bucket;
  collection = absent;
  dataset = absent;
  object = found file;
}

written :
    handle_path handler proxy (keyed put) "p/o"
    ≡ ok (record {
      objects_state = regular both_found none;
      user_state = personal 7;
      headers = none;
    })
unfolding handle_path prefix_into_resource_states key_into_prefix get_full_resource_by_path lookup
    Map.get is_method_read reject_partial_sync fail_partial_sync require_project object_user
    extract_access_key_perms get_key_perms get_user_attributes level permission_of_method
    object_rule Hierarchy.build Texts.put note_states split_key user_state_of get_location
    get_resource_by_path all_requested applies find_cors headers_of into_headers project_get_headers
    split_commas trim initialize_now is_partial_sync permission_text Hierarchy.add_resource_states
    Hierarchy.attributes Hierarchy.headers Hierarchy.method Hierarchy.new Hierarchy.permissions
    Hierarchy.user_id add_header convert_headers convert_permissions evaluate_object as_found
    check_permissions check_states disallow_missing found_or_missing get_project is_missing
    partial_states require_object set_found set_missing validate
written = refl

unread : handle_path handler proxy (unkeyed get) "p/o" ≡ err (access_denied "Missing access key")
unfolding handle_path prefix_into_resource_states key_into_prefix get_full_resource_by_path lookup
    Map.get is_method_read disallow_missing reject_partial_sync fail_partial_sync require_project
    object_user extract_access_key_perms
unread = refl

parents : package_parents 5 2 file.object_type proxy ≡ some (TypedId.project 1 ∷ [])
unfolding package_parents get_prefixes get_parents Map.get typed_id collect relation_id push_parents
    typed paths_along enter
parents = refl

abbrev all_ruled : RuleEngine
all_ruled = record no_rules { root = "true" ∷ []; bundle = "true" ∷ []; obj_package = "true" ∷ [] }

refused :
    handle_package_objects (with_engine all_ruled) proxy (keyed get) 5 "2/o"
    ≡ some (err (malformed_acl "Rule has wrong context"))
unfolding handle_package_objects split_once Map.get get_prefixes get_parents typed_id collect
    relation_id push_parents typed extract_access_key_perms get_key_perms lookup get_user_attributes
    paths_along enter level get_parent_project_objects named_object package_of package_parents
    package_permitted package_rule check_permission_list user_state_of climb get_resource_cloned
    permission_text Package.attributes Package.build Package.headers Package.method Package.new
    Package.object Package.parents Package.permissions add_header convert_headers
    convert_permissions evaluate_package
refused = refl

root_rule-blind_example :
    root_rule (with_engine all_ruled) proxy (keyed get) (owner_key, [])
    ≡ root_rule (with_engine all_ruled) proxy (unkeyed put) (owner_key, ("a", "b") ∷ [])
root_rule-blind_example =
    root_rule-blind (with_engine all_ruled) proxy proxy (keyed get) (unkeyed put) (owner_key, [])
      (owner_key, ("a", "b") ∷ []) refl

abbrev ids : Generated
ids = record { collection = 61; dataset = 62; object = 63 }

-- A path with a new dataset and a new object.
resolved :
    prefix_into_resource_states (key_into_prefix "p/d/n") false proxy
    ≡ ok (record {
      project = found bucket;
      collection = absent;
      dataset = missing "d" ResourceVariant.dataset;
      object = missing "n" ResourceVariant.object;
    })
unfolding prefix_into_resource_states key_into_prefix get_full_resource_by_path lookup Map.get
resolved = refl

prefix_into_resource_states-IsPlan_example :
    IsOk
      (λ s.
        (project : ProxyObject) × (p : Planned) × (s.project ≡ found project)
        × (to_new_or_existing ids 5 s ≡ ok p)
        × IsPlan s project p
        × IsOrdered s)
      (prefix_into_resource_states (key_into_prefix "p/d/n") false proxy)
prefix_into_resource_states-IsPlan_example =
    prefix_into_resource_states-IsPlan (key_into_prefix "p/d/n") proxy ids 5
