-- ===== src/DataProxy/Access.antt =====
-- Who may access what: `AuthHandler::check_access` of components/data_proxy/src/auth/auth.rs with its
-- handlers, and `key_into_prefix` of auth_helpers.rs. Credentials are the access key that the S3
-- package has authenticated. `none` means that the fuel of a search for parents ran out.
pub mod Direct
pub mod Authorized
pub mod ByRules
pub mod Resolved
pub mod Answers
use Prim.Native.Char.{code}
use Prim.Native.String.{◌++◌ as ◌<>◌}
use text.Mathlib.Text.{◌==◌ as str_eq}
use aos_server.Base.{
  ℕ, zero, suc, String, Bool, true, false, not, ◌&&◌, Option, none, some, List, [], ◌∷◌, ◌==◌,
  length, map, is_nil, is_some, Result, ok, err, ◌>>=◌, ◌>>◌, Error, message, ok_or, if◌then◌else◌,
}
use aos_server.Base.Map
use aos_server.Base.Map.{Map}
use aos_server.Base.Texts.{behind, before}
use aos_server.Enums.{DbPermissionLevel, ObjectType}
use aos_server.ServerCache.{Ulid}
use aos_server.DataProxy.Format.{ObjectLocation}
use aos_server.DataProxy.Objects.{
  S3Error, no_such_key, no_such_bucket, access_denied, invalid_object_state, internal_error,
  method_not_allowed, malformed_acl, ProxyObject, Texts, HttpMethod, get, TypedId, typed_id,
  permission_of_method, is_method_read,
}
use aos_server.DataProxy.States.{
  ResourceStates, AccessKeyPermissions, no_states, set_missing, set_found, validate,
  disallow_missing, reject_partial_sync, check_permissions, require_project, require_object,
  get_project, as_found, is_public, at_least,
}
use aos_server.DataProxy.Rules.{
  Cel, RuleEngine, evaluate_root, evaluate_object, evaluate_package, evaluate_bundle,
}
use aos_server.DataProxy.Rules.Root
use aos_server.DataProxy.Rules.Hierarchy
use aos_server.DataProxy.Rules.Package
use aos_server.DataProxy.Rules.Bundles
use aos_server.DataProxy.Rules.Bundles.{Bundle}
use aos_server.DataProxy.Cors.{CorsRule, project_get_headers}
use aos_server.DataProxy.Caching.{ProxyCache}
use aos_server.DataProxy.Caching.Graph.{get_prefixes, get_resource_cloned, get_location}
use aos_server.DataProxy.Caching.Secrets.{get_key_perms, get_user_attributes}
use aos_server.DataProxy.Caching.Paths.{get_full_resource_by_path}
use aos_server.DataProxy.Caching.Uploads.{get_bundle}

-- The handler's own fields, the packages it calls, and the id and the times that a call draws.
pub record Handler : Type 0 where
  pub self_id : Ulid
  pub engine : RuleEngine
  pub cel : Cel
  pub to_string : Ulid → String
  pub from_str : String → Result Error Ulid
  pub parse_cors : String → Option (List CorsRule)
  pub generated : Ulid
  pub now : ℕ
  pub never : ℕ

pub record Request : Type 0 where
  pub creds : Option String
  pub method : HttpMethod
  pub headers : List (String × Option String)

pub data S3Path : Type 0 where
  root : S3Path
  bucket : String → S3Path
  object : String → String → S3Path

pub data UserState : Type 0 where
  anonymous : UserState
  personal : Ulid → UserState
  token : String → Ulid → UserState

pub data ObjectsState : Type 0 where
  regular : ResourceStates → Option ObjectLocation → ObjectsState
  objects : ProxyObject → String → ObjectsState
  bundle : Bundle → String → ObjectsState

pub record CheckAccessResult : Type 0 where
  pub objects_state : ObjectsState
  pub user_state : UserState
  pub headers : Option Texts

-- `UserState::from`
unfoldable pub user_state_of : (Ulid → String) → AccessKeyPermissions → UserState
user_state_of to_string perm =
    if str_eq perm.access_key (to_string perm.user_id)
    then personal perm.user_id
    else token perm.access_key perm.user_id

-- `splitn(4, '/')` with the text in front of each part: a fourth part takes the rest.
unfoldable pub split_key : ℕ → String → String → List (String × String)
split_key zero prefix key = (prefix <> key, key) ∷ []
split_key (suc more) prefix key =
    let part = before b'/' key in
    elim (behind b'/' key) [
      | none ↦ (prefix <> key, key) ∷ []
      | some rest ↦ (prefix <> part, part) ∷ split_key more (prefix <> part <> "/") rest
    ]

unfoldable pub key_into_prefix : String → List (String × String)
unfolding split_key
key_into_prefix key = split_key 3 "" key

abbrev pub or_s3 {ℓ} : {A : Type ℓ} → S3Error → Result Error A → Result S3Error A
or_s3 e (ok a) = ok a
or_s3 e (err e') = err e

abbrev passed : Bool → Result S3Error (Unit {0})
passed true = ok tt
passed false = err (invalid_object_state "Forbidden by rule")

-- One round of the loop over the parts of a path.
abbrev pub note_state :
    ℕ → ℕ → String → Option ProxyObject → ResourceStates → Result S3Error ResourceStates
note_state idx len name none s =
    or_s3 (internal_error "Internal Error") (set_missing idx len name s)
note_state idx len name (some o) s = ok (set_found o s)

unfoldable pub note_states :
    ProxyCache → ℕ → ℕ → List (String × String) → ResourceStates → Result S3Error ResourceStates
unfolding set_missing set_found
note_states c idx len [] s = ok s
note_states c idx len ((prefix, name) ∷ parts) s = do
  s' ← note_state idx len name (get_full_resource_by_path prefix c) s
  note_states c (suc idx) len parts s'

abbrev pub has_bucket : Bool → ResourceStates → Result S3Error (Unit {0})
has_bucket true s = ok tt
has_bucket false s =
    if is_some (get_project s) then ok tt else err (no_such_bucket "Bucket not found")

unfoldable pub prefix_into_resource_states :
    List (String × String) → Bool → ProxyCache → Result S3Error ResourceStates
unfolding note_states get_project validate
prefix_into_resource_states prefixes allow_create c = do
  s ← note_states c 0 (length prefixes) prefixes no_states
  has_bucket allow_create s
  or_s3 (internal_error "Internal Error") (validate allow_create s)
  ok s

abbrev pub both : {A B : Type 0} → Option A → Option B → Option (A × B)
both none b = none
both (some a) none = none
both (some a) (some b) = some (a, b)

abbrev attributes_of :
    ProxyCache → Option AccessKeyPermissions → Option (AccessKeyPermissions × Texts)
attributes_of c none = none
attributes_of c (some key) = both (some key) (get_user_attributes key.user_id c)

unfoldable pub extract_access_key_perms :
    Option String → ProxyCache → Option (AccessKeyPermissions × Texts)
extract_access_key_perms none c = none
extract_access_key_perms (some access_key) c = attributes_of c (get_key_perms access_key c)

unfoldable pub check_permission_list :
    List TypedId → Map DbPermissionLevel → DbPermissionLevel → Result S3Error (Unit {0})
check_permission_list [] permissions expected = err (access_denied "Access Denied")
check_permission_list (id ∷ ids) permissions expected =
    if at_least expected (Map.get (typed_id id) permissions)
    then ok tt
    else check_permission_list ids permissions expected

unfoldable pub get_parent_project_objects :
    List TypedId → ProxyCache → Result S3Error (List ProxyObject)
unfolding get_resource_cloned
get_parent_project_objects [] c = ok []
get_parent_project_objects (TypedId.project id ∷ ids) c = do
  (o, location) ← or_s3 (no_such_key "No such object") (get_resource_cloned id true c)
  os ← get_parent_project_objects ids c
  ok (o ∷ os)
get_parent_project_objects (TypedId.collection id ∷ ids) c = get_parent_project_objects ids c
get_parent_project_objects (TypedId.dataset id ∷ ids) c = get_parent_project_objects ids c
get_parent_project_objects (TypedId.object id ∷ ids) c = get_parent_project_objects ids c
get_parent_project_objects (TypedId.unknown id ∷ ids) c = get_parent_project_objects ids c

abbrev User : Type 0
User = AccessKeyPermissions × Texts

-- `split_once('/')`
unfoldable pub split_once : String → Option (String × String)
split_once key = elim (behind b'/' key) [ none ↦ none | some rest ↦ some (before b'/' key, rest) ]

module _ (h : Handler) (c : ProxyCache) (req : Request) where
  abbrev granted : ObjectsState → UserState → Option Texts → CheckAccessResult
  granted objects_state user_state headers = record {
    objects_state = objects_state;
    user_state = user_state;
    headers = headers;
  }

  -- The rules for the root.
  unfoldable pub root_rule : User → Result S3Error (Unit {0})
  root_rule (key, attrs) = do
    input ← or_s3 (malformed_acl "Rule has wrong context") (
        Root.build (
          Root.headers req.headers (
            Root.method req.method (
              Root.user_id (h.to_string key.user_id) (
                Root.permissions h.to_string key.permissions
                  (Root.attributes attrs (Root.new h.engine)))))))
    result ← or_s3 (access_denied "Forbidden by rule") (evaluate_root h.cel h.engine input)
    passed result

  unfoldable pub handle_root : Result S3Error CheckAccessResult
  handle_root = do
    user ← ok_or (extract_access_key_perms req.creds c) (access_denied "Missing access key")
    root_rule user
    ok (granted (regular no_states none) (user_state_of h.to_string user.0) none)

  abbrev describe : User → Hierarchy.ObjectRuleInputBuilder → Hierarchy.ObjectRuleInputBuilder
  describe (key, attrs) b =
      Hierarchy.permissions h.to_string key.permissions
        (Hierarchy.user_id (h.to_string key.user_id) (Hierarchy.attributes attrs b))

  abbrev describe_user :
      Option User → Hierarchy.ObjectRuleInputBuilder → Hierarchy.ObjectRuleInputBuilder
  describe_user none b = b
  describe_user (some user) b = describe user b

  -- The rules for objects, of a bucket or an object; the setters touch fields of their own.
  unfoldable pub object_rule : ResourceStates → Option User → Result S3Error (Unit {0})
  object_rule s user = do
    input ← or_s3 (malformed_acl "Rule has wrong context") (
        Hierarchy.build (
          describe_user user (
            Hierarchy.add_resource_states h.generated h.now s (
              Hierarchy.headers req.headers
                (Hierarchy.method req.method (Hierarchy.new h.engine))))))
    result ← or_s3 (access_denied "Forbidden by rule") (evaluate_object h.cel h.engine input)
    passed result

  abbrev cors_of : ProxyObject → Option Texts
  cors_of o = project_get_headers h.parse_cors req.method req.headers o

  abbrev is_get : HttpMethod → Bool
  is_get get = true
  is_get _ = false

  -- A bucket that is not there may be created, but not by a service account.
  abbrev missing_bucket : AccessKeyPermissions → Result S3Error (Option Texts)
  missing_bucket key =
      if is_get req.method
      then err (no_such_bucket "No such bucket")
      else if key.is_service_account
      then err (access_denied "Service account not allowed to create buckets")
      else ok none

  unfoldable pub bucket_headers :
      AccessKeyPermissions → ResourceStates → Option ProxyObject → Result S3Error (Option Texts)
  unfolding check_permissions
  bucket_headers key s none = missing_bucket key
  bucket_headers key s (some project) = do
    check_permissions key (permission_of_method req.method) (is_method_read req.method) s
    ok (cors_of project)

  unfoldable pub handle_bucket : String → Result S3Error CheckAccessResult
  handle_bucket bucket_name = do
    user ← ok_or (extract_access_key_perms req.creds c) (access_denied "No such user")
    s ← prefix_into_resource_states ((bucket_name, bucket_name) ∷ []) true c
    cors_headers ← bucket_headers user.0 s (get_project s)
    object_rule s (some user)
    ok (granted (regular s none) (user_state_of h.to_string user.0) cors_headers)

  -- Who asks, once the permissions are checked.
  unfoldable pub object_user : ResourceStates → Option User → Result S3Error UserState
  unfolding check_permissions require_object
  object_user s (some (key, attrs)) = do
    check_permissions key (permission_of_method req.method) (is_method_read req.method) s
    ok (user_state_of h.to_string key)
  object_user s none = do
    o ← require_object s
    if is_public o.data_class then ok anonymous else err (access_denied "Missing access key")

  abbrev location_of : Option ProxyObject → Option ObjectLocation
  location_of none = none
  location_of (some o) = get_location o.id c

  abbrev nothing_missing : ResourceStates → Result S3Error (Unit {0})
  nothing_missing s = if is_method_read req.method then disallow_missing s else ok tt

  unfoldable pub handle_path : String → Result S3Error CheckAccessResult
  handle_path path = do
    s ← prefix_into_resource_states (key_into_prefix path) false c
    nothing_missing s
    reject_partial_sync h.self_id s
    project ← require_project s
    let user = extract_access_key_perms req.creds c
    user_state ← object_user s user
    object_rule s user
    ok (granted (regular s (location_of (as_found s.object))) user_state (cors_of project))
