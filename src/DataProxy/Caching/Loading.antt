-- ===== src/DataProxy/Caching/Loading.antt =====
-- How the data proxy's cache is filled from its database: `sync_with_persistence` of
-- components/data_proxy/src/caching/cache.rs, with `sort_objects` of caching/grpc_query_handler.rs;
-- and the remaining queries of the cache. What the database answers is a record of outcomes. An early
-- return leaves what was entered so far.
pub mod Ends
use Prim.Native.String.{◌++◌ as ◌<>◌}
use aos_server.Base.{
  ℕ, zero, suc, String, Bool, true, false, Option, none, some, List, [], ◌∷◌, ◌++◌, leb, map,
  Result, ok, err, ◌>>=◌, Error, message, ok_or, if◌then◌else◌,
}
use aos_server.Base.Map
use aos_server.Base.Map.{Map}
use aos_server.Base.Texts
use aos_server.Base.Texts.{lookup}
use aos_server.Enums.{DbPermissionLevel, ObjectType}
use aos_server.ServerCache.{Ulid}
use aos_server.DataProxy.Format.{ObjectLocation}
use aos_server.DataProxy.Objects.{ProxyObject, TypedRelation, relation_id, TypedId}
use aos_server.DataProxy.States.{AccessKeyPermissions, Slice}
use aos_server.DataProxy.Caching.{ProxyCache, ProxyUser, PubKey, UploadPart}
use aos_server.DataProxy.Caching.Graph.{get_parents, Named}
use aos_server.DataProxy.Caching.Keys.{Stage}
use aos_server.DataProxy.Caching.Secrets.{sync_pubkeys}
use aos_server.DataProxy.Caching.Paths.{is_project}

-- A location stands with its `is_temporary`.
pub record Rows : Type 0 where
  pub access_keys : Result Error (List AccessKeyPermissions)
  pub users : Result Error (List ProxyUser)
  pub pubkeys : Result Error (List PubKey)
  pub objects : Result Error (List ProxyObject)
  pub parts : Result Error (List UploadPart)
  pub binding : Ulid → Result Error (Option Ulid)
  pub location : Ulid → Result Error (ObjectLocation × Bool)

abbrev or_nil {ℓ} : {A : Type ℓ} → Option (List A) → List A
or_nil none = []
or_nil (some xs) = xs

-- The names of the access keys of each user.
unfoldable pub user_keys : List AccessKeyPermissions → Map (List String) → Map (List String)
user_keys [] keys = keys
user_keys (k ∷ rest) keys =
    user_keys rest
      (Map.insert k.user_id (or_nil (Map.get k.user_id keys) ++ k.access_key ∷ []) keys)

unfoldable pub enter_keys : List AccessKeyPermissions → ProxyCache → ProxyCache
enter_keys [] c = c
enter_keys (k ∷ rest) c =
    enter_keys rest (record c { access_keys = Texts.put k.access_key k c.access_keys })

unfoldable pub enter_users : Map (List String) → List ProxyUser → ProxyCache → ProxyCache
enter_users keys [] c = c
enter_users keys (u ∷ rest) c =
    enter_users keys rest
      (record c { users = Map.insert u.user_id (u, or_nil (Map.get u.user_id keys)) c.users })

unfoldable pub parts_by_upload :
    List UploadPart → List (String × List UploadPart) → List (String × List UploadPart)
parts_by_upload [] uploads = uploads
parts_by_upload (p ∷ rest) uploads =
    parts_by_upload rest
      (Texts.put p.upload_id (or_nil (lookup p.upload_id uploads) ++ p ∷ []) uploads)

unfoldable pub enter_uploads : List (String × List UploadPart) → ProxyCache → ProxyCache
enter_uploads [] c = c
enter_uploads ((upload_id, parts) ∷ rest) c =
    enter_uploads rest (record c { multi_parts = Texts.put upload_id parts c.multi_parts })

-- `sort_objects`: projects first, then collections, datasets and objects.
abbrev rank : ObjectType → ℕ
rank ObjectType.project = 0
rank ObjectType.collection = 1
rank ObjectType.dataset = 2
rank ObjectType.object = 3

unfoldable pub insert_sorted : ProxyObject → List ProxyObject → List ProxyObject
insert_sorted o [] = o ∷ []
insert_sorted o (p ∷ rest) =
    let later = insert_sorted o rest in
    if leb (rank o.object_type) (rank p.object_type) then o ∷ p ∷ rest else p ∷ later

unfoldable pub sort_objects : List ProxyObject → List ProxyObject
sort_objects [] = []
sort_objects (o ∷ rest) = insert_sorted o (sort_objects rest)

-- The paths of the objects entered so far, and the objects whose location is temporary.
pub record Loaded : Type 0 where
  pub cache : ProxyCache
  pub prefixes : Map (List String)
  pub temporary : List (ProxyObject × ObjectLocation)

abbrev bound_location : Rows → Option Ulid → Result Error (Option (ObjectLocation × Bool))
bound_location rows none = ok none
bound_location rows (some location_id) = rows.location location_id >>= λ l. ok (some l)

abbrev is_object : ObjectType → Bool
is_object ObjectType.object = true
is_object _ = false

unfoldable pub location_row : Rows → ProxyObject → Result Error (Option (ObjectLocation × Bool))
location_row rows o =
    if is_object o.object_type
    then (rows.binding o.id >>= λ bound. bound_location rows bound)
    else ok none

abbrev without_flag : Option (ObjectLocation × Bool) → Option ObjectLocation
without_flag none = none
without_flag (some (location, temporary)) = some location

abbrev if_temporary :
    ProxyObject
    → Option (ObjectLocation × Bool)
    → List (ProxyObject × ObjectLocation)
    → List (ProxyObject × ObjectLocation)
if_temporary o none found = found
if_temporary o (some (location, false)) found = found
if_temporary o (some (location, true)) found = found ++ (o, location) ∷ []

unfoldable pub enter_each : List String → Ulid → List (String × Ulid) → List (String × Ulid)
enter_each [] id paths = paths
enter_each (path ∷ rest) id paths = enter_each rest id (Texts.put path id paths)

abbrev at_paths : ProxyObject → List String → Loaded → Loaded
at_paths o paths l = record l {
  cache = record l.cache { paths = enter_each paths o.id l.cache.paths };
  prefixes = Map.insert o.id paths l.prefixes;
}

-- The paths of an object below one parent after the other.
unfoldable pub below_parents :
    ProxyObject → List TypedRelation → Loaded → Result Error (Unit {0}) × Loaded
unfolding enter_each relation_id
below_parents o [] l = (ok tt, l)
below_parents o (parent ∷ parents) l = elim (Map.get (relation_id parent) l.prefixes) [
  | none ↦ (err (message "Expected parent for non root object"), l)
  | some above ↦ below_parents o parents (at_paths o (map (λ p. p <> "/" <> o.name) above) l)
]

unfoldable pub enter_below :
    ProxyObject → Option (List TypedRelation) → Loaded → Result Error (Unit {0}) × Loaded
unfolding below_parents
enter_below o none l = (ok tt, at_paths o (o.name ∷ []) l)
enter_below o (some []) l = (ok tt, at_paths o (o.name ∷ []) l)
enter_below o (some (p ∷ ps)) l = below_parents o (p ∷ ps) l

abbrev entered_row : ProxyObject → Option (ObjectLocation × Bool) → Loaded → Loaded
entered_row o row l = record l {
  cache = record l.cache { resources = Map.insert o.id (o, without_flag row) l.cache.resources };
  temporary = if_temporary o row l.temporary;
}

unfoldable pub load_objects : Rows → List ProxyObject → Loaded → Result Error (Unit {0}) × Loaded
unfolding location_row enter_below
load_objects rows [] l = (ok tt, l)
load_objects rows (o ∷ rest) l = elim (location_row rows o) [
  | err e ↦ (err e, l)
  | ok row ↦
      let (entered, l') = enter_below o o.parents (entered_row o row l) in
      elim entered [ err e ↦ (err e, l') | ok done ↦ load_objects rows rest l' ]
]

abbrev Filled : Type 0
Filled = Result Error (List (ProxyObject × ObjectLocation)) × ProxyCache

abbrev with_rows {ℓ} : {A : Type ℓ} → Result Error A → ProxyCache → (A → Filled) → Filled
with_rows (err e) c next = (err e, c)
with_rows (ok rows) c next = next rows

abbrev filled : Result Error (Unit {0}) × Loaded → Filled
filled (err e, l) = (err e, l.cache)
filled (ok done, l) = (ok l.temporary, l.cache)

abbrev with_stage : Stage → (ProxyCache → Filled) → Filled
with_stage (err e, c) next = (err e, c)
with_stage (ok done, c) next = next c

unfoldable pub sync_with_persistence :
    (String → Result Error (Unit {0})) → Rows → ProxyCache → Filled
unfolding user_keys enter_keys enter_users parts_by_upload enter_uploads sort_objects load_objects
sync_with_persistence decodable rows c = with_rows rows.access_keys c (λ access_keys.
    let keyed = enter_keys access_keys c in
    with_rows rows.users keyed (λ users.
      let peopled = enter_users (user_keys access_keys []) users keyed in
      with_rows rows.pubkeys peopled (λ pubkeys.
        with_stage (sync_pubkeys decodable pubkeys peopled) (λ c'.
          with_rows rows.objects c' (λ objects. with_rows rows.parts c' (λ parts. filled (
            load_objects rows (sort_objects objects) record {
              cache = enter_uploads (parts_by_upload parts []) c';
              prefixes = [];
              temporary = [];
            })))))))

unfoldable pub get_resource_name : Ulid → ProxyCache → Option String
get_resource_name id c = elim (Map.get id c.resources) [
  | none ↦ none
  | some (o, location) ↦ some o.name
]

unfoldable pub get_location_cloned : Ulid → ProxyCache → Option ObjectLocation
get_location_cloned id c = elim (Map.get id c.resources) [
  | none ↦ none
  | some (o, location) ↦ location
]

-- One step of `get_single_parent` to the first parent.
abbrev first_parent : List Named → Slice → Ulid → Result Error (Ulid × Slice)
first_parent [] result id = ok (id, result)
first_parent ((name, TypedId.dataset p) ∷ rest) result id =
    ok (p, record result { dataset = some (p, name) })
first_parent ((name, TypedId.collection p) ∷ rest) result id =
    ok (p, record result { collection = some (p, name) })
first_parent ((name, TypedId.project p) ∷ rest) result id =
    ok (p, record result { project = some (p, name) })
first_parent ((name, TypedId.object p) ∷ rest) result id = err (message "Unexpected parent type")
first_parent ((name, TypedId.unknown p) ∷ rest) result id = err (message "Unexpected parent type")

-- The loop, on fuel.
unfoldable pub climb_first : ProxyCache → ℕ → Ulid → Slice → Option (Result Error Slice)
unfolding get_parents
climb_first c zero id result = none
climb_first c (suc fuel) id result = elim (get_parents id c) [
  | none ↦ some (ok result)
  | some parents ↦ elim (first_parent parents result id) [
    | err e ↦ some (err e)
    | ok (next, result') ↦ climb_first c fuel next result'
  ]
]

unfoldable pub get_single_parent : ℕ → Ulid → ProxyCache → Option (Result Error Slice)
unfolding climb_first get_resource_name
get_single_parent fuel id c = elim (get_resource_name id c) [
  | none ↦ some (err (message "Resource not found"))
  | some name ↦
      climb_first c fuel id
        record { project = none; collection = none; dataset = none; object = some (id, name) }
]

unfoldable pub projects_among : Map DbPermissionLevel → ProxyCache → List ProxyObject
projects_among [] c = []
projects_among ((id, level) ∷ rest) c =
    let later = projects_among rest c in
    elim (Map.get id c.resources) [
      | none ↦ later
      | some (o, location) ↦ if is_project o.object_type then o ∷ later else later
    ]

unfoldable pub get_personal_projects : Ulid → ProxyCache → Result Error (List ProxyObject)
unfolding projects_among
get_personal_projects user_id c = do
  (user, keys) ← ok_or (Map.get user_id c.users) (message "User not found")
  ok (projects_among user.personal_permissions c)
