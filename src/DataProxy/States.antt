-- ===== src/DataProxy/States.antt =====
-- What a request's path names: `ResourceState`, `ResourceStates` and `NewOrExistingObject` of
-- components/data_proxy/src/structs.rs. The array of four states is a record: project, collection,
-- dataset and object are its indices 0 to 3. Generated ids and the time are arguments.
pub mod Plans
use aos_server.Base.{
  ℕ, zero, suc, String, Bool, true, false, not, ◌&&◌, ◌||◌, Option, none, some, List, [], ◌∷◌, any,
  Result, ok, err, ◌>>=◌, ◌>>◌, Error, message, ok_or, is_some, if◌then◌else◌,
}
use aos_server.Base.Map
use aos_server.Base.Map.{Map}
use aos_server.Enums.{DbPermissionLevel, ObjectType, perm_ge}
use aos_server.Enums.Api.{ApiDataClass, ResourceVariant}
use aos_server.ServerCache.{Ulid}
use aos_server.DataProxy.Objects.{
  S3Error, no_such_key, access_denied, TypedRelation, ProxyObject, initialize_now,
  object_type_of_variant, fail_partial_sync,
}

pub data ResourceState : Type 0 where
  found : ProxyObject → ResourceState
  missing : String → ResourceVariant → ResourceState
  absent : ResourceState

unfoldable pub is_missing : ResourceState → Bool
is_missing (missing name variant) = true
is_missing _ = false

-- `as_ref`
unfoldable pub as_found : ResourceState → Option ProxyObject
as_found (found o) = some o
as_found _ = none

pub record ResourceStates : Type 0 where
  pub project : ResourceState
  pub collection : ResourceState
  pub dataset : ResourceState
  pub object : ResourceState

abbrev pub no_states : ResourceStates
no_states = record { project = absent; collection = absent; dataset = absent; object = absent }

-- `self.objects.iter().rev()`
abbrev pub bottom_up : ResourceStates → List ResourceState
bottom_up s = s.object ∷ s.dataset ∷ s.collection ∷ s.project ∷ []

-- The patterns of `validate`: nothing missing below the project is followed by something found.
abbrev pub acceptable : Bool → Bool → Bool → Bool → Bool
acceptable false true true true = true
acceptable false false true true = true
acceptable false false false true = true
acceptable false false false false = true
acceptable _ _ _ _ = false

unfoldable pub validate : Bool → ResourceStates → Result Error (Unit {0})
unfolding is_missing
validate allow_create_project s =
    let project =
      if allow_create_project && is_missing s.project then false else is_missing s.project in
    if acceptable project (is_missing s.collection) (is_missing s.dataset) (is_missing s.object)
    then ok tt
    else err (message "Invalid resource state")

unfoldable pub disallow_missing : ResourceStates → Result S3Error (Unit {0})
unfolding is_missing
disallow_missing s =
    if any is_missing (bottom_up s) then err (no_such_key "Resource not found") else ok tt

-- `set_missing`: which state a path's part stands for, by its index and the number of parts.
unfoldable pub set_missing : ℕ → ℕ → String → ResourceStates → Result Error ResourceStates
set_missing zero len name s = ok (record s { project = missing name ResourceVariant.project })
set_missing (suc zero) (suc (suc zero)) name s =
    ok (record s { object = missing name ResourceVariant.object })
set_missing (suc (suc zero)) (suc (suc (suc zero))) name s =
    ok (record s { object = missing name ResourceVariant.object })
set_missing (suc (suc (suc zero))) (suc (suc (suc (suc zero)))) name s =
    ok (record s { object = missing name ResourceVariant.object })
set_missing (suc zero) (suc (suc (suc (suc zero)))) name s =
    ok (record s { collection = missing name ResourceVariant.collection })
set_missing (suc zero) (suc (suc (suc zero))) name s =
    ok (record s { dataset = missing name ResourceVariant.dataset })
set_missing (suc (suc zero)) (suc (suc (suc (suc zero)))) name s =
    ok (record s { dataset = missing name ResourceVariant.dataset })
set_missing idx len name s = err (message "Invalid index")

-- `set_project`, `set_collection`, `set_dataset` and `set_object`, chosen by the object's type.
unfoldable pub set_found : ProxyObject → ResourceStates → ResourceStates
set_found o s = elim o.object_type [
  | ObjectType.project ↦ record s { project = found o }
  | ObjectType.collection ↦ record s { collection = found o }
  | ObjectType.dataset ↦ record s { dataset = found o }
  | ObjectType.object ↦ record s { object = found o }
]

unfoldable pub get_project : ResourceStates → Option ProxyObject
unfolding as_found
get_project s = as_found s.project

unfoldable pub require_project : ResourceStates → Result S3Error ProxyObject
unfolding as_found
require_project s = ok_or (as_found s.project) (no_such_key "Project not found")

unfoldable pub require_object : ResourceStates → Result S3Error ProxyObject
unfolding as_found
require_object s = ok_or (as_found s.object) (no_such_key "Object not found")

-- An access key with what it may do.
pub record AccessKeyPermissions : Type 0 where
  pub access_key : String
  pub user_id : Ulid
  pub secret : String
  pub is_service_account : Bool
  pub permissions : Map DbPermissionLevel

abbrev pub is_public : ApiDataClass → Bool
is_public ApiDataClass.public = true
is_public _ = false

abbrev pub at_least : DbPermissionLevel → Option DbPermissionLevel → Bool
at_least perm none = false
at_least perm (some has) = perm_ge has perm

module _ (key_info : AccessKeyPermissions) (perm : DbPermissionLevel) (allow_public : Bool) where
  unfoldable pub check_states : List ResourceState → Result S3Error (Unit {0})
  check_states [] = err (access_denied "Access Denied")
  check_states (found o ∷ rest) =
      if allow_public && is_public o.data_class
      then ok tt
      else if at_least perm (Map.get o.id key_info.permissions)
      then ok tt
      else check_states rest
  check_states (missing name variant ∷ rest) = check_states rest
  check_states (absent ∷ rest) = check_states rest

unfoldable pub check_permissions :
    AccessKeyPermissions → DbPermissionLevel → Bool → ResourceStates → Result S3Error (Unit {0})
unfolding check_states
check_permissions key_info perm allow_public s =
    check_states key_info perm allow_public (bottom_up s)

-- Only the last resource that was found is looked at.
unfoldable pub partial_states : Ulid → List ResourceState → Result S3Error (Unit {0})
partial_states ep_id [] = ok tt
partial_states ep_id (found o ∷ rest) = fail_partial_sync ep_id o
partial_states ep_id (missing name variant ∷ rest) = partial_states ep_id rest
partial_states ep_id (absent ∷ rest) = partial_states ep_id rest

unfoldable pub reject_partial_sync : Ulid → ResourceStates → Result S3Error (Unit {0})
unfolding partial_states
reject_partial_sync ep_id s = partial_states ep_id (bottom_up s)

abbrev pub tag : Option ProxyObject → Option (Ulid × String)
tag none = none
tag (some o) = some (o.id, o.name)

pub record Slice : Type 0 where
  pub project : Option (Ulid × String)
  pub collection : Option (Ulid × String)
  pub dataset : Option (Ulid × String)
  pub object : Option (Ulid × String)

unfoldable pub as_slice : ResourceStates → Slice
unfolding as_found
as_slice s = record {
  project = tag (as_found s.project);
  collection = tag (as_found s.collection);
  dataset = tag (as_found s.dataset);
  object = tag (as_found s.object);
}

abbrev initialized :
    Ulid → ℕ → Option TypedRelation → String → Result Error ObjectType → Option ProxyObject
initialized generated now parent name (ok object_type) =
    some (initialize_now generated now name object_type parent)
initialized generated now parent name (err e) = none

-- `get_missing_collection`, `get_missing_dataset` and `get_missing_object`
unfoldable pub get_missing : Ulid → ℕ → Option TypedRelation → ResourceState → Option ProxyObject
unfolding object_type_of_variant
get_missing generated now parent (missing name variant) =
    initialized generated now parent name (object_type_of_variant variant)
get_missing generated now parent _ = none

-- `get_project_or_missing`, `get_collection_or_missing`, `get_dataset_or_missing` and
-- `get_object_or_missing`, by the type that a missing resource is given.
unfoldable pub found_or_missing : Ulid → ℕ → ObjectType → ResourceState → Option ProxyObject
found_or_missing generated now object_type (found o) = some o
found_or_missing generated now object_type (missing name variant) =
    some (initialize_now generated now name object_type none)
found_or_missing generated now object_type absent = none

pub data NewOrExistingObject : Type 0 where
  missing existing : ProxyObject → NewOrExistingObject
  absent : NewOrExistingObject

abbrev pub named : NewOrExistingObject → Option ProxyObject
named (NewOrExistingObject.missing o) = some o
named (NewOrExistingObject.existing o) = some o
named NewOrExistingObject.absent = none

-- A state as a new or an existing resource; a missing one gets the parent.
unfoldable pub new_or_existing :
    Ulid → ℕ → TypedRelation → S3Error → ResourceState → Result S3Error NewOrExistingObject
unfolding get_missing
new_or_existing generated now parent e ResourceState.absent = ok NewOrExistingObject.absent
new_or_existing generated now parent e (found o) = ok (NewOrExistingObject.existing o)
new_or_existing generated now parent e (ResourceState.missing name variant) = do
  o ← ok_or (get_missing generated now (some parent) (ResourceState.missing name variant)) e
  ok (NewOrExistingObject.missing o)

pub record Planned : Type 0 where
  pub project : NewOrExistingObject
  pub collection : NewOrExistingObject
  pub dataset : NewOrExistingObject
  pub object : NewOrExistingObject
  pub tags : Slice

abbrev pub under : (Ulid → TypedRelation) → Option ProxyObject → TypedRelation → TypedRelation
under relation none above = above
under relation (some o) above = relation o.id

-- The generated ids of a collection, a dataset and an object.
pub record Generated : Type 0 where
  pub collection : Ulid
  pub dataset : Ulid
  pub object : Ulid

unfoldable pub to_new_or_existing : Generated → ℕ → ResourceStates → Result S3Error Planned
unfolding require_project new_or_existing
to_new_or_existing ids now s = do
  project ← require_project s
  let above_collection = TypedRelation.project project.id
  collection ←
      new_or_existing ids.collection now above_collection (no_such_key "Collection not found")
        s.collection
  let above_dataset = under TypedRelation.collection (named collection) above_collection
  dataset ←
      new_or_existing ids.dataset now above_dataset (no_such_key "Dataset not found") s.dataset
  let above_object = under TypedRelation.dataset (named dataset) above_dataset
  object ← new_or_existing ids.object now above_object (no_such_key "Object not found") s.object
  ok record {
    project = NewOrExistingObject.existing project;
    collection = collection;
    dataset = dataset;
    object = object;
    tags = record {
      project = some (project.id, project.name);
      collection = tag (named collection);
      dataset = tag (named dataset);
      object = tag (named object);
    };
  }
