-- ===== src/DataProxy/Objects/Creation.antt =====
-- The requests that create resources, as they are made from the proxy's resources:
-- components/data_proxy/src/structs.rs.
use aos_server.Base.{String, Option, none, some, List, [], ◌∷◌, Result, ok, err, Error, message}
use aos_server.Enums.Api.{ApiDataClass}
use aos_server.ServerCache.{Ulid}
use aos_server.DataProxy.Objects.{TypedRelation, ProxyObject}

-- The parent in a request that creates a resource.
pub data Parent : Type 0 where
  project_id collection_id dataset_id : String → Parent

module _ (to_string : Ulid → String) where
  unfoldable pub collection_parent : TypedRelation → Result Error Parent
  collection_parent (TypedRelation.project i) = ok (project_id (to_string i))
  collection_parent _ = err (message "Invalid")

  unfoldable pub dataset_parent : TypedRelation → Result Error Parent
  dataset_parent (TypedRelation.project i) = ok (project_id (to_string i))
  dataset_parent (TypedRelation.collection i) = ok (collection_id (to_string i))
  dataset_parent _ = err (message "Invalid")

  unfoldable pub object_parent : TypedRelation → Result Error Parent
  object_parent (TypedRelation.project i) = ok (project_id (to_string i))
  object_parent (TypedRelation.collection i) = ok (collection_id (to_string i))
  object_parent (TypedRelation.dataset i) = ok (dataset_id (to_string i))
  object_parent (TypedRelation.object i) = err (message "Invalid ")

-- The requests that create a collection, a dataset or an object; what they set to a constant is left
-- out. The licences of an object are no options in the interface.
pub record CreateRequest : Type 0 where
  pub name : String
  pub title : String
  pub data_class : ApiDataClass
  pub parent : Option Parent
  pub metadata_license : String
  pub data_license : String

abbrev to_option : Result Error Parent → Option Parent
to_option (ok parent) = some parent
to_option (err e) = none

-- The first parent in the order of the set, if it may be the parent.
abbrev parent_in :
    (TypedRelation → Result Error Parent) → Option (List TypedRelation) → Option Parent
parent_in convert none = none
parent_in convert (some []) = none
parent_in convert (some (p ∷ ps)) = to_option (convert p)

unfoldable pub create_request : (TypedRelation → Result Error Parent) → ProxyObject → CreateRequest
create_request convert value = record {
  name = value.name;
  title = value.title;
  data_class = value.data_class;
  parent = parent_in convert value.parents;
  metadata_license = value.metadata_license;
  data_license = value.data_license;
}

-- The requests that create a project (which has no parent) and that update an object.
pub record CreateProjectRequest : Type 0 where
  pub name : String
  pub data_class : ApiDataClass
  pub metadata_license : String
  pub data_license : String

unfoldable pub project_request : ProxyObject → CreateProjectRequest
project_request value = record {
  name = value.name;
  data_class = value.data_class;
  metadata_license = value.metadata_license;
  data_license = value.data_license;
}

pub record UpdateObjectRequest : Type 0 where
  pub object_id : String
  pub data_class : ApiDataClass
  pub metadata_license : Option String
  pub data_license : Option String

unfoldable pub update_request : (Ulid → String) → ProxyObject → UpdateObjectRequest
update_request to_string value = record {
  object_id = to_string value.id;
  data_class = value.data_class;
  metadata_license = some value.metadata_license;
  data_license = some value.data_license;
}
