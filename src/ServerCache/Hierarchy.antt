-- ===== src/ServerCache/Hierarchy.antt =====
-- `Cache::get_hierarchy`, with components/server/src/utils/cache_utils.rs. Ids stand for the strings
-- that they are printed to.
pub mod Children
use aos_server.Base.{
  Option, none, some, List, [], ◌∷◌, Bool, true, false, Result, ok, err, Error, message,
  if◌then◌else◌,
}
use aos_server.Base.Map
use aos_server.Enums.{ObjectType}
use aos_server.ServerCache.{Ulid, InternalRelation, ObjectWithRelations, Cache}
use aos_server.ServerCache.Objects.{get_object}

pub record DatasetRelations : Type 0 where
  pub origin : Ulid
  pub object_children : List Ulid

pub record CollectionRelations : Type 0 where
  pub origin : Ulid
  pub dataset_children : List DatasetRelations
  pub object_children : List Ulid

pub record ProjectRelations : Type 0 where
  pub origin : Ulid
  pub collection_children : List CollectionRelations
  pub dataset_children : List DatasetRelations
  pub object_children : List Ulid

pub data Graph : Type 0 where
  project : ProjectRelations → Graph
  collection : CollectionRelations → Graph
  dataset : DatasetRelations → Graph

abbrev pub targets_type : ObjectType → InternalRelation → Bool
targets_type ObjectType.project r = elim (r.target_type) [ ObjectType.project ↦ true | _ ↦ false ]
targets_type ObjectType.collection r = elim (r.target_type) [
  | ObjectType.collection ↦ true
  | _ ↦ false
]
targets_type ObjectType.dataset r = elim (r.target_type) [ ObjectType.dataset ↦ true | _ ↦ false ]
targets_type ObjectType.object r = elim (r.target_type) [ ObjectType.object ↦ true | _ ↦ false ]

abbrev pub object_targets : List InternalRelation → List Ulid
object_targets [] = []
object_targets (r ∷ rs) =
    if targets_type ObjectType.object r then r.target_pid ∷ object_targets rs else object_targets rs

unfoldable pub get_object_children : ObjectWithRelations → List Ulid
get_object_children input = object_targets (Map.values input.outbound_belongs_to)

unfoldable pub get_dataset_relations : ObjectWithRelations → DatasetRelations
get_dataset_relations input = record {
  origin = input.object.id;
  object_children = get_object_children input;
}

-- A loop over the relations to targets of one type: what `f` gives for the cached objects.
unfoldable pub each_of_type {ℓ} :
    {A : Type ℓ} → ObjectType → (ObjectWithRelations → A) → Cache → List InternalRelation → List A
each_of_type t f cache [] = []
each_of_type t f cache (r ∷ rs) =
    let rest = each_of_type t f cache rs in
    if targets_type t r
    then elim (get_object r.origin_pid cache) [ none ↦ rest | some found ↦ f found ∷ rest ]
    else rest

unfoldable pub get_collection_children : ObjectWithRelations → Cache → CollectionRelations
get_collection_children input cache = record {
  origin = input.object.id;
  dataset_children =
      each_of_type ObjectType.dataset get_dataset_relations cache
        (Map.values input.outbound_belongs_to);
  object_children = get_object_children input;
}

unfoldable pub get_project_children : ObjectWithRelations → Cache → ProjectRelations
get_project_children input cache = record {
  origin = input.object.id;
  collection_children =
      each_of_type ObjectType.collection (λ col. get_collection_children col cache) cache
        (Map.values input.outbound_belongs_to);
  dataset_children =
      each_of_type ObjectType.dataset get_dataset_relations cache
        (Map.values input.outbound_belongs_to);
  object_children = get_object_children input;
}

abbrev pub graph_of : ObjectWithRelations → Cache → ObjectType → Result Error Graph
graph_of init c ObjectType.project = ok (Graph.project (get_project_children init c))
graph_of init c ObjectType.collection = ok (Graph.collection (get_collection_children init c))
graph_of init c ObjectType.dataset = ok (Graph.dataset (get_dataset_relations init))
graph_of init c ObjectType.object = err (message "Objects do not have a hierarchy")

unfoldable pub get_hierarchy : Ulid → Cache → Result Error Graph
get_hierarchy id c = elim (get_object id c) [
  | none ↦ err (message "No resource found")
  | some init ↦ graph_of init c init.object.object_type
]
