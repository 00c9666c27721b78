-- ===== src/DataProxy/Objects/Requests.antt =====
-- Resources between the gRPC interface and the proxy: the conversions of
-- components/data_proxy/src/structs.rs. The interface's records are generated code of a package; the
-- fields here are those that the conversions read or set. `from_str` and `to_string` read and print
-- an id.
use aos_server.Base.{
  ℕ, String, Bool, false, Option, none, some, List, [], ◌∷◌, Result, ok, err, ◌>>=◌, Error, message,
  ok_or, traverse, any, ◌==◌, if◌then◌else◌,
}
use aos_server.Enums.{ObjectType, ReplicationStatus}
use aos_server.Enums.Api.{ApiDataClass, Status, ResourceVariant, ApiReplicationStatus, EndpointSync}
use aos_server.ServerCache.{Ulid}
use aos_server.DataProxy.Objects.{
  TypedRelation, VersionVariant, has_version, is_version, ProxyKeyValue, Endpoint, ProxyObject,
}

pub data Direction : Type 0 where
  unspecified inbound outbound : Direction

pub data RelationVariant : Type 0 where
  belongs_to version unmatched : RelationVariant

pub record InternalRel : Type 0 where
  pub resource_id : String
  pub resource_variant : ResourceVariant
  pub defined_variant : RelationVariant
  pub direction : Direction

pub data Relation : Type 0 where
  external : Relation
  internal : InternalRel → Relation

pub record DataEndpoint : Type 0 where
  pub id : String
  pub variant : Option EndpointSync
  pub status : ApiReplicationStatus

-- `Project`, `Collection`, `Dataset` and `Object` of the interface share these fields.
-- `data_license` is `default_data_license_tag`, or `data_license_tag` of an object.
pub record GrpcResource : Type 0 where
  pub id : String
  pub name : String
  pub title : String
  pub key_values : List ProxyKeyValue
  pub relations : List (Option Relation)
  pub status : Status
  pub data_class : ApiDataClass
  pub metadata_license : String
  pub data_license : String
  pub dynamic : Bool
  pub endpoints : List DataEndpoint
  pub created_at : Option ℕ
  pub created_by : String

-- What the loop over the relations has collected.
pub record Related : Type 0 where
  pub inbound : List TypedRelation
  pub outbound : List TypedRelation
  pub versions : List VersionVariant

-- `into_option`
abbrev pub into_option {ℓ} : {A : Type ℓ} → List A → Option (List A)
into_option [] = none
into_option (x ∷ xs) = some (x ∷ xs)

abbrev sync_status : ApiReplicationStatus → Option ReplicationStatus
sync_status ApiReplicationStatus.unspecified = none
sync_status ApiReplicationStatus.waiting = some ReplicationStatus.waiting
sync_status ApiReplicationStatus.running = some ReplicationStatus.running
sync_status ApiReplicationStatus.finished = some ReplicationStatus.finished
sync_status ApiReplicationStatus.error = some ReplicationStatus.error

abbrev typed_as : ResourceVariant → Ulid → Result Error TypedRelation
typed_as ResourceVariant.unspecified id = err (message "Invalid target")
typed_as ResourceVariant.project id = ok (TypedRelation.project id)
typed_as ResourceVariant.collection id = ok (TypedRelation.collection id)
typed_as ResourceVariant.dataset id = ok (TypedRelation.dataset id)
typed_as ResourceVariant.object id = ok (TypedRelation.object id)

abbrev same_relation : TypedRelation → TypedRelation → Bool
same_relation (TypedRelation.project i) (TypedRelation.project j) = i == j
same_relation (TypedRelation.collection i) (TypedRelation.collection j) = i == j
same_relation (TypedRelation.dataset i) (TypedRelation.dataset j) = i == j
same_relation (TypedRelation.object i) (TypedRelation.object j) = i == j
same_relation _ _ = false

abbrev same_version : VersionVariant → VersionVariant → Bool
same_version (has_version i) (has_version j) = i == j
same_version (is_version i) (is_version j) = i == j
same_version _ _ = false

-- `insert` into a set, which takes an element once.
unfoldable pub insert_in : {A : Type 0} → (A → A → Bool) → A → List A → List A
insert_in same x xs = if any (same x) xs then xs else x ∷ xs

module _ (from_str : String → Result Error Ulid) where
  unfoldable pub typed_relation_of : Relation → Result Error TypedRelation
  typed_relation_of external = err (message "Invalid External rel")
  typed_relation_of (internal int) = do
    id ← from_str int.resource_id
    typed_as int.resource_variant id

  -- One round of the loop.
  unfoldable pub note_relation :
      RelationVariant → Direction → InternalRel → Related → Result Error Related
  note_relation belongs_to inbound int seen = do
    relation ← typed_relation_of (internal int)
    ok (record seen { inbound = insert_in same_relation relation seen.inbound })
  note_relation belongs_to outbound int seen = do
    relation ← typed_relation_of (internal int)
    ok (record seen { outbound = insert_in same_relation relation seen.outbound })
  note_relation belongs_to unspecified int seen = ok seen
  note_relation version inbound int seen = do
    id ← from_str int.resource_id
    ok (record seen { versions = insert_in same_version (has_version id) seen.versions })
  note_relation version outbound int seen = do
    id ← from_str int.resource_id
    ok (record seen { versions = insert_in same_version (is_version id) seen.versions })
  note_relation version unspecified int seen = ok seen
  note_relation unmatched direction int seen = ok seen

  unfoldable pub note_relations : List (Option Relation) → Related → Result Error Related
  note_relations [] seen = ok seen
  note_relations (none ∷ rels) seen = note_relations rels seen
  note_relations (some external ∷ rels) seen = note_relations rels seen
  note_relations (some (internal int) ∷ rels) seen = do
    seen' ← note_relation int.defined_variant int.direction int seen
    note_relations rels seen'

  unfoldable pub endpoint_of : DataEndpoint → Result Error Endpoint
  endpoint_of ep = do
    id ← from_str ep.id
    variant ← ok_or ep.variant (message "No endpoint sync variant found")
    ok (record { id = id; variant = variant; status = sync_status ep.status })

  -- The four conversions differ in the type they set.
  unfoldable pub object_of : ObjectType → GrpcResource → Result Error ProxyObject
  object_of object_type value = do
    rels ← note_relations value.relations (record { inbound = []; outbound = []; versions = [] })
    id ← from_str value.id
    endpoints ← traverse endpoint_of value.endpoints
    created_by ← from_str value.created_by
    ok record {
      id = id;
      name = value.name;
      title = value.title;
      key_values = value.key_values;
      object_status = value.status;
      data_class = value.data_class;
      object_type = object_type;
      hashes = [];
      metadata_license = value.metadata_license;
      data_license = value.data_license;
      dynamic = value.dynamic;
      children = into_option rels.outbound;
      parents = into_option rels.inbound;
      versions = into_option rels.versions;
      synced = false;
      endpoints = endpoints;
      created_at = value.created_at;
      created_by = some created_by;
    }

module _ (from_str : String → Result Error Ulid) where
  unfoldable pub project_object : GrpcResource → Result Error ProxyObject
  unfolding object_of
  project_object = object_of from_str ObjectType.project

  unfoldable pub collection_object : GrpcResource → Result Error ProxyObject
  unfolding object_of
  collection_object = object_of from_str ObjectType.collection

  unfoldable pub dataset_object : GrpcResource → Result Error ProxyObject
  unfolding object_of
  dataset_object = object_of from_str ObjectType.dataset

  unfoldable pub data_object : GrpcResource → Result Error ProxyObject
  unfolding object_of
  data_object = object_of from_str ObjectType.object
