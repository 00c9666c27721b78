-- ===== src/Enums/Api.antt =====
-- The conversions between the database enums and those of the gRPC interface, from
-- components/server/src/utils/conversions/enums.rs. The interface's enums are generated code of a
-- package; the constructors here are those that the conversions match on.
use aos_server.Base.{ℕ, String, Bool, Option, Result, ok, err, ◌>>=◌, Error, message}
use aos_server.Enums.{
  ObjectStatus, DataClass, ObjectMapping, ObjectType, DbPermissionLevel, KeyValueVariant,
  PersistentNotificationVariant, ReplicationStatus, ReplicationType,
}

pub data ApiDataClass : Type 0 where
  unspecified public private workspace confidential : ApiDataClass

pub data Status : Type 0 where
  unspecified initializing validating available unavailable error deleted : Status

pub data ResourceVariant : Type 0 where
  unspecified project collection dataset object : ResourceVariant

pub data PermissionLevel : Type 0 where
  unspecified none read append write admin : PermissionLevel

pub data PersonalNotificationVariant : Type 0 where
  unspecified access_requested permission_granted permission_revoked permission_updated
        announcement :
      PersonalNotificationVariant

pub data ApiReplicationStatus : Type 0 where
  unspecified waiting running finished error : ApiReplicationStatus

-- `data_endpoint::Variant`
pub data EndpointSync : Type 0 where
  full_sync : EndpointSync
  partial_sync : Bool → EndpointSync

pub data ResourceId : Type 0 where
  project_id collection_id dataset_id object_id : String → ResourceId

pub data ApiKeyValueVariant : Type 0 where
  unspecified label static_label hook hook_status : ApiKeyValueVariant

unfoldable pub data_class_of_api : ApiDataClass → Result Error DataClass
data_class_of_api ApiDataClass.unspecified = err (message "Unsepcified data class is invalid")
data_class_of_api ApiDataClass.public = ok DataClass.public
data_class_of_api ApiDataClass.private = ok DataClass.private
data_class_of_api ApiDataClass.workspace = ok DataClass.workspace
data_class_of_api ApiDataClass.confidential = ok DataClass.confidential

unfoldable pub data_class_to_api : DataClass → ApiDataClass
data_class_to_api DataClass.public = ApiDataClass.public
data_class_to_api DataClass.private = ApiDataClass.private
data_class_to_api DataClass.workspace = ApiDataClass.workspace
data_class_to_api DataClass.confidential = ApiDataClass.confidential

unfoldable pub object_status_to_api : ObjectStatus → Status
object_status_to_api ObjectStatus.initializing = Status.initializing
object_status_to_api ObjectStatus.validating = Status.validating
object_status_to_api ObjectStatus.available = Status.available
object_status_to_api ObjectStatus.unavailable = Status.unavailable
object_status_to_api ObjectStatus.error = Status.error
object_status_to_api ObjectStatus.deleted = Status.error

unfoldable pub object_type_to_api : ObjectType → ResourceVariant
object_type_to_api ObjectType.project = ResourceVariant.project
object_type_to_api ObjectType.collection = ResourceVariant.collection
object_type_to_api ObjectType.dataset = ResourceVariant.dataset
object_type_to_api ObjectType.object = ResourceVariant.object

unfoldable pub object_type_of_api : ResourceVariant → Result Error ObjectType
object_type_of_api ResourceVariant.unspecified =
    err (message "Unspecified resource variant not allowed")
object_type_of_api ResourceVariant.project = ok ObjectType.project
object_type_of_api ResourceVariant.collection = ok ObjectType.collection
object_type_of_api ResourceVariant.dataset = ok ObjectType.dataset
object_type_of_api ResourceVariant.object = ok ObjectType.object

unfoldable pub permission_to_api : DbPermissionLevel → PermissionLevel
permission_to_api DbPermissionLevel.deny = PermissionLevel.unspecified
permission_to_api DbPermissionLevel.none = PermissionLevel.none
permission_to_api DbPermissionLevel.read = PermissionLevel.read
permission_to_api DbPermissionLevel.append = PermissionLevel.append
permission_to_api DbPermissionLevel.write = PermissionLevel.write
permission_to_api DbPermissionLevel.admin = PermissionLevel.admin

unfoldable pub permission_of_api : PermissionLevel → Result Error DbPermissionLevel
permission_of_api PermissionLevel.unspecified = err (message "Unspecified permission level")
permission_of_api PermissionLevel.none = ok DbPermissionLevel.none
permission_of_api PermissionLevel.read = ok DbPermissionLevel.read
permission_of_api PermissionLevel.append = ok DbPermissionLevel.append
permission_of_api PermissionLevel.write = ok DbPermissionLevel.write
permission_of_api PermissionLevel.admin = ok DbPermissionLevel.admin

unfoldable pub replication_status_to_api : ReplicationStatus → ApiReplicationStatus
replication_status_to_api ReplicationStatus.waiting = ApiReplicationStatus.waiting
replication_status_to_api ReplicationStatus.running = ApiReplicationStatus.running
replication_status_to_api ReplicationStatus.finished = ApiReplicationStatus.finished
replication_status_to_api ReplicationStatus.error = ApiReplicationStatus.error

unfoldable pub replication_type_to_api : ReplicationType → EndpointSync
replication_type_to_api ReplicationType.full_sync = EndpointSync.full_sync
replication_type_to_api (ReplicationType.partial_sync inheritance) =
    EndpointSync.partial_sync inheritance

unfoldable pub notification_of_api :
    PersonalNotificationVariant → Result Error PersistentNotificationVariant
notification_of_api PersonalNotificationVariant.unspecified =
    err (message "Unspecified personal notification variant not allowed")
notification_of_api PersonalNotificationVariant.access_requested =
    ok PersistentNotificationVariant.access_requested
notification_of_api PersonalNotificationVariant.permission_granted =
    ok PersistentNotificationVariant.permission_granted
notification_of_api PersonalNotificationVariant.permission_revoked =
    ok PersistentNotificationVariant.permission_revoked
notification_of_api PersonalNotificationVariant.permission_updated =
    ok PersistentNotificationVariant.permission_updated
notification_of_api PersonalNotificationVariant.announcement =
    ok PersistentNotificationVariant.announcement

unfoldable pub notification_to_api : PersistentNotificationVariant → PersonalNotificationVariant
notification_to_api PersistentNotificationVariant.access_requested =
    PersonalNotificationVariant.access_requested
notification_to_api PersistentNotificationVariant.permission_revoked =
    PersonalNotificationVariant.permission_revoked
notification_to_api PersistentNotificationVariant.permission_granted =
    PersonalNotificationVariant.permission_granted
notification_to_api PersistentNotificationVariant.permission_updated =
    PersonalNotificationVariant.permission_updated
notification_to_api PersistentNotificationVariant.announcement =
    PersonalNotificationVariant.announcement

-- `DieselUlid::from_str` and `to_string` are code of a package: a parameter.
module _ (from_str : String → Result Error ℕ) where
  unfoldable pub mapping_of_resource_id : ResourceId → Result Error (ObjectMapping ℕ)
  mapping_of_resource_id (ResourceId.project_id id) = do
    i ← from_str id
    ok (ObjectMapping.project i)
  mapping_of_resource_id (ResourceId.collection_id id) = do
    i ← from_str id
    ok (ObjectMapping.collection i)
  mapping_of_resource_id (ResourceId.dataset_id id) = do
    i ← from_str id
    ok (ObjectMapping.dataset i)
  mapping_of_resource_id (ResourceId.object_id id) = do i ← from_str id; ok (ObjectMapping.object i)

unfoldable pub resource_id_of_mapping : (ℕ → String) → ObjectMapping ℕ → ResourceId
resource_id_of_mapping to_string (ObjectMapping.project id) = ResourceId.project_id (to_string id)
resource_id_of_mapping to_string (ObjectMapping.collection id) =
    ResourceId.collection_id (to_string id)
resource_id_of_mapping to_string (ObjectMapping.dataset id) = ResourceId.dataset_id (to_string id)
resource_id_of_mapping to_string (ObjectMapping.object id) = ResourceId.object_id (to_string id)

-- A hook's filter, and its form in the interface: an absent variant is `none`.
pub record KeyValue (V : Type 0) : Type 0 where
  pub key : String
  pub value : String
  pub variant : V

pub data Filter (V : Type 0) : Type 0 where
  name : String → Filter V
  key_value : KeyValue V → Filter V

unfoldable pub key_value_variant_of_api : ApiKeyValueVariant → Result Error KeyValueVariant
key_value_variant_of_api ApiKeyValueVariant.unspecified = err (message "Invalid key value variant")
key_value_variant_of_api ApiKeyValueVariant.label = ok KeyValueVariant.label
key_value_variant_of_api ApiKeyValueVariant.static_label = ok KeyValueVariant.static_label
key_value_variant_of_api ApiKeyValueVariant.hook = ok KeyValueVariant.hook
key_value_variant_of_api ApiKeyValueVariant.hook_status = ok KeyValueVariant.hook_status

unfoldable pub filter_of_api :
    Option (Filter ApiKeyValueVariant) → Result Error (Filter KeyValueVariant)
unfolding key_value_variant_of_api
filter_of_api Option.none = err (message "No filter provided")
filter_of_api (Option.some (Filter.name n)) = ok (Filter.name n)
filter_of_api (Option.some (Filter.key_value kv)) = do
  v ← key_value_variant_of_api kv.variant
  ok (Filter.key_value (record { key = kv.key; value = kv.value; variant = v }))
