-- ===== src/Enums/Codes.antt =====
-- The conversions between the enums and `i32`, from
-- components/server/src/utils/conversions/enums.rs and components/server/src/database/enums.rs,
-- and the reading of an object status from its label.
use text.Mathlib.Text.{◌==◌ as str_eq}
use aos_server.Base.{ℕ, String, Result, ok, err, Error, message, ◌==◌, if◌then◌else◌}
use aos_server.Enums.{
  ObjectStatus, DataClass, ObjectType, DbPermissionLevel, DataProxyFeature, EndpointVariant,
  EndpointStatus, PersistentNotificationVariant, KeyValueVariant, Algorithm, Method,
}

unfoldable pub key_value_variant_of_i32 : ℕ → Result Error KeyValueVariant
key_value_variant_of_i32 var =
    if var == 1
    then ok KeyValueVariant.label
    else if var == 2
    then ok KeyValueVariant.static_label
    else if var == 3
    then ok KeyValueVariant.hook
    else if var == 4
    then ok KeyValueVariant.hook_status
    else err (message "KeyValue variant not defined.")

unfoldable pub data_class_of_i32 : ℕ → Result Error DataClass
data_class_of_i32 var =
    if var == 1
    then ok DataClass.public
    else if var == 2
    then ok DataClass.private
    else if var == 4
    then ok DataClass.workspace
    else if var == 5
    then ok DataClass.confidential
    else err (message "Dataclass not defined")

unfoldable pub data_class_to_i32 : DataClass → ℕ
data_class_to_i32 DataClass.public = 1
data_class_to_i32 DataClass.private = 2
data_class_to_i32 DataClass.workspace = 4
data_class_to_i32 DataClass.confidential = 5

unfoldable pub object_status_to_i32 : ObjectStatus → ℕ
object_status_to_i32 ObjectStatus.initializing = 1
object_status_to_i32 ObjectStatus.validating = 2
object_status_to_i32 ObjectStatus.available = 3
object_status_to_i32 ObjectStatus.unavailable = 4
object_status_to_i32 ObjectStatus.error = 5
object_status_to_i32 ObjectStatus.deleted = 6

unfoldable pub object_status_of_i32 : ℕ → Result Error ObjectStatus
object_status_of_i32 value =
    if value == 1
    then ok ObjectStatus.initializing
    else if value == 2
    then ok ObjectStatus.validating
    else if value == 3
    then ok ObjectStatus.available
    else if value == 4
    then ok ObjectStatus.unavailable
    else if value == 5
    then ok ObjectStatus.error
    else if value == 6
    then ok ObjectStatus.deleted
    else err (message "Object status not defined")

-- `TryFrom<&[u8]>`, over the text that the bytes hold.
unfoldable pub object_status_of_label : String → Result Error ObjectStatus
object_status_of_label value =
    if str_eq value "INITIALIZING"
    then ok ObjectStatus.initializing
    else if str_eq value "VALIDATING"
    then ok ObjectStatus.validating
    else if str_eq value "AVAILABLE"
    then ok ObjectStatus.available
    else if str_eq value "ERROR"
    then ok ObjectStatus.error
    else if str_eq value "DELETED"
    then ok ObjectStatus.deleted
    else err (message "Unknown type")

unfoldable pub algorithm_of_i32 : ℕ → Result Error Algorithm
algorithm_of_i32 a =
    if a == 1
    then ok Algorithm.md5
    else if a == 2
    then ok Algorithm.sha256
    else err (message "Hash algorithm conversion error.")

-- The match in `From<Hashes> for Vec<Hash>`.
unfoldable pub algorithm_to_i32 : Algorithm → ℕ
algorithm_to_i32 Algorithm.md5 = 1
algorithm_to_i32 Algorithm.sha256 = 2

unfoldable pub object_type_to_i32 : ObjectType → ℕ
object_type_to_i32 ObjectType.project = 1
object_type_to_i32 ObjectType.collection = 2
object_type_to_i32 ObjectType.dataset = 3
object_type_to_i32 ObjectType.object = 4

unfoldable pub object_type_of_i32 : ℕ → Result Error ObjectType
object_type_of_i32 value =
    if value == 1
    then ok ObjectType.project
    else if value == 2
    then ok ObjectType.collection
    else if value == 3
    then ok ObjectType.dataset
    else if value == 4
    then ok ObjectType.object
    else err (message "Unknown object type")

unfoldable pub permission_of_i32 : ℕ → Result Error DbPermissionLevel
permission_of_i32 value =
    if value == 1
    then ok DbPermissionLevel.deny
    else if value == 2
    then ok DbPermissionLevel.none
    else if value == 3
    then ok DbPermissionLevel.read
    else if value == 4
    then ok DbPermissionLevel.append
    else if value == 5
    then ok DbPermissionLevel.write
    else if value == 6
    then ok DbPermissionLevel.admin
    else err (message "Unknown permission level")

unfoldable pub permission_to_i32 : DbPermissionLevel → ℕ
permission_to_i32 DbPermissionLevel.deny = 1
permission_to_i32 DbPermissionLevel.none = 2
permission_to_i32 DbPermissionLevel.read = 3
permission_to_i32 DbPermissionLevel.append = 4
permission_to_i32 DbPermissionLevel.write = 5
permission_to_i32 DbPermissionLevel.admin = 6

unfoldable pub endpoint_status_of_i32 : ℕ → Result Error EndpointStatus
endpoint_status_of_i32 value =
    if value == 1
    then ok EndpointStatus.initializing
    else if value == 2
    then ok EndpointStatus.available
    else if value == 3
    then ok EndpointStatus.degraded
    else if value == 4
    then ok EndpointStatus.unavailable
    else if value == 5
    then ok EndpointStatus.maintenance
    else err (message "Undefined component status")

unfoldable pub endpoint_status_to_i32 : EndpointStatus → ℕ
endpoint_status_to_i32 EndpointStatus.initializing = 1
endpoint_status_to_i32 EndpointStatus.available = 2
endpoint_status_to_i32 EndpointStatus.degraded = 3
endpoint_status_to_i32 EndpointStatus.unavailable = 4
endpoint_status_to_i32 EndpointStatus.maintenance = 5

unfoldable pub feature_of_i32 : ℕ → Result Error DataProxyFeature
feature_of_i32 var =
    if var == 1
    then ok DataProxyFeature.grpc
    else if var == 2
    then ok DataProxyFeature.s3
    else err (message "Undefined dataproxy feature")

unfoldable pub feature_to_i32 : DataProxyFeature → ℕ
feature_to_i32 DataProxyFeature.grpc = 1
feature_to_i32 DataProxyFeature.s3 = 2

unfoldable pub endpoint_variant_to_i32 : EndpointVariant → ℕ
endpoint_variant_to_i32 EndpointVariant.persistent = 1
endpoint_variant_to_i32 EndpointVariant.volatile = 2

unfoldable pub endpoint_variant_of_i32 : ℕ → Result Error EndpointVariant
endpoint_variant_of_i32 value =
    if value == 1
    then ok EndpointVariant.persistent
    else if value == 2
    then ok EndpointVariant.volatile
    else err (message "Undefined endpoint variant")

unfoldable pub method_to_i32 : Method → ℕ
method_to_i32 Method.put = 1
method_to_i32 Method.post = 2

unfoldable pub notification_of_i32 : ℕ → Result Error PersistentNotificationVariant
notification_of_i32 value =
    if value == 1
    then ok PersistentNotificationVariant.access_requested
    else if value == 2
    then ok PersistentNotificationVariant.permission_granted
    else if value == 3
    then ok PersistentNotificationVariant.permission_revoked
    else if value == 4
    then ok PersistentNotificationVariant.permission_updated
    else if value == 5
    then ok PersistentNotificationVariant.announcement
    else err (message "Unspecified personal notification variant not allowed")
