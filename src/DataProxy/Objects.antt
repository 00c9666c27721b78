-- ===== src/DataProxy/Objects.antt =====
-- Resources as the data proxy keeps them: `Object`, `TypedRelation`, `TypedId`, `Endpoint` and
-- `DbPermissionLevel` of components/data_proxy/src/structs.rs. The proxy's enums for permission levels
-- and resource types have the server's constructors in the server's order, so they are the server's
-- here. An id is a number, a set the list of its elements in the order of its iterator, a time a
-- number of seconds; a generated id and the time are arguments.
pub mod Requests
pub mod Creation
use text.Mathlib.Text.{◌==◌ as str_eq}
use aos_server.Base.{
  ℕ, String, Bool, true, false, Option, none, some, List, [], ◌∷◌, ◌==◌, map, Result, ok, err,
  Error, message, ok_or, if◌then◌else◌,
}
use aos_server.Enums.{DbPermissionLevel, ObjectType, ReplicationStatus}
use aos_server.Enums.Api.{
  ApiDataClass, Status, ResourceVariant, PermissionLevel, ApiReplicationStatus, EndpointSync,
}
use aos_server.ServerCache.{Ulid}

abbrev pub Texts : Type 0
Texts = List (String × String)

-- The code of an error of the S3 interface, with its message.
pub data S3Error : Type 0 where
  no_such_key no_such_bucket access_denied invalid_object_state internal_error method_not_allowed
        malformed_acl invalid_request :
      String → S3Error

pub data HttpMethod : Type 0 where
  get head options post put delete : HttpMethod
  extension : String → HttpMethod

abbrev pub method_text : HttpMethod → String
method_text get = "GET"
method_text head = "HEAD"
method_text options = "OPTIONS"
method_text post = "POST"
method_text put = "PUT"
method_text delete = "DELETE"
method_text (extension name) = name

unfoldable pub permission_of_method : HttpMethod → DbPermissionLevel
permission_of_method get = DbPermissionLevel.read
permission_of_method options = DbPermissionLevel.read
permission_of_method head = DbPermissionLevel.read
permission_of_method post = DbPermissionLevel.append
permission_of_method put = DbPermissionLevel.append
permission_of_method delete = DbPermissionLevel.write
permission_of_method (extension name) = DbPermissionLevel.admin

unfoldable pub is_method_read : HttpMethod → Bool
is_method_read get = true
is_method_read head = true
is_method_read options = true
is_method_read _ = false

unfoldable pub permission_text : DbPermissionLevel → String
permission_text DbPermissionLevel.deny = "deny"
permission_text DbPermissionLevel.none = "none"
permission_text DbPermissionLevel.read = "read"
permission_text DbPermissionLevel.append = "append"
permission_text DbPermissionLevel.write = "write"
permission_text DbPermissionLevel.admin = "admin"

unfoldable pub permission_level : PermissionLevel → DbPermissionLevel
permission_level PermissionLevel.unspecified = DbPermissionLevel.none
permission_level PermissionLevel.none = DbPermissionLevel.none
permission_level PermissionLevel.read = DbPermissionLevel.read
permission_level PermissionLevel.append = DbPermissionLevel.append
permission_level PermissionLevel.write = DbPermissionLevel.write
permission_level PermissionLevel.admin = DbPermissionLevel.admin

unfoldable pub object_type_of_variant : ResourceVariant → Result Error ObjectType
object_type_of_variant ResourceVariant.project = ok ObjectType.project
object_type_of_variant ResourceVariant.collection = ok ObjectType.collection
object_type_of_variant ResourceVariant.dataset = ok ObjectType.dataset
object_type_of_variant ResourceVariant.object = ok ObjectType.object
object_type_of_variant ResourceVariant.unspecified = err (message "Invalid resource variant")

pub data TypedRelation : Type 0 where
  project collection dataset object : Ulid → TypedRelation

unfoldable pub relation_id : TypedRelation → Ulid
relation_id (TypedRelation.project i) = i
relation_id (TypedRelation.collection i) = i
relation_id (TypedRelation.dataset i) = i
relation_id (TypedRelation.object i) = i

pub data TypedId : Type 0 where
  project collection dataset object unknown : Ulid → TypedId

unfoldable pub typed_id : TypedId → Ulid
typed_id (TypedId.project id) = id
typed_id (TypedId.collection id) = id
typed_id (TypedId.dataset id) = id
typed_id (TypedId.object id) = id
typed_id (TypedId.unknown id) = id

pub data VersionVariant : Type 0 where
  has_version is_version : Ulid → VersionVariant

pub record ProxyKeyValue : Type 0 where
  pub key : String
  pub value : String

pub record Endpoint : Type 0 where
  pub id : Ulid
  pub variant : EndpointSync
  pub status : Option ReplicationStatus

pub record ProxyObject : Type 0 where
  pub id : Ulid
  pub name : String
  pub title : String
  pub key_values : List ProxyKeyValue
  pub object_status : Status
  pub data_class : ApiDataClass
  pub object_type : ObjectType
  pub hashes : Texts
  pub metadata_license : String
  pub data_license : String
  pub dynamic : Bool
  pub children : Option (List TypedRelation)
  pub parents : Option (List TypedRelation)
  pub versions : Option (List VersionVariant)
  pub synced : Bool
  pub endpoints : List Endpoint
  pub created_at : Option ℕ
  pub created_by : Option Ulid

abbrev pub all_rights_reserved : String
all_rights_reserved = "AllRightsReserved"

abbrev initial_status : ObjectType → Status
initial_status ObjectType.object = Status.initializing
initial_status _ = Status.available

abbrev only : Option TypedRelation → Option (List TypedRelation)
only none = none
only (some p) = some (p ∷ [])

unfoldable pub initialize_now : Ulid → ℕ → String → ObjectType → Option TypedRelation → ProxyObject
initialize_now generated now name object_type parent = record {
  id = generated;
  name = name;
  title = "";
  key_values = [];
  object_status = initial_status object_type;
  data_class = ApiDataClass.private;
  object_type = object_type;
  hashes = [];
  metadata_license = all_rights_reserved;
  data_license = all_rights_reserved;
  dynamic = true;
  children = none;
  parents = only parent;
  versions = none;
  synced = false;
  endpoints = [];
  created_at = some now;
  created_by = none;
}

-- `TypedId::from`
unfoldable pub typed : ProxyObject → TypedId
typed o = elim o.object_type [
  | ObjectType.project ↦ TypedId.project o.id
  | ObjectType.collection ↦ TypedId.collection o.id
  | ObjectType.dataset ↦ TypedId.dataset o.id
  | ObjectType.object ↦ TypedId.object o.id
]

abbrev is_partial : EndpointSync → Bool
is_partial EndpointSync.full_sync = false
is_partial (EndpointSync.partial_sync inheritance) = true

abbrev partial_at : Ulid → List Endpoint → Bool
partial_at ep_id [] = false
partial_at ep_id (ep ∷ eps) = if ep.id == ep_id then is_partial ep.variant else partial_at ep_id eps

unfoldable pub is_partial_sync : Ulid → ProxyObject → Bool
is_partial_sync ep_id o = partial_at ep_id o.endpoints

unfoldable pub fail_partial_sync : Ulid → ProxyObject → Result S3Error (Unit {0})
unfolding is_partial_sync
fail_partial_sync ep_id o =
    if is_partial_sync ep_id o then err (invalid_object_state "Object partial synced") else ok tt

-- A `Hash` of the interface: the code of its algorithm and its digits.
abbrev hash_code : String → ℕ
hash_code k = if str_eq k "MD5" then 2 else if str_eq k "SHA256" then 1 else 0

unfoldable pub get_hashes : ProxyObject → List (ℕ × String)
get_hashes o = map (λ (kv : String × String). (hash_code kv.0, kv.1)) o.hashes
