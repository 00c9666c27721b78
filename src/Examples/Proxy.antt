-- ===== src/Examples/Proxy.antt =====
-- A small instance of the data proxy: a project with one object, and a user with an access key.
use text.Mathlib.Text.{◌==◌ as str_eq}
use aos_server.Base.{
  ℕ, String, false, Option, none, some, List, [], ◌∷◌, ◌==◌, Result, ok, err, Error, message,
  if◌then◌else◌,
}
use aos_server.Enums.{DbPermissionLevel, ObjectType}
use aos_server.Enums.Api.{ApiDataClass, Status}
use aos_server.ServerCache.{Ulid}
use aos_server.DataProxy.Objects.{ProxyObject, TypedRelation, HttpMethod}
use aos_server.DataProxy.States.{AccessKeyPermissions}
use aos_server.DataProxy.Rules.{RuleEngine, Cel, list}
use aos_server.DataProxy.Caching.{ProxyCache, ProxyUser, UploadPart, empty_cache}
use aos_server.DataProxy.Access.{Handler, Request}

abbrev pub to_string : Ulid → String
to_string id = if id == 1 then "1" else (if id == 2 then "2" else "7")

abbrev pub from_str : String → Result Error Ulid
from_str s =
    if str_eq s "1"
    then ok 1
    else (if str_eq s "2" then ok 2 else (if str_eq s "7" then ok 7 else err (message "no id")))

abbrev pub resource :
    Ulid
    → String
    → ObjectType
    → Option (List TypedRelation)
    → Option (List TypedRelation)
    → ProxyObject
resource id name object_type parents children = record {
  id = id;
  name = name;
  title = "";
  key_values = [];
  object_status = Status.available;
  data_class = ApiDataClass.private;
  object_type = object_type;
  hashes = [];
  metadata_license = "";
  data_license = "";
  dynamic = false;
  children = children;
  parents = parents;
  versions = none;
  synced = false;
  endpoints = [];
  created_at = none;
  created_by = none;
}

abbrev pub bucket : ProxyObject
bucket = resource 1 "p" ObjectType.project none (some (TypedRelation.object 2 ∷ []))

abbrev pub file : ProxyObject
file = resource 2 "o" ObjectType.object (some (TypedRelation.project 1 ∷ [])) none

abbrev pub owner : ProxyUser
owner = record {
  user_id = 7;
  personal_permissions = (1, DbPermissionLevel.write) ∷ [];
  tokens = [];
  is_service_account = false;
  attributes = [];
}

abbrev pub owner_key : AccessKeyPermissions
owner_key = record {
  access_key = "7";
  user_id = 7;
  secret = "s";
  is_service_account = false;
  permissions = (1, DbPermissionLevel.write) ∷ [];
}

abbrev pub part : ℕ → UploadPart
part number = record {
  id = 9;
  object_id = 2;
  upload_id = "u";
  part_number = number;
  raw_size = 4;
  size = 4;
}

abbrev pub proxy : ProxyCache
proxy = record empty_cache {
  users = (7, (owner, "7" ∷ [])) ∷ [];
  access_keys = ("7", owner_key) ∷ [];
  resources = (1, (bucket, none)) ∷ (2, (file, none)) ∷ [];
  multi_parts = ("u", part 2 ∷ part 1 ∷ []) ∷ [];
  paths = ("p", 1) ∷ ("p/o", 2) ∷ [];
}

abbrev pub cel : Cel
cel = record {
  root_rules = λ rules ctx. ok (list []);
  object_rules = λ rules ctx. ok (list []);
  package_rules = λ rules ctx. ok (list []);
  bundle_rules = λ rules ctx. ok (list []);
}

abbrev pub no_rules : RuleEngine
no_rules = record {
  root = [];
  obj = [];
  bundle = [];
  obj_package = [];
  repl_in = [];
  repl_out = [];
}

abbrev pub with_engine : RuleEngine → Handler
with_engine engine = record {
  self_id = 50;
  engine = engine;
  cel = cel;
  to_string = to_string;
  from_str = from_str;
  parse_cors = λ text. none;
  generated = 60;
  now = 0;
  never = 0;
}

abbrev pub handler : Handler
handler = with_engine no_rules

abbrev pub keyed : HttpMethod → Request
keyed method = record { creds = some "7"; method = method; headers = [] }

abbrev pub unkeyed : HttpMethod → Request
unkeyed method = record { creds = none; method = method; headers = [] }
