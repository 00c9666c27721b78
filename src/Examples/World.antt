-- ===== src/Examples/World.antt =====
-- A project (1) over a collection (2) over a dataset (3) over an object (4) that the data proxy 50
-- holds, and user 9, who may read the project.
use aos_server.Base.{ℕ, String, none, true, false, [], ◌∷◌}
use aos_server.Base.Map.{Map}
use aos_server.Enums.{
  ObjectStatus, DataClass, ObjectType, ObjectMapping, DbPermissionLevel, ReplicationType,
}
use aos_server.ServerCache.{
  InternalRelation, EndpointInfo, Object, ObjectWithRelations, User, data_proxy, RuleBinding,
  IssuerType, Issuer, Cache,
}

abbrev pub relation : ℕ → ObjectType → ℕ → ObjectType → InternalRelation
relation origin t target u = record {
  id = 100;
  origin_pid = origin;
  origin_type = t;
  relation_name = "BELONGS_TO";
  target_pid = target;
  target_type = u;
  target_name = "child";
}

abbrev pub plain : ℕ → ObjectType → Map EndpointInfo → Object
plain id t endpoints = record {
  id = id;
  name = "resource";
  content_len = 0;
  count = 0;
  object_status = ObjectStatus.available;
  data_class = DataClass.private;
  object_type = t;
  endpoints = endpoints;
}

abbrev pub one_two : InternalRelation
one_two = relation 1 ObjectType.project 2 ObjectType.collection

abbrev pub two_three : InternalRelation
two_three = relation 2 ObjectType.collection 3 ObjectType.dataset

abbrev pub three_four : InternalRelation
three_four = relation 3 ObjectType.dataset 4 ObjectType.object

abbrev pub resource_one : ObjectWithRelations
resource_one = record {
  object = plain 1 ObjectType.project [];
  inbound = [];
  inbound_belongs_to = [];
  outbound = [];
  outbound_belongs_to = (2, one_two) ∷ [];
}

abbrev pub resource_two : ObjectWithRelations
resource_two = record {
  object = plain 2 ObjectType.collection [];
  inbound = [];
  inbound_belongs_to = (1, one_two) ∷ [];
  outbound = [];
  outbound_belongs_to = (3, two_three) ∷ [];
}

abbrev pub resource_three : ObjectWithRelations
resource_three = record {
  object = plain 3 ObjectType.dataset [];
  inbound = [];
  inbound_belongs_to = (2, two_three) ∷ [];
  outbound = [];
  outbound_belongs_to = (4, three_four) ∷ [];
}

abbrev pub resource_four : ObjectWithRelations
resource_four = record {
  object =
      plain 4 ObjectType.object
        ((50, record { replication = ReplicationType.full_sync; status = none }) ∷ []);
  inbound = [];
  inbound_belongs_to = (3, three_four) ∷ [];
  outbound = [];
  outbound_belongs_to = [];
}

abbrev pub user_nine : User
user_nine = record {
  id = 9;
  display_name = "nine";
  attributes = record {
    global_admin = false;
    service_account = false;
    tokens = [];
    trusted_endpoints = [];
    permissions = (1, ObjectMapping.project DbPermissionLevel.read) ∷ [];
    external_ids = [];
  };
  active = true;
}

abbrev pub binding : RuleBinding
binding = record { rule_id = 70; origin_id = 1; object_id = 4; cascading = true }

abbrev pub issuer : String → IssuerType → Issuer
issuer name t = record {
  issuer_name = name;
  pubkey_endpoint = none;
  decoding_keys = ("7", "key") ∷ [];
  last_updated = 0;
  audiences = none;
  issuer_type = t;
}

abbrev pub world : Cache
world = record {
  object_cache =
      (1, resource_one) ∷ (2, resource_two) ∷ (3, resource_three) ∷ (4, resource_four) ∷ [];
  user_cache = (9, user_nine) ∷ [];
  pubkeys = (7, data_proxy "key" 50) ∷ [];
  issuer_info =
      ("aruna", issuer "aruna" IssuerType.aruna)
      ∷ ("proxy", issuer "proxy" IssuerType.dataproxy)
      ∷ [];
  object_rules = [];
  object_rule_bindings = (4, binding ∷ []) ∷ [];
}
