-- ===== src/ServerCache/Objects.antt =====
-- The objects of the cache: lookup, insertion, deletion marks, and the families that an object's
-- relations give (`impl ObjectWithRelations` of components/server/src/caching/structs.rs).
use text.Mathlib.Text.{◌==◌ as str_eq}
use aos_server.Base.{String, Option, none, some, List, [], ◌∷◌, ◌++◌, if◌then◌else◌}
use aos_server.Base.Map
use aos_server.Base.Map.{Map}
use aos_server.Enums.{ObjectStatus}
use aos_server.ServerCache.{Ulid, InternalRelation, ObjectWithRelations, RuleBinding, Cache}

-- INTERNAL_RELATION_VARIANT_BELONGS_TO
abbrev pub belongs_to : String
belongs_to = "BELONGS_TO"

unfoldable pub get_children : ObjectWithRelations → List Ulid
get_children o = Map.keys o.outbound_belongs_to

-- The `filter_map` of `get_permission_children`.
unfoldable pub deleted_targets : Map InternalRelation → List Ulid
deleted_targets [] = []
deleted_targets ((k, r) ∷ rs) =
    if str_eq r.relation_name "DELETED"
    then r.target_pid ∷ deleted_targets rs
    else deleted_targets rs

unfoldable pub get_permission_children : ObjectWithRelations → List Ulid
unfolding get_children deleted_targets
get_permission_children o = get_children o ++ deleted_targets o.outbound

unfoldable pub get_parents : ObjectWithRelations → List Ulid
get_parents o = Map.keys o.inbound_belongs_to

unfoldable pub get_object : Ulid → Cache → Option ObjectWithRelations
get_object id c = Map.get id c.object_cache

abbrev pub or_empty : Option (List RuleBinding) → List RuleBinding
or_empty none = []
or_empty (some bindings) = bindings

unfoldable pub get_wrapped_object : Ulid → Cache → Option (ObjectWithRelations × List RuleBinding)
get_wrapped_object id c = elim (Map.get id c.object_cache) [
  | none ↦ none
  | some object ↦ some (object, or_empty (Map.get id c.object_rule_bindings))
]

unfoldable pub insert_object : ObjectWithRelations → Cache → Cache
insert_object object c = record c {
  object_cache = Map.insert object.object.id object c.object_cache;
}

unfoldable pub add_object : ObjectWithRelations → Cache → Cache
add_object rel c = record c { object_cache = Map.insert rel.object.id rel c.object_cache }

-- A cached id gets the new value; an unknown one is not used: the object goes under its own id.
unfoldable pub upsert_object : Ulid → ObjectWithRelations → Cache → Cache
upsert_object id object c =
    if Map.contains_key id c.object_cache
    then record c { object_cache = Map.insert id object c.object_cache }
    else record c { object_cache = Map.insert object.object.id object c.object_cache }

abbrev pub mark_deleted : ObjectWithRelations → ObjectWithRelations
mark_deleted o = record o { object = record (o.object) { object_status = ObjectStatus.deleted } }

unfoldable pub remove_object : Ulid → Cache → Cache
remove_object id c = elim (Map.get id c.object_cache) [
  | none ↦ c
  | some x ↦ record c { object_cache = Map.insert id (mark_deleted x) c.object_cache }
]
