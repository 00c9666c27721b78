-- ===== src/ServerCache/Relations.antt =====
-- `update_relations`: relations that were added are entered at both ends.
pub mod Ends
pub mod Cycle
use text.Mathlib.Text.{◌==◌ as str_eq}
use aos_server.Base.{ℕ, Option, none, some, List, [], ◌∷◌, if◌then◌else◌}
use aos_server.Base.Map
use aos_server.ServerCache.{Ulid, InternalRelation, ObjectWithRelations, Cache}
use aos_server.ServerCache.Objects.{belongs_to}

abbrev pub add_outbound : InternalRelation → ObjectWithRelations → ObjectWithRelations
add_outbound r origin =
    if str_eq r.relation_name belongs_to
    then record origin {
      outbound_belongs_to = Map.insert r.target_pid r origin.outbound_belongs_to;
    }
    else record origin { outbound = Map.insert r.target_pid r origin.outbound }

abbrev pub add_inbound : InternalRelation → ObjectWithRelations → ObjectWithRelations
add_inbound r target =
    if str_eq r.relation_name belongs_to
    then record target { inbound_belongs_to = Map.insert r.target_pid r target.inbound_belongs_to }
    else record target { inbound = Map.insert r.origin_pid r target.inbound }

-- `get_mut`, and a write to the entry that was found.
abbrev pub modify : Ulid → (ObjectWithRelations → ObjectWithRelations) → Cache → Cache
modify id f c = elim (Map.get id c.object_cache) [
  | none ↦ c
  | some o ↦ record c { object_cache = Map.insert id (f o) c.object_cache }
]

unfoldable pub update_relation : InternalRelation → Cache → Cache
update_relation r c = modify r.target_pid (add_inbound r) (modify r.origin_pid (add_outbound r) c)

unfoldable pub update_relations : List InternalRelation → Cache → Cache
unfolding update_relation
update_relations [] c = c
update_relations (r ∷ rs) c = update_relations rs (update_relation r c)
