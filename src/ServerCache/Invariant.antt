-- ===== src/ServerCache/Invariant.antt =====
-- The calls that change objects, users, keys, rules or bindings of the cache, as steps, and what they
-- keep true of it.
pub mod Kept
pub mod Stay
use aos_server.Base.{ℕ, String, List}
use aos_server.Base.Map
use aos_server.Base.Map.{Map, IsMap}
use aos_server.Base.{◌≡◌, some}
use aos_server.ServerCache.{
  Ulid, InternalRelation, ObjectWithRelations, User, PubKeyEnum, RuleBinding, Rule, Cache, new,
}
use aos_server.ServerCache.Objects
use aos_server.ServerCache.Users
use aos_server.ServerCache.Rules
use aos_server.ServerCache.Relations

-- One call. `upsert_object` is called with an object and the object's own id.
pub data Step (c : Cache) : Cache → Type 0 where
  object_inserted : (object : ObjectWithRelations) → Step c (Objects.insert_object object c)
  object_added : (rel : ObjectWithRelations) → Step c (Objects.add_object rel c)
  object_upserted :
      (id : Ulid) (object : ObjectWithRelations)
      → object.object.id ≡ id
      → Step c (Objects.upsert_object id object c)
  object_removed : (id : Ulid) → Step c (Objects.remove_object id c)
  relations_updated :
      (relations : List InternalRelation) → Step c (Relations.update_relations relations c)
  user_added : (id : Ulid) (user : User) → Step c (Users.add_user id user c)
  user_updated : (id : Ulid) (user : User) → Step c (Users.update_user id user c)
  user_removed : (id : Ulid) → Step c (Users.remove_user id c)
  pubkey_added : (id : ℕ) (key : PubKeyEnum) → Step c (Users.add_pubkey id key c)
  pubkey_removed : (id : ℕ) → Step c (Users.remove_pubkey id c)
  rule_inserted : (id : Ulid) (rule : Rule) → Step c (Rules.insert_rule id rule c)
  rule_deleted : (id : Ulid) → Step c (Rules.delete_rule id c)
  bindings_inserted :
      (ids : List Ulid) (binding : RuleBinding) → Step c (Rules.insert_rule_binding ids binding c)
  bindings_removed :
      (resource_id rule_id : Ulid) → Step c (Rules.remove_rule_bindings resource_id rule_id c)

pub data Steps (c : Cache) : Cache → Type 0 where
  none_yet : Steps c c
  then_step : {d e : Cache} → Steps c d → Step d e → Steps c e

-- Objects stand under their own ids.
abbrev pub IsKeyed : Map ObjectWithRelations → Type 0
IsKeyed m = (id : Ulid) (o : ObjectWithRelations) → Map.get id m ≡ some o → o.object.id ≡ id

-- Each map has one entry for a key, and objects stand under their own ids.
abbrev pub IsValid : Cache → Type 0
IsValid c =
    (IsMap c.object_cache × IsKeyed c.object_cache)
    × IsMap c.user_cache
    × IsMap c.pubkeys
    × IsMap c.object_rules
    × IsMap c.object_rule_bindings
