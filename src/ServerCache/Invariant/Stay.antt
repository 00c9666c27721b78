-- ===== src/ServerCache/Invariant/Stay.antt =====
-- Objects are never taken out of the cache.
use aos_server.Base.{◌≡◌, refl, true, inl, inr, List, [], ◌∷◌, ◌==◌, Bool-cases, Option-cases}
use aos_server.Base.Map
use aos_server.Base.Map.{Map, IsMap}
use aos_server.ServerCache.{Ulid, InternalRelation, ObjectWithRelations, RuleBinding, Cache}
use aos_server.ServerCache.Objects
use aos_server.ServerCache.Objects.{get_object, mark_deleted, belongs_to}
use aos_server.ServerCache.Users
use aos_server.ServerCache.Rules
use aos_server.ServerCache.Relations
use aos_server.ServerCache.Relations.{modify, add_outbound, add_inbound}
use aos_server.ServerCache.Invariant.{
  Step, object_inserted, object_added, object_upserted, object_removed, relations_updated,
  user_added, user_updated, user_removed, pubkey_added, pubkey_removed, rule_inserted, rule_deleted,
  bindings_inserted, bindings_removed, Steps, none_yet, then_step,
}

abbrev pub IsCached : Ulid → Cache → Type 0
IsCached id c = Map.contains_key id c.object_cache ≡ true

insert-IsCached :
    (c : Cache) (o : ObjectWithRelations) (k id : Ulid)
    → IsCached id c
    → IsCached id (record c { object_cache = Map.insert k o c.object_cache })
insert-IsCached c o k id h = elim (Bool-cases (k == id)) [
  | inl same ↦ rw (Map.get-insert k id o c.object_cache, same) refl
  | inr other ↦ rw (Map.get-insert k id o c.object_cache, other) h
]

modify-IsCached :
    (k : Ulid) (f : ObjectWithRelations → ObjectWithRelations) (c : Cache) (id : Ulid)
    → IsCached id c
    → IsCached id (modify k f c)
modify-IsCached k f c id h = elim (Option-cases (Map.get k c.object_cache)) [
  | inl absent ↦ rw (absent, modify) h
  | inr (o, e) ↦ rw (e, modify) (insert-IsCached c (f o) k id h)
]

update_relations-IsCached :
    (rs : List InternalRelation) (c : Cache) (id : Ulid)
    → IsCached id c
    → IsCached id (Relations.update_relations rs c)
unfolding Relations.update_relations Relations.update_relation
update_relations-IsCached [] c id h = h
update_relations-IsCached (r ∷ rs) c id h = update_relations-IsCached rs _ id (
    modify-IsCached r.target_pid (add_inbound r) (modify r.origin_pid (add_outbound r) c) id
      (modify-IsCached r.origin_pid (add_outbound r) c id h))

insert_rule_binding-IsCached :
    (ids : List Ulid) (binding : RuleBinding) (c : Cache) (id : Ulid)
    → IsCached id c
    → IsCached id (Rules.insert_rule_binding ids binding c)
unfolding Rules.insert_rule_binding Rules.insert_one Rules.get_rule_bindings
insert_rule_binding-IsCached [] binding c id h = h
insert_rule_binding-IsCached (k ∷ ids) binding c id h =
    insert_rule_binding-IsCached ids binding (Rules.insert_one binding k c) id
      (elim (Option-cases (Map.get k c.object_rule_bindings)) [
        | inl e ↦ rw (e, Rules.insert_one) h
        | inr (bindings, e) ↦ rw (e, Rules.insert_one) h
      ])

Step-IsCached : {c d : Cache} (id : Ulid) → Step c d → IsCached id c → IsCached id d
unfolding Objects.insert_object Objects.add_object Objects.upsert_object Objects.remove_object
    Users.add_user Users.update_user Users.remove_user Users.add_pubkey Users.remove_pubkey
    Rules.insert_rule Rules.delete_rule Rules.remove_rule_bindings
Step-IsCached {c} id (object_inserted o) h = insert-IsCached c o o.object.id id h
Step-IsCached {c} id (object_added o) h = insert-IsCached c o o.object.id id h
Step-IsCached {c} id (object_upserted k o own) h =
    elim (Bool-cases (Map.contains_key k c.object_cache)) [
      | inl e ↦ rw e (insert-IsCached c o k id h)
      | inr e ↦ rw e (insert-IsCached c o o.object.id id h)
    ]
Step-IsCached {c} id (object_removed k) h = elim (Option-cases (Map.get k c.object_cache)) [
  | inl e ↦ rw (e, Objects.remove_object) h
  | inr (o, e) ↦ rw (e, Objects.remove_object) (insert-IsCached c (mark_deleted o) k id h)
]
Step-IsCached {c} id (relations_updated rs) h = update_relations-IsCached rs c id h
Step-IsCached {c} id (user_added k u) h = h
Step-IsCached {c} id (user_updated k u) h = elim (Bool-cases (Map.contains_key k c.user_cache)) [
  | inl e ↦ rw e h
  | inr e ↦ rw e h
]
Step-IsCached {c} id (user_removed k) h = h
Step-IsCached {c} id (pubkey_added k key) h = h
Step-IsCached {c} id (pubkey_removed k) h = h
Step-IsCached {c} id (rule_inserted k r) h = h
Step-IsCached {c} id (rule_deleted k) h = h
Step-IsCached {c} id (bindings_inserted ids b) h = insert_rule_binding-IsCached ids b c id h
Step-IsCached {c} id (bindings_removed resource_id rule_id) h = h

-- An object that is cached stays cached, whatever steps follow (a synchronisation is no step):
-- `remove_object` only marks it.
Steps-IsCached : {c d : Cache} (id : Ulid) → Steps c d → IsCached id c → IsCached id d
Steps-IsCached id none_yet h = h
Steps-IsCached id (then_step before call) h = Step-IsCached id call (Steps-IsCached id before h)
