-- ===== src/ServerCache/Invariant/Kept.antt =====
-- What every call keeps true of the cache.
use text.Mathlib.Text.{◌==◌ as str_eq}
use aos_server.Base.{◌≡◌, some, inl, inr, List, [], ◌∷◌, ◌==◌, Bool-cases, Option-cases, ==→eq}
use aos_server.Base.Map
use aos_server.Base.Map.{Map, IsMap}
use aos_server.ServerCache.{Ulid, ObjectWithRelations, RuleBinding, Cache}
use aos_server.ServerCache.Objects
use aos_server.ServerCache.Objects.{get_object}
use aos_server.ServerCache.Users
use aos_server.ServerCache.Rules
use aos_server.ServerCache.Relations
use aos_server.ServerCache.Invariant.{IsKeyed, IsValid}

insert-IsKeyed :
    (o : ObjectWithRelations) (id : Ulid) (m : Map ObjectWithRelations)
    → o.object.id ≡ id
    → IsKeyed m
    → IsKeyed (Map.insert id o m)
insert-IsKeyed o id m own keyed j o' e = elim (Bool-cases (id == j)) [
  | inl same ↦
      let it : some o ≡ some o' = rw (Map.get-insert id j o m, same) at e in
      let id_j = ==→eq id j same in cc
  | inr other ↦ keyed j o' (rw (Map.get-insert id j o m, other) at e)
]

pub insert-IsValid :
    (c : Cache) (o : ObjectWithRelations) (id : Ulid)
    → o.object.id ≡ id
    → IsValid c
    → IsValid (record c { object_cache = Map.insert id o c.object_cache })
insert-IsValid c o id own ((one, keyed), users, keys, rules, bindings) = (
  (Map.insert-IsMap id o c.object_cache one, insert-IsKeyed o id c.object_cache own keyed),
  users,
  keys,
  rules,
  bindings,
)

pub insert_rule_binding-IsValid :
    (ids : List Ulid) (binding : RuleBinding) (c : Cache)
    → IsValid c
    → IsValid (Rules.insert_rule_binding ids binding c)
unfolding Rules.insert_rule_binding Rules.insert_one Rules.get_rule_bindings
insert_rule_binding-IsValid [] binding c valid = valid
insert_rule_binding-IsValid (id ∷ ids) binding c valid =
    insert_rule_binding-IsValid ids binding (Rules.insert_one binding id c)
      (elim (Option-cases (Map.get id c.object_rule_bindings)) [
        | inl e ↦ rw (e, Rules.insert_one) (bound _)
        | inr (bindings, e) ↦ rw (e, Rules.insert_one) (bound _)
      ])
  where
    bound :
        (bindings : List RuleBinding)
        → IsValid
            (record c { object_rule_bindings = Map.insert id bindings c.object_rule_bindings })
    bound bindings =
        let (objects, users, keys, rules, b) = valid in
        (objects, users, keys, rules, Map.insert-IsMap id bindings c.object_rule_bindings b)
