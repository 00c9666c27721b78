-- ===== src/Examples/Upkeep.antt =====
-- Calls that change the cache of the small instance.
use aos_server.Base.{◌≡◌, ◌≢◌, ◌↔◌, refl, none, some, [], ◌∷◌, ◌==◌, In, if◌then◌else◌}
use aos_server.Base.Map
use aos_server.ServerCache.{Cache, new}
use aos_server.ServerCache.Objects.{insert_object, remove_object}
use aos_server.ServerCache.Rules.{
  get_rule_bindings, get_rule, insert_rule_binding, delete_rule, remove_rule_bindings,
}
use aos_server.ServerCache.Rules.Bindings.{
  bindings_of, delete_rule-bindings_of, remove_rule_bindings-bindings_of,
}
use aos_server.ServerCache.Invariant.{
  Steps, none_yet, then_step, object_inserted, object_removed, bindings_inserted,
}
use aos_server.ServerCache.Invariant.Stay.{IsCached}
use aos_server.Examples.World.{world, binding, resource_one}

delete_rule-bindings_of_example :
    (get_rule 4 (delete_rule 70 world) ≡ (if 70 == 4 then none else get_rule 4 world))
    × (In binding (bindings_of 4 (delete_rule 70 world))
        ↔ (In binding (bindings_of 4 world) × (binding.rule_id ≡ 70)))
delete_rule-bindings_of_example = delete_rule-bindings_of 70 4 binding world

bindings-IsMap : Map.IsMap world.object_rule_bindings
unfolding Map.get
bindings-IsMap = (refl, tt)

remove_rule_bindings-bindings_of_example :
    (In binding (bindings_of 4 (remove_rule_bindings 1 71 world))
      ↔ (In binding (bindings_of 4 world) × (binding.rule_id ≢ 71) × (binding.origin_id ≢ 1)))
    × (get_rule_bindings 4 (remove_rule_bindings 1 71 world) ≢ some [])
remove_rule_bindings-bindings_of_example =
    remove_rule_bindings-bindings_of 1 71 4 binding world bindings-IsMap

abbrev pub filled : Cache
filled = insert_rule_binding (1 ∷ []) binding (remove_object 1 (insert_object resource_one new))

pub filling : Steps new filled
filling =
    then_step (then_step (then_step none_yet (object_inserted resource_one)) (object_removed 1))
      (bindings_inserted (1 ∷ []) binding)

abbrev with_one : Cache
with_one = insert_object resource_one new

one-IsCached : IsCached 1 with_one
unfolding insert_object Map.insert Map.get
one-IsCached = refl
