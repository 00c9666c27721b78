-- ===== src/ServerCache/Rules.antt =====
-- The rules of the cache and the bindings of rules to objects.
pub mod Bindings
use aos_server.Base.{
  ℕ, Bool, not, ◌&&◌, Option, none, some, List, [], ◌∷◌, ◌++◌, ◌==◌, keep, is_nil, if◌then◌else◌,
}
use aos_server.Base.Map
use aos_server.Base.Map.{Map}
use aos_server.ServerCache.{Ulid, RuleBinding, Rule, Cache}

unfoldable pub get_rule_bindings : Ulid → Cache → Option (List RuleBinding)
get_rule_bindings id c = Map.get id c.object_rule_bindings

-- One round of the loop of `insert_rule_binding`.
unfoldable pub insert_one : RuleBinding → Ulid → Cache → Cache
unfolding get_rule_bindings
insert_one binding id c = elim (get_rule_bindings id c) [
  | some bindings ↦ record c {
    object_rule_bindings = Map.insert id (bindings ++ binding ∷ []) c.object_rule_bindings;
  }
  | none ↦ record c { object_rule_bindings = Map.insert id (binding ∷ []) c.object_rule_bindings }
]

unfoldable pub insert_rule_binding : List Ulid → RuleBinding → Cache → Cache
insert_rule_binding [] binding c = c
insert_rule_binding (id ∷ ids) binding c = insert_rule_binding ids binding (insert_one binding id c)

abbrev pub stays : Ulid → Ulid → RuleBinding → Bool
stays resource_id rule_id b = not (b.rule_id == rule_id) && not (b.origin_id == resource_id)

unfoldable pub remove_rule_bindings : Ulid → Ulid → Cache → Cache
remove_rule_bindings resource_id rule_id c =
    let updated = Map.map_values (keep (stays resource_id rule_id)) c.object_rule_bindings in
    record c { object_rule_bindings = Map.retain (λ v. not (is_nil v)) updated }

unfoldable pub get_rule : Ulid → Cache → Option Rule
get_rule id c = Map.get id c.object_rules

unfoldable pub insert_rule : Ulid → Rule → Cache → Cache
insert_rule id rule c = record c { object_rules = Map.insert id rule c.object_rules }

unfoldable pub delete_rule : Ulid → Cache → Cache
delete_rule id c = record c {
  object_rules = Map.remove id c.object_rules;
  object_rule_bindings =
      Map.map_values (keep (λ binding. binding.rule_id == id)) c.object_rule_bindings;
}

abbrev public_rules : List Rule → List Rule
public_rules [] = []
public_rules (rule ∷ rs) = if rule.is_public then rule ∷ public_rules rs else public_rules rs

unfoldable pub list_rules : Cache → List Rule
list_rules c = public_rules (Map.values c.object_rules)
