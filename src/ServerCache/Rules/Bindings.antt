-- ===== src/ServerCache/Rules/Bindings.antt =====
-- What happens to the rules bound to an object.
use mathlib.Core.List.{append-nil, append_assoc}
use aos_server.Base.{
  ℕ, suc, ◌≡◌, ◌≢◌, refl, sym, ap, ◌∙◌, ◌↔◌, inl, inr, Bool, not, Option, none, some, List, [], ◌∷◌,
  ◌++◌, ◌==◌, ==→eq, if◌then◌else◌, Bool-cases, Option-cases, In, In-keep, keep, is_nil, replicate,
  arith,
}
use aos_server.Base.Map
use aos_server.ServerCache.{Ulid, RuleBinding, Cache}
use aos_server.ServerCache.Objects.{or_empty}
use aos_server.ServerCache.Rules.{
  get_rule_bindings, insert_one, insert_rule_binding, stays, remove_rule_bindings, get_rule,
  delete_rule,
}

-- The bindings of an object; none for one that has no entry.
abbrev pub bindings_of : Ulid → Cache → List RuleBinding
bindings_of j c = or_empty (get_rule_bindings j c)

-- How often an id is listed.
abbrev pub occurrences : Ulid → List Ulid → ℕ
occurrences j [] = 0
occurrences j (id ∷ ids) = if id == j then suc (occurrences j ids) else occurrences j ids

pub insert_one-bindings_of :
    (binding : RuleBinding) (id j : Ulid) (c : Cache)
    → bindings_of j (insert_one binding id c)
      ≡ (if id == j then bindings_of j c ++ binding ∷ [] else bindings_of j c)
unfolding insert_one get_rule_bindings
insert_one-bindings_of binding id j c = elim (Option-cases (Map.get id c.object_rule_bindings)) [
  | inl e ↦
      rw (e, insert_one) (ground (arith, Map.get-insert id j (binding ∷ []) c.object_rule_bindings))
  | inr (bs, e) ↦
      rw (e, insert_one)
        (ground (arith, Map.get-insert id j (bs ++ binding ∷ []) c.object_rule_bindings))
]

-- `insert_rule_binding` appends the binding to the bindings of each listed object, once for each
-- time that the object is listed, and leaves those of all others.
insert_rule_binding-bindings_of :
    (ids : List Ulid) (binding : RuleBinding) (j : Ulid) (c : Cache)
    → bindings_of j (insert_rule_binding ids binding c)
      ≡ bindings_of j c ++ replicate (occurrences j ids) binding
unfolding insert_rule_binding
insert_rule_binding-bindings_of [] binding j c = sym (append-nil (bindings_of j c))
insert_rule_binding-bindings_of (id ∷ ids) binding j c =
    insert_rule_binding-bindings_of ids binding j (insert_one binding id c)
    ∙ rw (insert_one-bindings_of binding id j c) (elim (Bool-cases (id == j)) [
      | inl e ↦ rw e (append_assoc (bindings_of j c) (binding ∷ []) _)
      | inr e ↦ rw e
    ])

or_empty-map_option :
    (p : RuleBinding → Bool) (o : Option (List RuleBinding))
    → or_empty (Map.map_option (keep p) o) ≡ keep p (or_empty o)
or_empty-map_option p none = refl
or_empty-map_option p (some bs) = refl

abbrev nonempty : List RuleBinding → Bool
nonempty v = not (is_nil v)

or_empty-nonempty :
    (o : Option (List RuleBinding))
    → (or_empty (Map.filter_option nonempty o) ≡ or_empty o)
      × (Map.filter_option nonempty o ≢ some [])
or_empty-nonempty none = (refl, λ e. cc)
or_empty-nonempty (some []) = (refl, λ e. cc)
or_empty-nonempty (some (b ∷ bs)) = (refl, λ e. cc)

-- `delete_rule` removes the rule and no other; of the bindings it keeps exactly those of the
-- deleted rule, on every object, and drops those of all other rules.
pub delete_rule-bindings_of :
    (id j : Ulid) (b : RuleBinding) (c : Cache)
    → (get_rule j (delete_rule id c) ≡ (if id == j then none else get_rule j c))
      × (In b (bindings_of j (delete_rule id c)) ↔ (In b (bindings_of j c) × (b.rule_id ≡ id)))
unfolding delete_rule get_rule get_rule_bindings
delete_rule-bindings_of id j b c = (
  Map.get-remove id j c.object_rules,
  (rw
      (
        Map.get-map_values (keep own) j c.object_rule_bindings,
        or_empty-map_option own (Map.get j c.object_rule_bindings),
      )
      (
        (λ m. let (m', t) = (In-keep own b old).0 m in (m', ==→eq b.rule_id id t)),
        (λ (m, e). (In-keep own b old).1 (m, ground arith)),
      )),
)
  where
    own : RuleBinding → Bool
    own binding = binding.rule_id == id

    old : List RuleBinding
    old = bindings_of j c

-- `remove_rule_bindings` keeps, on every object, exactly the bindings that have neither the rule's
-- id nor the resource as their origin, and leaves no object with an empty list.
pub remove_rule_bindings-bindings_of :
    (resource_id rule_id j : Ulid) (b : RuleBinding) (c : Cache)
    → Map.IsMap c.object_rule_bindings
    → (In b (bindings_of j (remove_rule_bindings resource_id rule_id c))
        ↔ (In b (bindings_of j c) × (b.rule_id ≢ rule_id) × (b.origin_id ≢ resource_id)))
      × (get_rule_bindings j (remove_rule_bindings resource_id rule_id c) ≢ some [])
unfolding remove_rule_bindings get_rule_bindings
remove_rule_bindings-bindings_of resource_id rule_id j b c valid =
    let p = stays resource_id rule_id in
    let m = c.object_rule_bindings in
    let updated = Map.map_values (keep p) m in
    let found : Map.get j (Map.retain nonempty updated)
        ≡ Map.filter_option nonempty (Map.map_option (keep p) (Map.get j m)) =
      Map.get-retain nonempty j updated (Map.map_values-IsMap (keep p) m valid)
      ∙ ap (Map.filter_option nonempty) (Map.get-map_values (keep p) j m) in
    let (same, full) = or_empty-nonempty (Map.map_option (keep p) (Map.get j m)) in
    let kept = In-keep p b (bindings_of j c) in
    (
      rw (found, same, or_empty-map_option p (Map.get j m))
          (
            (λ i. let (i', t) = kept.0 i in (i', ground arith, ground arith)),
            (λ (i, x, y). kept.1 (i, ground arith)),
          ),
      rw found full,
    )
