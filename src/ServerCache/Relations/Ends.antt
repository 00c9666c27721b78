-- ===== src/ServerCache/Relations/Ends.antt =====
-- What is entered at the ends of a relation, and what that does to the searches for projects.
use text.Mathlib.Text.{◌==◌ as str_eq}
use aos_server.Base.{
  ℕ, ◌≡◌, refl, ◌∙◌, true, false, none, some, inl, inr, List, [], ◌∷◌, ◌==◌, Bool-cases,
  Option-cases, In, ==→eq, ==_refl, if◌then◌else◌,
}
use aos_server.Base.Map
use aos_server.Base.Map.{Map}
use aos_server.ServerCache.{Ulid, InternalRelation, ObjectWithRelations, Cache}
use aos_server.ServerCache.Objects.{belongs_to, get_object, get_parents}
use aos_server.ServerCache.Relations.{
  add_outbound, add_inbound, modify, update_relation, update_relations,
}
use aos_server.ServerCache.Upstream.{is_project}

-- An id is cached, with an object of this kind.
abbrev pub Holds : (ObjectWithRelations → Type 0) → Ulid → Cache → Type 0
Holds P id c = (o : ObjectWithRelations) × (get_object id c ≡ some o) × P o

module _ (P Q : ObjectWithRelations → Type 0) (f : ObjectWithRelations → ObjectWithRelations)
    (id : Ulid) where
  modify-some :
      (c : Cache) (o : ObjectWithRelations)
      → get_object id c ≡ some o
      → modify id f c ≡ record c { object_cache = Map.insert id (f o) c.object_cache }
  unfolding get_object
  modify-some c o e = rw (e, modify)

  modify-none : (c : Cache) → get_object id c ≡ none → modify id f c ≡ c
  unfolding get_object
  modify-none c e = rw (e, modify)

  get_object-insert :
      (j : Ulid) (c : Cache) (o : ObjectWithRelations)
      → get_object j (record c { object_cache = Map.insert id o c.object_cache })
        ≡ (if id == j then some o else get_object j c)
  unfolding get_object
  get_object-insert j c o = Map.get-insert id j o c.object_cache

  modify-Holds_self :
      (c : Cache)
      → ((o : ObjectWithRelations) → P o → Q (f o))
      → Holds P id c
      → Holds Q id (modify id f c)
  modify-Holds_self c h (o, e, p) =
      (f o, rw (modify-some c o e, get_object-insert id c (f o), ==_refl id) refl, h o p)

  pub modify-Holds :
      (j : Ulid) (c : Cache)
      → ((o : ObjectWithRelations) → P o → P (f o))
      → Holds P j c
      → Holds P j (modify id f c)
  modify-Holds j c h (o, e, p) = elim (Option-cases (get_object id c)) [
    | inl absent ↦ rw (modify-none c absent) (o, e, p)
    | inr (o', e') ↦ elim (Bool-cases (id == j)) [
      | inl same ↦
          let same' = ==→eq id j same in
          let one : o' ≡ o = cc in
          (f o, rw (modify-some c o' e', get_object-insert j c (f o'), same, one) refl, h o p)
      | inr other ↦ (o, rw (modify-some c o' e', get_object-insert j c (f o'), other) e, p)
    ]
  ]

-- A cached object, no project, of which `k` counts as a parent.
abbrev pub IsBelow : Ulid → ObjectWithRelations → Type 0
IsBelow k o = (is_project o ≡ false) × In k (get_parents o)

abbrev IsLow : ObjectWithRelations → Type 0
IsLow o = is_project o ≡ false

In-keys-insert_self : {V : Type 0} (k : ℕ) (v : V) (m : Map V) → In k (Map.keys (Map.insert k v m))
unfolding Map.insert
In-keys-insert_self k v [] = inl refl
In-keys-insert_self k v ((j, w) ∷ m) = elim (Bool-cases (j == k)) [
  | inl same ↦ rw same (inl refl)
  | inr other ↦ rw other (inr (In-keys-insert_self k v m))
]

In-keys-insert :
    {V : Type 0} (k i : ℕ) (v : V) (m : Map V)
    → In i (Map.keys m)
    → In i (Map.keys (Map.insert k v m))
unfolding Map.insert
In-keys-insert k i v [] h = absurd h
In-keys-insert k i v ((j, w) ∷ m) h = elim (Bool-cases (j == k)) [
  | inl same ↦ elim h [
    | inl e ↦ rw same (inl (e ∙ ==→eq j k same))
    | inr later ↦ rw same (inr later)
  ]
  | inr other ↦ elim h [
    | inl e ↦ rw other (inl e)
    | inr later ↦ rw other (inr (In-keys-insert k i v m later))
  ]
]

module _ (r : InternalRelation) where
  add_outbound-IsLow : (o : ObjectWithRelations) → IsLow o → IsLow (add_outbound r o)
  add_outbound-IsLow o h = elim (Bool-cases (str_eq r.relation_name belongs_to)) [
    | inl e ↦ rw e h
    | inr e ↦ rw e h
  ]

  add_outbound-IsBelow :
      (k : Ulid) (o : ObjectWithRelations) → IsBelow k o → IsBelow k (add_outbound r o)
  unfolding get_parents
  add_outbound-IsBelow k o h = elim (Bool-cases (str_eq r.relation_name belongs_to)) [
    | inl e ↦ rw e h
    | inr e ↦ rw e h
  ]

  add_inbound-IsLow : (o : ObjectWithRelations) → IsLow o → IsLow (add_inbound r o)
  add_inbound-IsLow o h = elim (Bool-cases (str_eq r.relation_name belongs_to)) [
    | inl e ↦ rw e h
    | inr e ↦ rw e h
  ]

  add_inbound-IsBelow :
      (k : Ulid) (o : ObjectWithRelations) → IsBelow k o → IsBelow k (add_inbound r o)
  unfolding get_parents
  add_inbound-IsBelow k o h = elim (Bool-cases (str_eq r.relation_name belongs_to)) [
    | inl e ↦ rw e (h.0, In-keys-insert r.target_pid k r o.inbound_belongs_to h.1)
    | inr e ↦ rw e h
  ]

  add_inbound-own_parent :
      str_eq r.relation_name belongs_to ≡ true
      → (o : ObjectWithRelations) → IsLow o
      → IsBelow r.target_pid (add_inbound r o)
  unfolding get_parents
  add_inbound-own_parent named o h =
      rw named (h, In-keys-insert_self r.target_pid r o.inbound_belongs_to)

  update_relation-IsLow :
      (j : Ulid) (c : Cache) → Holds IsLow j c → Holds IsLow j (update_relation r c)
  unfolding update_relation
  update_relation-IsLow j c h =
      modify-Holds IsLow IsLow (add_inbound r) r.target_pid j
        (modify r.origin_pid (add_outbound r) c) add_inbound-IsLow
        (modify-Holds IsLow IsLow (add_outbound r) r.origin_pid j c add_outbound-IsLow h)

  update_relation-IsBelow :
      (k j : Ulid) (c : Cache) → Holds (IsBelow k) j c → Holds (IsBelow k) j (update_relation r c)
  unfolding update_relation
  update_relation-IsBelow k j c h =
      modify-Holds (IsBelow k) (IsBelow k) (add_inbound r) r.target_pid j
        (modify r.origin_pid (add_outbound r) c) (add_inbound-IsBelow k)
        (modify-Holds (IsBelow k) (IsBelow k) (add_outbound r) r.origin_pid j c
          (add_outbound-IsBelow k) h)

  update_relation-own_parent :
      (c : Cache)
      → str_eq r.relation_name belongs_to ≡ true
      → Holds IsLow r.target_pid c
      → Holds (IsBelow r.target_pid) r.target_pid (update_relation r c)
  unfolding update_relation
  update_relation-own_parent c named h =
      modify-Holds_self IsLow (IsBelow r.target_pid) (add_inbound r) r.target_pid
        (modify r.origin_pid (add_outbound r) c) (add_inbound-own_parent named)
        (modify-Holds IsLow IsLow (add_outbound r) r.origin_pid r.target_pid c add_outbound-IsLow h)

update_relations-IsBelow :
    (rs : List InternalRelation) (k j : Ulid) (c : Cache)
    → Holds (IsBelow k) j c
    → Holds (IsBelow k) j (update_relations rs c)
unfolding update_relations
update_relations-IsBelow [] k j c h = h
update_relations-IsBelow (r ∷ rs) k j c h =
    update_relations-IsBelow rs k j (update_relation r c) (update_relation-IsBelow r k j c h)

-- A `BELONGS_TO` relation among those added enters its target, cached and no project, as a parent of
-- the target itself.
pub update_relations-own_parent :
    (r : InternalRelation) (rs : List InternalRelation) (c : Cache)
    → In r rs
    → str_eq r.relation_name belongs_to ≡ true
    → Holds (λ o. is_project o ≡ false) r.target_pid c
    → Holds (IsBelow r.target_pid) r.target_pid (update_relations rs c)
unfolding update_relations
update_relations-own_parent r [] c m named h = absurd m
update_relations-own_parent r (r' ∷ rs) c (inl e) named h =
    update_relations-IsBelow rs r.target_pid r.target_pid (update_relation r' c)
      (rw (← e) (update_relation-own_parent r c named h))
update_relations-own_parent r (r' ∷ rs) c (inr m) named h =
    update_relations-own_parent r rs (update_relation r' c) m named
      (update_relation-IsLow r' r.target_pid c h)
