-- ===== src/ServerCache/Hierarchy/Children.antt =====
-- Which resources a hierarchy describes as children.
use aos_server.Base.{
  ◌≡◌, refl, ap, some, inl, inr, List, [], ◌∷◌, Bool-cases, In, Result, ok, err, Error, message,
  length, keep, replicate,
}
use aos_server.Base.Map
use aos_server.Enums.{ObjectType}
use aos_server.ServerCache.{Ulid, InternalRelation, ObjectWithRelations, Cache}
use aos_server.ServerCache.Objects.{get_object}
use aos_server.ServerCache.Hierarchy.{
  Graph, targets_type, get_object_children, get_dataset_relations, graph_of, each_of_type,
  get_collection_children, get_project_children, get_hierarchy,
}

abbrev pub targets_of : ObjectType → ObjectWithRelations → List InternalRelation
targets_of t o = keep (targets_type t) (Map.values o.outbound_belongs_to)

-- The outbound relations of a resource start at it.
abbrev pub StartsAt : Ulid → ObjectWithRelations → Type 0
StartsAt id o = (r : InternalRelation) → In r (Map.values o.outbound_belongs_to) → r.origin_pid ≡ id

each_of_type-replicate {ℓ} :
    {A : Type ℓ} (t : ObjectType) (f : ObjectWithRelations → A) (c : Cache) (id : Ulid)
    (o : ObjectWithRelations) (rs : List InternalRelation)
    → get_object id c ≡ some o
    → ((r : InternalRelation) → In r rs → r.origin_pid ≡ id)
    → each_of_type t f c rs ≡ replicate (length (keep (targets_type t) rs)) (f o)
unfolding each_of_type
each_of_type-replicate t f c id o [] e starts = refl
each_of_type-replicate t f c id o (r ∷ rs) e starts = elim (Bool-cases (targets_type t r)) [
  | inl matches ↦
      rw (matches, starts r (inl refl), e)
        (ap (λ l. f o ∷ l) (each_of_type-replicate t f c id o rs e (λ s m. starts s (inr m))))
  | inr differs ↦ rw differs (each_of_type-replicate t f c id o rs e (λ s m. starts s (inr m)))
]

-- A resource in the place of each of its children of a type.
abbrev pub copies {ℓ} : {A : Type ℓ} → ObjectType → ObjectWithRelations → A → List A
copies t o a = replicate (length (targets_of t o)) a

abbrev pub self_described : Cache → ObjectWithRelations → ObjectType → Result Error Graph
self_described c o ObjectType.project = ok (
    Graph.project (record {
      origin = o.object.id;
      collection_children = copies ObjectType.collection o (get_collection_children o c);
      dataset_children = copies ObjectType.dataset o (get_dataset_relations o);
      object_children = get_object_children o;
    }))
self_described c o ObjectType.collection = ok (
    Graph.collection (record {
      origin = o.object.id;
      dataset_children = copies ObjectType.dataset o (get_dataset_relations o);
      object_children = get_object_children o;
    }))
self_described c o ObjectType.dataset = ok (Graph.dataset (get_dataset_relations o))
self_described c o ObjectType.object = err (message "Objects do not have a hierarchy")

-- The hierarchy of a cached resource whose outbound relations start at it has, in the place of each
-- collection and dataset below it, a description of the resource itself; the objects right below it
-- are listed as they are.
pub get_hierarchy-self_described :
    (id : Ulid) (c : Cache) (o : ObjectWithRelations)
    → get_object id c ≡ some o
    → StartsAt id o
    → get_hierarchy id c ≡ self_described c o o.object.object_type
unfolding get_hierarchy get_project_children get_collection_children
get_hierarchy-self_described id c o e starts = rw (e, get_hierarchy) (by_type o.object.object_type)
  where
    rs : List InternalRelation
    rs = Map.values o.outbound_belongs_to

    by_type : (t : ObjectType) → graph_of o c t ≡ self_described c o t
    by_type ObjectType.project = cc (
      each_of_type-replicate ObjectType.collection (λ col. get_collection_children col c) c id o rs
          e starts,
      each_of_type-replicate ObjectType.dataset get_dataset_relations c id o rs e starts,
    )
    by_type ObjectType.collection =
        cc (each_of_type-replicate ObjectType.dataset get_dataset_relations c id o rs e starts)
    by_type ObjectType.dataset = refl
    by_type ObjectType.object = refl
