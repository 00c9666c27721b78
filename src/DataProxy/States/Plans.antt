-- ===== src/DataProxy/States/Plans.antt =====
-- What is created for the missing parts of a path.
use aos_server.Base.{ℕ, ◌≡◌, refl, some, [], ◌∷◌, ok}
use aos_server.Enums.{ObjectType}
use aos_server.Enums.Api.{ResourceVariant}
use aos_server.ServerCache.{Ulid}
use aos_server.DataProxy.Objects.{
  S3Error, no_such_key, TypedRelation, ProxyObject, initialize_now, object_type_of_variant,
}
use aos_server.DataProxy.States.{
  ResourceState, found, missing, absent, ResourceStates, NewOrExistingObject, named, Planned,
  Generated, under, get_missing, new_or_existing, require_project, to_new_or_existing, as_found,
  tag,
}

-- A state holds a resource of the type, or the name of a missing one of the type's variant.
abbrev pub IsTyped : ObjectType → ResourceVariant → ResourceState → Type 0
IsTyped t v (found o) = o.object_type ≡ t
IsTyped t v (missing name variant) = variant ≡ v
IsTyped t v absent = Unit

pub record AreTyped (s : ResourceStates) : Type 0 where
  pub project : IsTyped ObjectType.project ResourceVariant.project s.project
  pub collection : IsTyped ObjectType.collection ResourceVariant.collection s.collection
  pub dataset : IsTyped ObjectType.dataset ResourceVariant.dataset s.dataset
  pub object : IsTyped ObjectType.object ResourceVariant.object s.object

-- What a state becomes: a resource that was found stays, and for a missing one there is a new resource
-- of the name and the type, whose one parent is the given one.
abbrev pub Plans : ObjectType → ResourceState → TypedRelation → NewOrExistingObject → Type 0
Plans t (found o) parent new = new ≡ NewOrExistingObject.existing o
Plans t (missing name variant) parent new =
    (o : ProxyObject) × (new ≡ NewOrExistingObject.missing o)
    × (o.name ≡ name)
    × (o.object_type ≡ t)
    × (o.parents ≡ some (parent ∷ []))
Plans t absent parent new = new ≡ NewOrExistingObject.absent

module _ (generated : Ulid) (now : ℕ) (parent : TypedRelation) (e : S3Error) where
  new_or_existing-Plans :
      (t : ObjectType) (v : ResourceVariant) (s : ResourceState)
      → object_type_of_variant v ≡ ok t
      → IsTyped t v s
      → (new : NewOrExistingObject) × (new_or_existing generated now parent e s ≡ ok new)
        × Plans t s parent new
  unfolding new_or_existing get_missing initialize_now
  new_or_existing-Plans t v (found o) is_t typed = (NewOrExistingObject.existing o, refl, refl)
  new_or_existing-Plans t v absent is_t typed = (NewOrExistingObject.absent, refl, refl)
  new_or_existing-Plans t v (missing name variant) is_t typed = (
    NewOrExistingObject.missing (initialize_now generated now name t (some parent)),
    rw (typed, is_t) refl,
    (initialize_now generated now name t (some parent), refl, refl, refl, refl),
  )

-- The parents: of a collection the project, of a dataset the collection or else the project, of an
-- object the dataset or else what a dataset would have.
abbrev pub IsPlan : ResourceStates → ProxyObject → Planned → Type 0
IsPlan s project p =
    (p.project ≡ NewOrExistingObject.existing project)
    × Plans ObjectType.collection s.collection (TypedRelation.project project.id) p.collection
    × Plans ObjectType.dataset s.dataset
        (under TypedRelation.collection (named p.collection) (TypedRelation.project project.id))
        p.dataset
    × Plans ObjectType.object s.object
        (under TypedRelation.dataset (named p.dataset)
          (under TypedRelation.collection (named p.collection) (TypedRelation.project project.id)))
        p.object

pub to_new_or_existing-IsPlan :
    (ids : Generated) (now : ℕ) (s : ResourceStates) (project : ProxyObject)
    → AreTyped s
    → s.project ≡ found project
    → (p : Planned) × (to_new_or_existing ids now s ≡ ok p) × IsPlan s project p
unfolding to_new_or_existing require_project object_type_of_variant as_found
to_new_or_existing-IsPlan ids now s project typed there =
    let above = TypedRelation.project project.id in
    let (collection, made_c, plan_c) =
      new_or_existing-Plans ids.collection now above (no_such_key "Collection not found")
        ObjectType.collection ResourceVariant.collection s.collection refl typed.collection in
    let above_d = under TypedRelation.collection (named collection) above in
    let (dataset, made_d, plan_d) =
      new_or_existing-Plans ids.dataset now above_d (no_such_key "Dataset not found")
        ObjectType.dataset ResourceVariant.dataset s.dataset refl typed.dataset in
    let above_o = under TypedRelation.dataset (named dataset) above_d in
    let (object, made_o, plan_o) =
      new_or_existing-Plans ids.object now above_o (no_such_key "Object not found")
        ObjectType.object ResourceVariant.object s.object refl typed.object in
    (
      record {
        project = NewOrExistingObject.existing project;
        collection = collection;
        dataset = dataset;
        object = object;
        tags = record {
          project = some (project.id, project.name);
          collection = tag (named collection);
          dataset = tag (named dataset);
          object = tag (named object);
        };
      },
      rw (there, made_c, made_d, made_o) refl,
      (refl, plan_c, plan_d, plan_o),
    )
