-- ===== src/DataProxy/Caching/Paths/Entered.antt =====
-- The paths of an object that is entered into the proxy's cache.
use Prim.Native.String.{◌++◌ as ◌<>◌}
use text.Mathlib.Text.{◌==◌ as str_eq}
use aos_server.Base.{
  ℕ, suc, String, true, false, not, ◌&&◌, ◌≡◌, refl, inl, inr, Option, none, some, List, [], ◌∷◌,
  Bool-cases, Option-cases, ok, if◌then◌else◌,
}
use aos_server.Base.Map
use aos_server.Base.Texts.{put}
use aos_server.ServerCache.{Ulid}
use aos_server.DataProxy.Format.{ObjectLocation}
use aos_server.DataProxy.Objects.{ProxyObject, TypedId, TypedRelation, typed, typed_id}
use aos_server.DataProxy.Caching.{ProxyCache}
use aos_server.DataProxy.Caching.Graph.{
  collect, collect_some, none_if_nil, get_parents, get_suffixes, get_name_trees,
}
use aos_server.DataProxy.Caching.Paths.{
  upsert_object, enter_object, enter_paths, update_object_name, with_paths, no_parents, is_project,
  put_each, erase_each, old_name, move_paths,
}
use aos_server.DataProxy.Caching.Paths.Lost.{
  get_prefixes-rootless, get_name_trees-rootless, typed_id-typed,
}

enter_object-get :
    (o : ProxyObject) (c : ProxyCache)
    → (location : Option ObjectLocation) × (Map.get o.id (enter_object o c).resources
        ≡ some (o, location))
unfolding enter_object
enter_object-get o c = elim (Option-cases (Map.get o.id c.resources)) [
  | inl e ↦ (none, rw (e, enter_object) (Map.get-insert_self o.id (o, none) c.resources))
  | inr ((old, location), e) ↦
      (location, rw (e, enter_object) (Map.get-insert_self o.id (o, location) c.resources))
]

-- No paths of the cache are looked at.
enter_object-paths : (o : ProxyObject) (c : ProxyCache) → (enter_object o c).paths ≡ c.paths
unfolding enter_object
enter_object-paths o c = elim (Option-cases (Map.get o.id c.resources)) [
  | inl e ↦ rw (e, enter_object)
  | inr ((old, location), e) ↦ rw (e, enter_object)
]

-- Without parents the search for prefixes ends at once.
rootless :
    (o : ProxyObject) (location : Option ObjectLocation) (c : ProxyCache)
    → Map.get o.id c.resources ≡ some (o, location)
    → no_parents o.parents ≡ true
    → get_parents o.id c ≡ none
unfolding get_parents collect
rootless o location c e orphan = rw (e, get_parents) (by_parents o.parents orphan)
  where
    by_parents :
        (parents : Option (List TypedRelation))
        → no_parents parents ≡ true
        → none_if_nil (collect_some c parents) ≡ none
    by_parents none h = refl
    by_parents (some []) h = refl
    by_parents (some (p ∷ ps)) h = cc

enter_paths-nil :
    (o : ProxyObject) (paths : List (String × Ulid))
    → enter_paths o [] paths ≡ (if is_project o.object_type then put o.name o.id paths else paths)
unfolding enter_paths put_each erase_each
enter_paths-nil o paths =
    elim (Bool-cases (no_parents o.parents && not (is_project o.object_type))) [
      | inl e ↦ rw e
      | inr e ↦ rw e
    ]

update_object_name-nil :
    (fuel : ℕ) (id : TypedId) (old new : String) (c : ProxyCache)
    → get_name_trees fuel id old c ≡ some []
    → get_name_trees fuel id new c ≡ some []
    → update_object_name fuel id old new c ≡ some c
unfolding update_object_name move_paths
update_object_name-nil fuel id old new c olds news = rw (olds, update_object_name) (rw news)

-- The cache with the object, and with the path of a project.
abbrev pub entered : ProxyObject → ProxyCache → ProxyCache
entered o c =
    with_paths (enter_object o c)
      (if is_project o.object_type then put o.name o.id c.paths else c.paths)

-- An object without parents, its fuel enough for what lies below it: the name of a project leads to
-- it, and no path is removed, neither one to the object nor one of an old name.
upsert_object-rootless :
    (fuel : ℕ) (o : ProxyObject) (c : ProxyCache) (suffixes : List (TypedId × String))
    → no_parents o.parents ≡ true
    → get_suffixes (suc (suc fuel)) (typed o) false (entered o c) ≡ some suffixes
    → upsert_object (suc (suc fuel)) (ok tt) false o c ≡ some (ok tt, entered o c)
unfolding upsert_object typed_id
upsert_object-rootless fuel o c suffixes orphan below =
    let (location, cached) = enter_object-get o c in
    let none_above = rootless o location (enter_object o c) cached orphan in
    let none_above' : get_parents (typed_id (typed o)) (entered o c) ≡ none =
      rw (typed_id-typed o) (rootless o location (entered o c) cached orphan) in
    rw
      (
        get_prefixes-rootless fuel (TypedId.unknown o.id) (enter_object o c) none_above,
        upsert_object,
      )
      (rw (enter_paths-nil o c.paths) (elim (Bool-cases (str_eq (old_name o c) o.name)) [
        | inl same ↦ rw same
        | inr other ↦ rw (
          other,
          update_object_name-nil (suc (suc fuel)) (typed o) (old_name o c) o.name (entered o c)
              (get_name_trees-rootless fuel (typed o) (old_name o c) (entered o c) suffixes
                none_above' below)
              (get_name_trees-rootless fuel (typed o) o.name (entered o c) suffixes none_above'
                below),
        )
      ]))
