-- ===== src/DataProxy/Caching/Paths/Lost.antt =====
-- Paths that stay although what they lead to is gone, renamed or cut off.
use aos_server.Base.{
  arith, ℕ, suc, String, false, ◌≡◌, refl, Option, none, some, List, [], ◌∷◌, ==_refl, ok,
}
use aos_server.Base.Map
use aos_server.ServerCache.{Ulid}
use aos_server.DataProxy.Format.{ObjectLocation}
use aos_server.DataProxy.Objects.{ProxyObject, TypedId, typed, typed_id}
use aos_server.DataProxy.Caching.{ProxyCache}
use aos_server.DataProxy.Caching.Graph.{
  get_parents, get_children, climb, descend, get_prefixes, get_suffixes, get_name_trees, spell_all,
  paths_along,
}
use aos_server.DataProxy.Caching.Paths.{erase_all, forget, take_out, delete_object, with_paths}

-- Without parents the search for prefixes finds nothing.
pub get_prefixes-rootless :
    (fuel : ℕ) (id : TypedId) (c : ProxyCache)
    → get_parents (typed_id id) c ≡ none
    → get_prefixes (suc (suc fuel)) id false c ≡ some []
unfolding get_prefixes climb paths_along
get_prefixes-rootless fuel id c rootless = rw (rootless, climb)

pub get_name_trees-rootless :
    (fuel : ℕ) (id : TypedId) (name : String) (c : ProxyCache) (suffixes : List (TypedId × String))
    → get_parents (typed_id id) c ≡ none
    → get_suffixes (suc (suc fuel)) id false c ≡ some suffixes
    → get_name_trees (suc (suc fuel)) id name c ≡ some []
unfolding get_name_trees spell_all
get_name_trees-rootless fuel id name c suffixes rootless e =
    rw (get_prefixes-rootless fuel id c rootless, e, get_name_trees)

pub typed_id-typed : (o : ProxyObject) → typed_id (typed o) ≡ o.id
unfolding typed_id typed
typed_id-typed o = ground arith

-- A resource that was taken out has neither parents nor children.
forget-get : (id : Ulid) (c : ProxyCache) → Map.get id (forget id c).resources ≡ none
unfolding forget
forget-get id c = rw (Map.get-remove id id c.resources, ==_refl id)

get_parents-absent :
    (id : Ulid) (c : ProxyCache) → Map.get id c.resources ≡ none → get_parents id c ≡ none
unfolding get_parents
get_parents-absent id c e = rw (e, get_parents)

get_children-absent :
    (id : Ulid) (c : ProxyCache) → Map.get id c.resources ≡ none → get_children id c ≡ none
unfolding get_children
get_children-absent id c e = rw (e, get_children)

get_suffixes-absent :
    (fuel : ℕ) (id : TypedId) (c : ProxyCache)
    → Map.get (typed_id id) c.resources ≡ none
    → get_suffixes (suc (suc fuel)) id false c ≡ some ((id, "") ∷ [])
unfolding get_suffixes descend
get_suffixes-absent fuel id c e = rw (get_children-absent (typed_id id) c e, descend)

-- Deleting an object leaves every path: the object is taken out of the cache before the paths that
-- lead to it are looked for.
pub delete_object-paths :
    (fuel : ℕ) (id : Ulid) (o : ProxyObject) (location : Option ObjectLocation) (c : ProxyCache)
    → Map.get id c.resources ≡ some (o, location)
    → o.id ≡ id
    → (c' : ProxyCache) × (delete_object (suc (suc fuel)) (ok tt) (ok tt) id c ≡ some (ok tt, c'))
      × (Map.get id c'.resources ≡ none)
      × (c'.paths ≡ c.paths)
unfolding delete_object take_out erase_all
delete_object-paths fuel id o location c e own = (
  with_paths (forget id c) c.paths,
  rw (e, take_out)
      (rw
        (get_name_trees-rootless fuel (typed o) o.name (forget id c) ((typed o, "") ∷ [])
          (get_parents-absent (typed_id (typed o)) (forget id c) absent)
          (get_suffixes-absent fuel (typed o) (forget id c) absent))
        refl),
  forget-get id c,
  refl,
)
  where
    absent : Map.get (typed_id (typed o)) (forget id c).resources ≡ none
    absent = rw (typed_id-typed o, own) (forget-get id c)
