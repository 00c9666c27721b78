-- ===== src/DataProxy/Caching/Paths.antt =====
-- How resources enter and leave the proxy's cache, and the paths that lead to them: `upsert_object`,
-- `update_object_name` and `delete_object` of components/data_proxy/src/caching/cache.rs. `stored` is
-- the outcome of the queries. `none` means that the fuel of a search ran out.
pub mod Lost
pub mod Entered
use text.Mathlib.Text.{◌==◌ as str_eq}
use Prim.Native.String.{◌++◌ as ◌<>◌}
use aos_server.Base.{
  ℕ, String, Bool, true, false, not, ◌&&◌, Option, none, some, List, [], ◌∷◌, ◌==◌, is_nil, Result,
  ok, err, Error, message, if◌then◌else◌,
}
use aos_server.Base.Map
use aos_server.Base.Texts.{lookup, put, erase}
use aos_server.Enums.{ObjectType}
use aos_server.ServerCache.{Ulid}
use aos_server.DataProxy.Format.{ObjectLocation}
use aos_server.DataProxy.Objects.{ProxyObject, TypedRelation, TypedId, typed}
use aos_server.DataProxy.Caching.{ProxyCache, UploadPart}
use aos_server.DataProxy.Caching.Graph.{get_prefixes, get_name_trees}

abbrev pub Outcome : Type 0
Outcome = Option (Result Error (Unit {0}) × ProxyCache)

abbrev pub with_paths : ProxyCache → List (String × Ulid) → ProxyCache
with_paths c paths = record c { paths = paths }

unfoldable pub get_resource_by_path : String → ProxyCache → Option Ulid
get_resource_by_path path c = lookup path c.paths

unfoldable pub get_full_resource_by_path : String → ProxyCache → Option ProxyObject
unfolding get_resource_by_path
get_full_resource_by_path path c = elim (get_resource_by_path path c) [
  | none ↦ none
  | some id ↦ elim (Map.get id c.resources) [ none ↦ none | some (o, location) ↦ some o ]
]

-- One path moves if there is one.
abbrev move_path : String → String → List (String × Ulid) → List (String × Ulid)
move_path old new paths = elim (lookup old paths) [
  | none ↦ paths
  | some id ↦ put new id (erase old paths)
]

unfoldable pub move_paths : List String → List String → List (String × Ulid) → List (String × Ulid)
move_paths (old ∷ olds) (new ∷ news) paths = move_paths olds news (move_path old new paths)
move_paths [] news paths = paths
move_paths (old ∷ olds) [] paths = paths

unfoldable pub update_object_name : ℕ → TypedId → String → String → ProxyCache → Option ProxyCache
unfolding move_paths
update_object_name fuel id old_name new_name c = elim (get_name_trees fuel id old_name c) [
  | none ↦ none
  | some olds ↦ elim (get_name_trees fuel id new_name c) [
    | none ↦ none
    | some news ↦ some (with_paths c (move_paths olds news c.paths))
  ]
]

-- The object in place of a cached one, whose location stays, or without a location.
unfoldable pub enter_object : ProxyObject → ProxyCache → ProxyCache
enter_object o c = elim (Map.get o.id c.resources) [
  | none ↦ record c { resources = Map.insert o.id (o, none) c.resources }
  | some (old, location) ↦ record c { resources = Map.insert o.id (o, location) c.resources }
]

abbrev pub old_name : ProxyObject → ProxyCache → String
old_name o c = elim (Map.get o.id c.resources) [ none ↦ o.name | some (old, location) ↦ old.name ]

abbrev pub is_project : ObjectType → Bool
is_project ObjectType.project = true
is_project _ = false

abbrev pub no_parents : Option (List TypedRelation) → Bool
no_parents none = true
no_parents (some ps) = is_nil ps

unfoldable pub erase_each :
    String → List (TypedId × String) → List (String × Ulid) → List (String × Ulid)
erase_each name [] paths = paths
erase_each name ((id, pre) ∷ prefixes) paths =
    erase_each name prefixes (erase (pre <> "/" <> name) paths)

unfoldable pub put_each :
    String → Ulid → List (TypedId × String) → List (String × Ulid) → List (String × Ulid)
put_each name object_id [] paths = paths
put_each name object_id ((id, pre) ∷ prefixes) paths =
    put_each name object_id prefixes (put (pre <> "/" <> name) object_id paths)

-- The paths once the prefixes of the object are known.
unfoldable pub enter_paths :
    ProxyObject → List (TypedId × String) → List (String × Ulid) → List (String × Ulid)
unfolding erase_each put_each
enter_paths o prefixes paths =
    let paths' =
      if no_parents o.parents && not (is_project o.object_type)
      then erase_each o.name prefixes paths
      else put_each o.name o.id prefixes paths in
    if is_nil prefixes && is_project o.object_type then put o.name o.id paths' else paths'

abbrev done : Option ProxyCache → Outcome
done none = none
done (some c) = some (ok tt, c)

-- `locked`: another task holds the cached object, so `try_write` fails.
unfoldable pub upsert_object :
    ℕ → Result Error (Unit {0}) → Bool → ProxyObject → ProxyCache → Outcome
unfolding enter_object enter_paths update_object_name
upsert_object fuel (err e) locked o c = some (err e, c)
upsert_object fuel (ok stored) locked o c =
    if locked && Map.contains_key o.id c.resources
    then some (err (message "locked"), c)
    else elim (get_prefixes fuel (TypedId.unknown o.id) false (enter_object o c)) [
      | none ↦ none
      | some prefixes ↦
          let c' = with_paths (enter_object o c) (enter_paths o prefixes c.paths) in
          if str_eq (old_name o c) o.name
          then some (ok tt, c')
          else done (update_object_name fuel (typed o) (old_name o c) o.name c')
    ]

unfoldable pub erase_all : List String → List (String × Ulid) → List (String × Ulid)
erase_all [] paths = paths
erase_all (p ∷ ps) paths = erase_all ps (erase p paths)

-- `retain`: an upload stays unless its first part is one of the object.
abbrev stays : Ulid → List UploadPart → Bool
stays id [] = true
stays id (part ∷ parts) = not (part.object_id == id)

unfoldable pub retain_uploads :
    Ulid → List (String × List UploadPart) → List (String × List UploadPart)
retain_uploads id [] = []
retain_uploads id ((upload, parts) ∷ uploads) =
    if stays id parts
    then (upload, parts) ∷ retain_uploads id uploads
    else retain_uploads id uploads

-- What is left after the resource is taken out.
unfoldable pub forget : Ulid → ProxyCache → ProxyCache
unfolding retain_uploads
forget id c = record c {
  resources = Map.remove id c.resources;
  multi_parts = retain_uploads id c.multi_parts;
}

abbrev erase_trees : ProxyCache → Option (List String) → Outcome
erase_trees c none = none
erase_trees c (some ps) = some (ok tt, with_paths c (erase_all ps c.paths))

-- `deleted` is the outcome at the storage backend, which is asked if there is a location.
abbrev backend_fails : Result Error (Unit {0}) → Option ObjectLocation → Option Error
backend_fails (ok d) location = none
backend_fails (err e) none = none
backend_fails (err e) (some l) = some e

unfoldable pub take_out : ℕ → Result Error (Unit {0}) → Ulid → ProxyCache → Outcome
unfolding forget erase_all
take_out fuel deleted id c = elim (Map.get id c.resources) [
  | none ↦ some (ok tt, c)
  | some (o, location) ↦ elim (backend_fails deleted location) [
    | some e ↦ some (err e, c)
    | none ↦ erase_trees (forget id c) (get_name_trees fuel (typed o) o.name (forget id c))
  ]
]

unfoldable pub delete_object :
    ℕ → Result Error (Unit {0}) → Result Error (Unit {0}) → Ulid → ProxyCache → Outcome
unfolding take_out
delete_object fuel (err e) deleted id c = some (err e, c)
delete_object fuel (ok stored) deleted id c = take_out fuel deleted id c
