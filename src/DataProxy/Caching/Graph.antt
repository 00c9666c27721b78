-- ===== src/DataProxy/Caching/Graph.antt =====
-- The resources above and below one in the proxy's cache, and their paths. The searches keep no set
-- of visited ids, so they take fuel; `none` means that it ran out.
pub mod Climbs
pub mod Prefixes
pub mod Suffixes
use Prim.Native.String.{◌++◌ as ◌<>◌}
use text.Mathlib.Text.{◌==◌ as str_eq}
use aos_server.Base.{
  ℕ, zero, suc, String, Bool, true, false, not, ◌&&◌, ◌||◌, Option, none, some, List, [], ◌∷◌, ◌++◌,
  map, length, is_nil, leb, Result, ok, err, ◌>>=◌, Error, message, ok_or, if◌then◌else◌,
}
use aos_server.Base.Map
use aos_server.Base.Map.{Map}
use aos_server.Enums.{DbPermissionLevel, ObjectType}
use aos_server.ServerCache.{Ulid}
use aos_server.DataProxy.Format.{ObjectLocation}
use aos_server.DataProxy.Objects.{ProxyObject, TypedRelation, TypedId, relation_id, typed_id, typed}
use aos_server.DataProxy.States.{AccessKeyPermissions, at_least}
use aos_server.DataProxy.Caching.{ProxyCache}

abbrev pub Named : Type 0
Named = String × TypedId

-- The names and typed ids of related resources; one that is not cached ends the function.
unfoldable pub collect : ProxyCache → List TypedRelation → Option (List Named)
collect c [] = some []
collect c (r ∷ rs) = elim (Map.get (relation_id r) c.resources) [
  | none ↦ none
  | some (o, location) ↦ elim (collect c rs) [
    | none ↦ none
    | some later ↦ some ((o.name, typed o) ∷ later)
  ]
]

abbrev pub none_if_nil : Option (List Named) → Option (List Named)
none_if_nil none = none
none_if_nil (some []) = none
none_if_nil (some (x ∷ xs)) = some (x ∷ xs)

abbrev pub collect_some : ProxyCache → Option (List TypedRelation) → Option (List Named)
collect_some c none = none
collect_some c (some rs) = collect c rs

unfoldable pub get_parents : Ulid → ProxyCache → Option (List Named)
get_parents id c = elim (Map.get id c.resources) [
  | none ↦ none
  | some (o, location) ↦ none_if_nil (collect_some c o.parents)
]

unfoldable pub get_children : Ulid → ProxyCache → Option (List Named)
get_children id c = elim (Map.get id c.resources) [
  | none ↦ none
  | some (o, location) ↦ collect_some c o.children
]

-- The array of three options that `get_prefixes` fills from its end is the list of its entries: a
-- fourth is not entered.
unfoldable pub enter : Named → List Named → List Named
enter parent visited = if leb 3 (length visited) then visited else parent ∷ visited

unfoldable pub push_parents : List Named → List Named → List (TypedId × List Named)
push_parents visited [] = []
push_parents visited (parent ∷ parents) =
    (parent.1, enter parent visited) ∷ push_parents visited parents

abbrev pub below : String → String → String
below path name = if str_eq path "" then name else path <> "/" <> name

-- The paths that a filled array gives: all of them, or the last only.
unfoldable pub paths_along : Bool → String → List Named → List (TypedId × String)
paths_along with_intermediates path [] = []
paths_along with_intermediates path ((name, id) ∷ items) =
    if with_intermediates || is_nil items
    then (id, below path name) ∷ paths_along with_intermediates (below path name) items
    else paths_along with_intermediates (below path name) items

module _ (c : ProxyCache) (with_intermediates : Bool) where
  unfoldable pub climb :
      ℕ → List (TypedId × List Named) → List (TypedId × String) → Option (List (TypedId × String))
  climb zero queue final_result = none
  climb (suc fuel) [] final_result = some final_result
  climb (suc fuel) ((id, visited) ∷ queue) final_result = elim (get_parents (typed_id id) c) [
    | none ↦ climb fuel queue (final_result ++ paths_along with_intermediates "" visited)
    | some parents ↦ climb fuel (queue ++ push_parents visited parents) final_result
  ]

  unfoldable pub push_children : String → List Named → List (TypedId × String)
  push_children path [] = []
  push_children path ((name, id) ∷ children) =
      (id, path <> "/" <> name) ∷ push_children path children

  unfoldable pub descend :
      ℕ → List (TypedId × String) → List (TypedId × String) → Option (List (TypedId × String))
  descend zero queue final_result = none
  descend (suc fuel) [] final_result = some final_result
  descend (suc fuel) ((id, path) ∷ queue) final_result = elim (get_children (typed_id id) c) [
    | none ↦ descend fuel queue (final_result ++ (id, path) ∷ [])
    | some children ↦
        descend fuel (queue ++ push_children path children)
          (if with_intermediates then final_result ++ push_children path children else final_result)
  ]

unfoldable pub get_prefixes : ℕ → TypedId → Bool → ProxyCache → Option (List (TypedId × String))
unfolding climb
get_prefixes fuel id with_intermediates c = climb c with_intermediates fuel ((id, []) ∷ []) []

unfoldable pub get_suffixes : ℕ → TypedId → Bool → ProxyCache → Option (List (TypedId × String))
unfolding descend push_children
get_suffixes fuel id with_intermediates c = descend c with_intermediates fuel ((id, "") ∷ []) []

-- `format!("{}/{}{}", pre, name, suf)` for one prefix and all suffixes.
unfoldable pub spell : String → String → List (TypedId × String) → List String
spell pre name [] = []
spell pre name ((id, suf) ∷ suffixes) = (pre <> "/" <> name <> suf) ∷ spell pre name suffixes

unfoldable pub spell_all : String → List (TypedId × String) → List (TypedId × String) → List String
spell_all name suffixes [] = []
spell_all name suffixes ((id, pre) ∷ prefixes) =
    spell pre name suffixes ++ spell_all name suffixes prefixes

abbrev both : {A B : Type 0} → Option A → Option B → Option (A × B)
both none b = none
both (some a) none = none
both (some a) (some b) = some (a, b)

-- The paths of a resource and of all below it, under its name; `get_name_trees` is called for the
-- old and for the new name.
unfoldable pub get_name_trees : ℕ → TypedId → String → ProxyCache → Option (List String)
get_name_trees fuel id name c =
    elim (both (get_prefixes fuel id false c) (get_suffixes fuel id false c)) [
      | none ↦ none
      | some (prefixes, suffixes) ↦ some (spell_all name suffixes prefixes)
    ]

abbrev pub any_at_least : DbPermissionLevel → Map DbPermissionLevel → List Named → Bool
any_at_least needed has [] = false
any_at_least needed has ((name, id) ∷ parents) =
    at_least needed (Map.get (typed_id id) has) || any_at_least needed has parents

abbrev or_no_parents : Option (List Named) → List Named
or_no_parents none = []
or_no_parents (some parents) = parents

unfoldable pub check_access_parents :
    AccessKeyPermissions → Ulid → DbPermissionLevel → ProxyCache → Result Error (Unit {0})
check_access_parents key_info id needed c =
    if any_at_least needed key_info.permissions (or_no_parents (get_parents id c))
    then ok tt
    else err (message "Insufficient permissions")

unfoldable pub get_resource_cloned :
    Ulid → Bool → ProxyCache → Result Error (ProxyObject × Option ObjectLocation)
get_resource_cloned id skip_location c = do
  (o, location) ← ok_or (Map.get id c.resources) (message "Resource not found")
  ok (o, if skip_location then none else location)

abbrev pub object_of_entry : Option (ProxyObject × Option ObjectLocation) → Option ProxyObject
object_of_entry none = none
object_of_entry (some (o, location)) = some o

abbrev pub location_of_entry : Option (ProxyObject × Option ObjectLocation) → Option ObjectLocation
location_of_entry none = none
location_of_entry (some (o, location)) = location

unfoldable pub get_location : Ulid → ProxyCache → Option ObjectLocation
get_location id c = location_of_entry (Map.get id c.resources)

-- `get_path_levels`: what lies below the starting points, each with its location if it is an object.
unfoldable pub level_of : ProxyCache → TypedId × String → String × Option ObjectLocation
level_of c (TypedId.object id, name) = (name, get_location id c)
level_of c (TypedId.project id, name) = (name <> "/", none)
level_of c (TypedId.collection id, name) = (name <> "/", none)
level_of c (TypedId.dataset id, name) = (name <> "/", none)
level_of c (TypedId.unknown id, name) = (name <> "/", none)

unfoldable pub get_path_levels :
    ℕ → List Ulid → ProxyCache → Option (List (String × Option ObjectLocation))
unfolding level_of
get_path_levels fuel [] c = some []
get_path_levels fuel (id ∷ ids) c =
    elim (both (get_suffixes fuel (TypedId.unknown id) true c) (get_path_levels fuel ids c)) [
      | none ↦ none
      | some (suffixes, later) ↦ some (map (level_of c) suffixes ++ later)
    ]
