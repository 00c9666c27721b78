-- ===== src/ServerCache/Subresources.antt =====
-- `get_subresources`: everything below a resource. The walk keeps a set of what it has found but
-- visits an id once for each way that leads to it, so it takes fuel; `none` means that it ran out.
pub mod Notes
pub mod Found
use aos_server.Base.{
  ℕ, zero, suc, Bool, Option, none, some, List, [], ◌∷◌, ◌==◌, any, if◌then◌else◌,
}
use aos_server.ServerCache.{Ulid, ObjectWithRelations, Cache}
use aos_server.ServerCache.Objects.{get_object, get_children}

-- `HashSet::insert`
abbrev pub add : Ulid → List Ulid → List Ulid
add id found = if any (λ x. x == id) found then found else id ∷ found

-- The loop over the children: the queue and the set.
unfoldable pub note_children : List Ulid → List Ulid → List Ulid → List Ulid × List Ulid
note_children [] queue subresources = (queue, subresources)
note_children (child_id ∷ children) queue subresources =
    note_children children (child_id ∷ queue) (add child_id subresources)

unfoldable pub descend : Cache → ℕ → List Ulid → List Ulid → Option (List Ulid)
descend c fuel [] subresources = some subresources
descend c zero (resource_id ∷ queue) subresources = none
descend c (suc fuel) (resource_id ∷ queue) subresources = elim (get_object resource_id c) [
  | none ↦ descend c fuel queue subresources
  | some resource ↦
      let (queue', subresources') = note_children (get_children resource) queue subresources in
      descend c fuel queue' subresources'
]

unfoldable pub get_subresources : ℕ → Cache → Ulid → Option (List Ulid)
get_subresources fuel c root_id = descend c fuel (root_id ∷ []) []
