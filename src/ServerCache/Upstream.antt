-- ===== src/ServerCache/Upstream.antt =====
-- The hierarchies that lead from an object up to projects: `upstream_dfs_iterative` and
-- `upstream_dfs_recursive`. Neither keeps a set of visited ids, so both take fuel; `none` means that
-- it ran out.
pub mod Paths
pub mod Recursive
pub mod Splits
pub mod Iterative
use aos_server.Base.{
  ℕ, zero, suc, ◌-◌, Bool, true, false, Option, none, some, List, [], ◌∷◌, ◌++◌, Result, ok, err,
  Error, message, length, replicate, if◌then◌else◌, ltb,
}
use aos_server.Enums.{ObjectMapping, ObjectType}
use aos_server.ServerCache.{Ulid, ObjectWithRelations, Cache}
use aos_server.ServerCache.Objects.{get_object, get_parents}

abbrev pub Node : Type 0
Node = ObjectMapping Ulid

abbrev pub Hierarchies : Type 0
Hierarchies = List (List Node)

abbrev pub Outcome : Type 0
Outcome = Option (Result Error Hierarchies)

abbrev typed : ObjectType → Ulid → Node
typed ObjectType.project id = ObjectMapping.project id
typed ObjectType.collection id = ObjectMapping.collection id
typed ObjectType.dataset id = ObjectMapping.dataset id
typed ObjectType.object id = ObjectMapping.object id

unfoldable pub node : ObjectWithRelations → Node
node o = typed o.object.object_type o.object.id

abbrev is_project_type : ObjectType → Bool
is_project_type ObjectType.project = true
is_project_type _ = false

abbrev pub is_project : ObjectWithRelations → Bool
is_project o = is_project_type o.object.object_type

-- `?` on what a call returned.
abbrev pub and_then : Outcome → (Hierarchies → Outcome) → Outcome
and_then none next = none
and_then (some (err e)) next = some (err e)
and_then (some (ok finished)) next = next finished

-- The loop over the parents; `visit` is the recursive call.
unfoldable pub each_parent :
    (Ulid → List Node → Hierarchies → Outcome) → List Ulid → List Node → Hierarchies → Outcome
each_parent visit [] path finished = some (ok finished)
each_parent visit (p ∷ ps) path finished =
    and_then (visit p path finished) (λ finished'. each_parent visit ps path finished')

-- What is pushed on `current_path` is popped before a call returns `Ok`, so the path is handed down
-- extended and is the caller's own again afterwards; an error ends the whole search.
unfoldable pub upstream_dfs_recursive : Cache → ℕ → Ulid → List Node → Hierarchies → Outcome
upstream_dfs_recursive c zero id path finished = none
upstream_dfs_recursive c (suc fuel) id path finished = elim (get_object id c) [
  | none ↦ some (err (message "Parent does not exist"))
  | some o ↦
      if is_project o
      then some (ok (finished ++ (path ++ node o ∷ []) ∷ []))
      else each_parent (upstream_dfs_recursive c fuel) (get_parents o) (path ++ node o ∷ [])
          finished
]

-- `split_indexes` is a stack, its top first. The queue is kept beside this record.
pub record Search : Type 0 where
  pub split_indexes : List ℕ
  pub current : List Node
  pub finished : Hierarchies

-- `Vec::truncate`
abbrev pub truncate : ℕ → List Node → List Node
truncate zero xs = []
truncate (suc n) [] = []
truncate (suc n) (x ∷ xs) = x ∷ truncate n xs

-- `push_front` of every parent; none if one is not cached.
unfoldable pub push_parents :
    Cache → List Ulid → List ObjectWithRelations → Option (List ObjectWithRelations)
push_parents c [] queue = some queue
push_parents c (p ∷ ps) queue = elim (get_object p c) [
  | none ↦ none
  | some parent ↦ push_parents c ps (parent ∷ queue)
]

-- The truncation at the last path split, and the split used up.
abbrev pub pop_split : Search → Search
pop_split s = elim (s.split_indexes) [
  | [] ↦ s
  | index ∷ indexes ↦ record s { split_indexes = indexes; current = truncate index s.current }
]

-- The body of the loop for the object in front; `queue` is what stands behind it.
unfoldable pub expand :
    Cache
    → ObjectWithRelations
    → List ObjectWithRelations
    → Search
    → Result Error (List ObjectWithRelations × Search)
expand c o queue s =
    let t = record s { current = s.current ++ node o ∷ [] } in
    if is_project o
    then ok (queue, pop_split (record t { finished = t.finished ++ t.current ∷ [] }))
    else elim (push_parents c (get_parents o) queue) [
      | none ↦ err (message "Parent doesn't exist")
      | some pushed ↦
          let splits = replicate (length (get_parents o) - 1) (length t.current) in
          ok (pushed, record t { split_indexes = splits ++ t.split_indexes })
    ]

abbrev pub resume :
    (List ObjectWithRelations → Search → Outcome)
    → Result Error (List ObjectWithRelations × Search)
    → Outcome
resume next (err e) = some (err e)
resume next (ok (queue, s)) = next queue s

unfoldable pub search_up : Cache → ℕ → List ObjectWithRelations → Search → Outcome
search_up c fuel [] s = some (ok s.finished)
search_up c zero (o ∷ queue) s = none
search_up c (suc fuel) (o ∷ queue) s = resume (search_up c fuel) (expand c o queue s)

abbrev pub start : Search
start = record { split_indexes = []; current = []; finished = [] }

unfoldable pub upstream_dfs_iterative : Cache → ℕ → Ulid → Outcome
upstream_dfs_iterative c fuel root = elim (get_object root c) [
  | none ↦ some (err (message "Parent doesn't exist"))
  | some o ↦ search_up c fuel (o ∷ []) start
]
