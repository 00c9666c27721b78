-- ===== src/ServerCache/Traverse.antt =====
-- `traverse_down`: a breadth-first walk from a resource that the user holds, down through its
-- permission children, which strikes requested resources off a map. The walk keeps no set of
-- visited ids, so it takes fuel; `Traverse.Fuel` says how much is enough.
mod Steps
pub mod Reach
pub mod Sound
pub mod Complete
pub mod Fuel
pub mod Induction
pub mod Verdict
use aos_server.Base.{ℕ, zero, suc, Option, none, some, List, [], ◌∷◌, ◌++◌, if◌then◌else◌}
use aos_server.Base.Map
use aos_server.Base.Map.{Map}
use aos_server.Enums.{DbPermissionLevel, perm_gt}
use aos_server.ServerCache.{Ulid, Cache}
use aos_server.ServerCache.Objects.{get_object, get_permission_children}

-- The requested resources and the level that each needs.
abbrev pub Requests : Type 0
Requests = Map DbPermissionLevel

-- What comes of one child.
pub data Strike : Type 0 where
  bail : Strike
  done : Strike
  left : Requests → Strike

unfoldable pub strike : DbPermissionLevel → Ulid → Requests → Strike
strike perm child ctxs = elim (Map.get child ctxs) [
  | none ↦ left ctxs
  | some got_perm ↦
      if perm_gt got_perm perm
      then bail
      else if Map.is_empty (Map.remove child ctxs)
      then done
      else left (Map.remove child ctxs)
]

-- What comes of all children of an object: the walk ends, or goes on with a map and a queue.
pub data Round : Type 0 where
  invalid : Round
  finished : Round
  continue : Requests → List Ulid → Round

abbrev pub after_strike : (Requests → Round) → Strike → Round
after_strike next bail = invalid
after_strike next done = finished
after_strike next (left ctxs) = next ctxs

unfoldable pub scan : DbPermissionLevel → List Ulid → Requests → List Ulid → Round
scan perm [] ctxs queue = continue ctxs queue
scan perm (child ∷ children) ctxs queue =
    after_strike (λ ctxs'. scan perm children ctxs' (queue ++ child ∷ [])) (strike perm child ctxs)

-- `Ok(true)`, `Err("Invalid permissions")`, and `Ok(false)` with what is left of the map.
pub data Traversal : Type 0 where
  covered : Traversal
  refused : Traversal
  exhausted : Requests → Traversal

abbrev pub settle : (Requests → List Ulid → Option Traversal) → Round → Option Traversal
settle next invalid = some refused
settle next finished = some covered
settle next (continue ctxs queue) = next ctxs queue

module _ (c : Cache) (perm : DbPermissionLevel) where
  -- The `while let` loop; `none` means that the fuel ran out.
  unfoldable pub walk : ℕ → Requests → List Ulid → Option Traversal
  walk fuel ctxs [] = some (exhausted ctxs)
  walk zero ctxs (x ∷ queue) = none
  walk (suc fuel) ctxs (x ∷ queue) = elim (get_object x c) [
    | none ↦ walk fuel ctxs queue
    | some o ↦ settle (walk fuel) (scan perm (get_permission_children o) ctxs queue)
  ]

unfoldable pub traverse_down : ℕ → Cache → Ulid → DbPermissionLevel → Requests → Option Traversal
traverse_down fuel c id perm ctxs =
    if Map.is_empty ctxs then some covered else walk c perm fuel ctxs (id ∷ [])
