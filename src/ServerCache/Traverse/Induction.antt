-- ===== src/ServerCache/Traverse/Induction.antt =====
-- Properties of the map that a walk keeps.
use aos_server.Base.{
  ℕ, zero, suc, ◌≡◌, Option, some, inl, inr, List, [], ◌∷◌, ◌++◌, true, false, Bool-cases,
  Option-cases,
}
use aos_server.Base.Map
use aos_server.Enums.{DbPermissionLevel, perm_gt}
use aos_server.ServerCache.{Ulid, Cache}
use aos_server.ServerCache.Objects.{get_object, get_permission_children}
use aos_server.ServerCache.Traverse.{
  Requests, Strike, bail, done, left, strike, Round, invalid, finished, continue, after_strike,
  scan, Traversal, refused, exhausted, settle, walk, traverse_down,
}
use aos_server.ServerCache.Traverse.Steps.{walk-nil, walk-zero, walk-missing, walk-object}

-- A property of the map that every strike keeps holds of the map that an exhausted walk leaves, and
-- a walk refuses only where `Bails` says that a request can be too high.
module _ (perm : DbPermissionLevel) (P : Requests → Type 0) (Bails : Type 0)
    (fails : (x : Ulid) (ctxs : Requests) (got : DbPermissionLevel)
      → P ctxs
      → Map.get x ctxs ≡ some got
      → perm_gt got perm ≡ true
      → Bails)
    (removes : (x : Ulid) (ctxs : Requests)
      → P ctxs
      → Map.is_empty (Map.remove x ctxs) ≡ false
      → P (Map.remove x ctxs)) where
  abbrev StrikeHas : Strike → Type 0
  StrikeHas bail = Bails
  StrikeHas done = Unit
  StrikeHas (left ctxs) = P ctxs

  abbrev RoundHas : Round → Type 0
  RoundHas invalid = Bails
  RoundHas finished = Unit
  RoundHas (continue ctxs queue) = P ctxs

  abbrev pub TraversalHas : Option Traversal → Type 0
  TraversalHas (some refused) = Bails
  TraversalHas (some (exhausted ctxs)) = P ctxs
  TraversalHas _ = Unit

  strike-StrikeHas : (x : Ulid) (ctxs : Requests) → P ctxs → StrikeHas (strike perm x ctxs)
  unfolding strike
  strike-StrikeHas x ctxs h = elim (Option-cases (Map.get x ctxs)) [
    | inl e ↦ rw (e, strike) h
    | inr (got, e) ↦ elim (Bool-cases (perm_gt got perm)) [
      | inl above ↦ rw (e, strike) (rw above (fails x ctxs got h e above))
      | inr below ↦ elim (Bool-cases (Map.is_empty (Map.remove x ctxs))) [
        | inl empty ↦ rw (e, strike) (rw (below, empty) tt)
        | inr more ↦ rw (e, strike) (rw (below, more) (removes x ctxs h more))
      ]
    ]
  ]

  after_strike-RoundHas :
      (next : Requests → Round) (s : Strike)
      → ((r : Requests) → P r → RoundHas (next r))
      → StrikeHas s
      → RoundHas (after_strike next s)
  after_strike-RoundHas next bail go k = k
  after_strike-RoundHas next done go k = tt
  after_strike-RoundHas next (left r) go k = go r k

  scan-RoundHas :
      (children : List Ulid) (ctxs : Requests) (queue : List Ulid)
      → P ctxs
      → RoundHas (scan perm children ctxs queue)
  unfolding scan
  scan-RoundHas [] ctxs queue h = h
  scan-RoundHas (x ∷ children) ctxs queue h =
      after_strike-RoundHas (λ r. scan perm children r (queue ++ x ∷ [])) (strike perm x ctxs)
        (λ r k. scan-RoundHas children r (queue ++ x ∷ []) k) (strike-StrikeHas x ctxs h)

  settle-TraversalHas :
      (next : Requests → List Ulid → Option Traversal) (r : Round)
      → ((b : Requests) (q : List Ulid) → P b → TraversalHas (next b q))
      → RoundHas r
      → TraversalHas (settle next r)
  settle-TraversalHas next invalid go k = k
  settle-TraversalHas next finished go k = tt
  settle-TraversalHas next (continue b q) go k = go b q k

  walk-TraversalHas :
      (c : Cache) (fuel : ℕ) (ctxs : Requests) (queue : List Ulid)
      → P ctxs
      → TraversalHas (walk c perm fuel ctxs queue)
  walk-TraversalHas c fuel ctxs [] h = rw (walk-nil c perm fuel ctxs) h
  walk-TraversalHas c zero ctxs (x ∷ queue) h = rw (walk-zero c perm ctxs x queue) tt
  walk-TraversalHas c (suc fuel) ctxs (x ∷ queue) h = elim (Option-cases (get_object x c)) [
    | inl e ↦ rw (walk-missing c perm fuel ctxs x queue e) (walk-TraversalHas c fuel ctxs queue h)
    | inr (o, e) ↦ rw (walk-object c perm fuel ctxs x queue e) (
        settle-TraversalHas (walk c perm fuel) (scan perm (get_permission_children o) ctxs queue)
          (λ r q k. walk-TraversalHas c fuel r q k)
          (scan-RoundHas (get_permission_children o) ctxs queue h))
  ]

  pub traverse_down-TraversalHas :
      (c : Cache) (fuel : ℕ) (root : Ulid) (ctxs : Requests)
      → P ctxs
      → TraversalHas (traverse_down fuel c root perm ctxs)
  unfolding traverse_down
  traverse_down-TraversalHas c fuel root ctxs h = elim (Bool-cases (Map.is_empty ctxs)) [
    | inl empty ↦ rw empty tt
    | inr more ↦ rw more (walk-TraversalHas c fuel ctxs (root ∷ []) h)
  ]
