-- ===== src/ServerCache/Traverse/Complete.antt =====
-- When `traverse_down` returns `Ok(false)`, no requested resource under the root is left.
use mathlib.Core.List.{append_assoc, append-nil}
use aos_server.Base.{
  ℕ, zero, suc, ◌≡◌, refl, subst, Option, none, some, inl, inr, List, [], ◌∷◌, ◌++◌, Bool-cases,
  Option-cases, In, In-append_left, In-append_right, arith,
}
use aos_server.Base.Map
use aos_server.Enums.{DbPermissionLevel, perm_gt}
use aos_server.ServerCache.{Ulid, ObjectWithRelations, Cache}
use aos_server.ServerCache.Objects.{get_object, get_permission_children}
use aos_server.ServerCache.Traverse.{
  Requests, Strike, bail, done, left, strike, Round, invalid, finished, continue, after_strike,
  scan, Traversal, covered, refused, exhausted, settle, walk, traverse_down,
}
use aos_server.ServerCache.Traverse.Steps.{walk-nil, walk-zero, walk-missing, walk-object}
use aos_server.ServerCache.Traverse.Reach.{IsChild, IsUnder, child, deeper}

-- `b` has no request that `a` lacks.
abbrev pub Shrinks : Requests → Requests → Type 0
Shrinks a b = (id : Ulid) → Map.get id a ≡ none → Map.get id b ≡ none

module _ (perm : DbPermissionLevel) where
  abbrev StrikeLacks : Ulid → Requests → Strike → Type 0
  StrikeLacks x ctxs bail = Unit
  StrikeLacks x ctxs done = Unit
  StrikeLacks x ctxs (left ctxs') = Shrinks ctxs ctxs' × (Map.get x ctxs' ≡ none)

  -- The rest after striking `x` lacks `x`, and whatever was lacking before.
  strike-StrikeLacks : (x : Ulid) (ctxs : Requests) → StrikeLacks x ctxs (strike perm x ctxs)
  unfolding strike
  strike-StrikeLacks x ctxs = elim (Option-cases (Map.get x ctxs)) [
    | inl e ↦ rw (e, strike) ((λ id k. k), e)
    | inr (got, e) ↦ elim (Bool-cases (perm_gt got perm)) [
      | inl above ↦ rw (e, strike) (rw above tt)
      | inr below ↦ elim (Bool-cases (Map.is_empty (Map.remove x ctxs))) [
        | inl empty ↦ rw (e, strike) (rw (below, empty) tt)
        | inr more ↦
            rw (e, strike)
              (rw (below, more)
                (
                  (λ id k. ground (arith, k, Map.get-remove x id ctxs)),
                  ground (arith, Map.get-remove x x ctxs),
                ))
      ]
    ]
  ]

  -- After a round the map lacks every child, and whatever was lacking before; the children are
  -- queued behind what was queued.
  abbrev pub RoundLacks : List Ulid → Requests → List Ulid → Round → Type 0
  RoundLacks children ctxs queue invalid = Unit
  RoundLacks children ctxs queue finished = Unit
  RoundLacks children ctxs queue (continue ctxs' queue') =
      Shrinks ctxs ctxs'
      × ((id : Ulid) → In id children → Map.get id ctxs' ≡ none)
      × (queue' ≡ queue)

  after_strike-RoundLacks :
      (x : Ulid) (children : List Ulid) (ctxs : Requests) (queue : List Ulid)
      (next : Requests → Round) (s : Strike)
      → StrikeLacks x ctxs s
      → ((ctxs' : Requests) → RoundLacks children ctxs' queue (next ctxs'))
      → RoundLacks (x ∷ children) ctxs queue (after_strike next s)
  after_strike-RoundLacks x children ctxs queue next bail h k = tt
  after_strike-RoundLacks x children ctxs queue next done h k = tt
  after_strike-RoundLacks x children ctxs queue next (left ctxs') h k =
      extend (next ctxs') (k ctxs')
    where
      extend :
          (r : Round) → RoundLacks children ctxs' queue r → RoundLacks (x ∷ children) ctxs queue r
      extend invalid o = tt
      extend finished o = tt
      extend (continue b q) o = (
        (λ id e. o.0 id (h.0 id e)),
        (λ id m. elim m [ inl e ↦ rw e (o.0 x h.1) | inr m' ↦ o.1 id m' ]),
        o.2,
      )

  pub scan-RoundLacks :
      (children : List Ulid) (ctxs : Requests) (queue : List Ulid)
      → RoundLacks children ctxs (queue ++ children) (scan perm children ctxs queue)
  unfolding scan
  scan-RoundLacks [] ctxs queue = ((λ id e. e), (λ id m. absurd m), rw append-nil)
  scan-RoundLacks (x ∷ children) ctxs queue =
      after_strike-RoundLacks x children ctxs (queue ++ x ∷ children)
        (λ ctxs'. scan perm children ctxs' (queue ++ x ∷ [])) (strike perm x ctxs)
        (strike-StrikeLacks x ctxs)
        (λ ctxs'.
          subst (λ q. RoundLacks children ctxs' q (scan perm children ctxs' (queue ++ x ∷ [])))
            (append_assoc queue (x ∷ []) children)
            (scan-RoundLacks children ctxs' (queue ++ x ∷ [])))

module _ (c : Cache) (perm : DbPermissionLevel) where
  -- Of an exhausted walk the map lacks what lies under the queue, and what was lacking before.
  abbrev pub WalkLacks : Requests → List Ulid → Option Traversal → Type 0
  WalkLacks ctxs queue (some (exhausted ctxs')) =
      Shrinks ctxs ctxs' × ((x id : Ulid) → In x queue → IsUnder c id x → Map.get id ctxs' ≡ none)
  WalkLacks ctxs queue _ = Unit

  -- The head of the queue, opened.
  settle-WalkLacks :
      (x : Ulid) (queue children : List Ulid) (ctxs : Requests)
      (next : Requests → List Ulid → Option Traversal) (r : Round)
      → ((b : Ulid) → IsChild c x b → In b children)
      → RoundLacks perm children ctxs (queue ++ children) r
      → ((ctxs' : Requests) → WalkLacks ctxs' (queue ++ children) (next ctxs' (queue ++ children)))
      → WalkLacks ctxs (x ∷ queue) (settle next r)
  settle-WalkLacks x queue children ctxs next invalid all h k = tt
  settle-WalkLacks x queue children ctxs next finished all h k = tt
  settle-WalkLacks x queue children ctxs next (continue ctxs' q) all h k =
      rw h.2 (extend (next ctxs' (queue ++ children)) (k ctxs'))
    where
      extend :
          (t : Option Traversal)
          → WalkLacks ctxs' (queue ++ children) t
          → WalkLacks ctxs (x ∷ queue) t
      extend none o = tt
      extend (some covered) o = tt
      extend (some refused) o = tt
      extend (some (exhausted b)) o = (
        (λ id e. o.0 id (h.0 id e)),
        (λ y id m u. elim m [
          | inl e ↦ head id (subst (IsUnder c id) e u)
          | inr m' ↦ o.1 y id (In-append_left y queue children m') u
        ]),
      )
        where
          head : (id : Ulid) → IsUnder c id x → Map.get id b ≡ none
          head id (child k) = o.0 id (h.1 id (all id k))
          head id (deeper {b = d} k u) = o.1 d id (In-append_right d queue children (all d k)) u

  -- A missing object has no children, so its entry in the queue may go.
  skip_missing :
      (x : Ulid) (queue : List Ulid) (ctxs : Requests) (t : Option Traversal)
      → get_object x c ≡ none
      → WalkLacks ctxs queue t
      → WalkLacks ctxs (x ∷ queue) t
  skip_missing x queue ctxs none e o = tt
  skip_missing x queue ctxs (some covered) e o = tt
  skip_missing x queue ctxs (some refused) e o = tt
  skip_missing x queue ctxs (some (exhausted b)) e o = (
    o.0,
    (λ y id m u. elim m [
      | inl same ↦ absurd (childless id (subst (IsUnder c id) same u))
      | inr m' ↦ o.1 y id m' u
    ]),
  )
    where
      not_cached : {d : Ulid} → IsChild c x d → ⊥
      not_cached k = cc (k.cached)

      childless : (id : Ulid) → IsUnder c id x → ⊥
      childless id (child k) = not_cached k
      childless id (deeper k u) = not_cached k

  all_children :
      (x : Ulid) (o : ObjectWithRelations)
      → get_object x c ≡ some o
      → (b : Ulid) → IsChild c x b
      → In b (get_permission_children o)
  all_children x o e b k =
      let same : k.object ≡ o = cc (k.cached) in
      subst (λ p. In b (get_permission_children p)) same k.listed

  walk-WalkLacks :
      (fuel : ℕ) (ctxs : Requests) (queue : List Ulid)
      → WalkLacks ctxs queue (walk c perm fuel ctxs queue)
  walk-WalkLacks fuel ctxs [] = rw (walk-nil c perm fuel ctxs) ((λ id e. e), (λ x id m. absurd m))
  walk-WalkLacks zero ctxs (x ∷ queue) = rw (walk-zero c perm ctxs x queue) tt
  walk-WalkLacks (suc fuel) ctxs (x ∷ queue) = elim (Option-cases (get_object x c)) [
    | inl e ↦
        rw (walk-missing c perm fuel ctxs x queue e) (
          skip_missing x queue ctxs (walk c perm fuel ctxs queue) e
            (walk-WalkLacks fuel ctxs queue))
    | inr (o, e) ↦
        let children = get_permission_children o in
        rw (walk-object c perm fuel ctxs x queue e) (
          settle-WalkLacks x queue children ctxs (walk c perm fuel) (scan perm children ctxs queue)
            (all_children x o e) (scan-RoundLacks perm children ctxs queue)
            (λ ctxs'. walk-WalkLacks fuel ctxs' (queue ++ children)))
  ]

  -- When a walk from `root` returns `Ok(false)`, it has struck every request for a resource that
  -- lies under `root`, and the map has gained none.
  pub traverse_down-exhausted :
      (fuel : ℕ) (root : Ulid) (ctxs : Requests) {ctxs' : Requests}
      → traverse_down fuel c root perm ctxs ≡ some (exhausted ctxs')
      → Shrinks ctxs ctxs' × ((id : Ulid) → IsUnder c id root → Map.get id ctxs' ≡ none)
  unfolding traverse_down
  traverse_down-exhausted fuel root ctxs h = elim (Bool-cases (Map.is_empty ctxs)) [
    | inl empty ↦ cc (rw empty at h)
    | inr more ↦
        let lacks =
          subst (WalkLacks ctxs (root ∷ [])) (rw more at h)
            (walk-WalkLacks fuel ctxs (root ∷ [])) in
        (lacks.0, (λ id u. lacks.1 root id (inl refl) u))
  ]
