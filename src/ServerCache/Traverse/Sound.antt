-- ===== src/ServerCache/Traverse/Sound.antt =====
-- What `traverse_down` strikes off is granted: it is reached from the root, at a level that the
-- root's level covers.
use aos_server.Base.{
  ℕ, zero, suc, ◌≤◌, ◌≡◌, refl, subst, Option, none, some, ◌⊎◌, inl, inr, List, [], ◌∷◌, ◌++◌, true,
  Bool-cases, Option-cases, In, In-append_cases, arith, ◌==◌, ==→eq,
}
use mathlib.Core.List.{append-nil, append_assoc}
use aos_server.Base.Map
use aos_server.Enums.{DbPermissionLevel, level, perm_gt}
use aos_server.ServerCache.{Ulid, Cache}
use aos_server.ServerCache.Objects.{get_object, get_permission_children}
use aos_server.ServerCache.Traverse.{
  Requests, Strike, bail, done, left, strike, Round, invalid, finished, continue, after_strike,
  scan, Traversal, covered, refused, exhausted, settle, walk, traverse_down,
}
use aos_server.ServerCache.Traverse.Steps.{walk-nil, walk-zero, walk-missing, walk-object}
use aos_server.ServerCache.Traverse.Reach.{Reaches, here, down}

module _ (Good : Ulid → DbPermissionLevel → Type 0) where
  -- Every request that is gone is good.
  abbrev pub Keeps : Requests → Requests → Type 0
  Keeps ctxs ctxs' =
      (id : Ulid) (needed : DbPermissionLevel)
      → Map.get id ctxs ≡ some needed
      → (Map.get id ctxs' ≡ some needed) ⊎ Good id needed

  -- All requests are good.
  abbrev pub Covers : Requests → Type 0
  Covers ctxs =
      (id : Ulid) (needed : DbPermissionLevel) → Map.get id ctxs ≡ some needed → Good id needed

  pub Keeps-trans : (a b d : Requests) → Keeps a b → Keeps b d → Keeps a d
  Keeps-trans a b d h k id needed e = elim (h id needed e) [
    | inl e' ↦ k id needed e'
    | inr g ↦ inr g
  ]

  pub Keeps-Covers : (a b : Requests) → Keeps a b → Covers b → Covers a
  Keeps-Covers a b h k id needed e = elim (h id needed e) [ inl e' ↦ k id needed e' | inr g ↦ g ]

  pub Keeps-remove :
      (child : Ulid) (got : DbPermissionLevel) (ctxs : Requests)
      → Map.get child ctxs ≡ some got
      → Good child got
      → Keeps ctxs (Map.remove child ctxs)
  Keeps-remove child got ctxs h g id needed e = elim (Bool-cases (child == id)) [
    | inl same ↦
        let p : child ≡ id = ==→eq child id same in
        let q : got ≡ needed = cc in inr (subst (λ i. Good i needed) p (subst (Good child) q g))
    | inr other ↦ inl (rw (Map.get-remove child id ctxs, other) e)
  ]

  pub Covers-of_is_empty : (a b : Requests) → Keeps a b → Map.is_empty b ≡ true → Covers a
  Covers-of_is_empty a b h e =
      Keeps-Covers a b h (λ id needed k. absurd (cc (Map.get-is_empty id b e)))

  abbrev StrikeOk : Requests → Strike → Type 0
  StrikeOk ctxs bail = Unit
  StrikeOk ctxs done = Covers ctxs
  StrikeOk ctxs (left ctxs') = Keeps ctxs ctxs'

  abbrev RoundOk : Requests → List Ulid → Round → Type 0
  RoundOk ctxs queue invalid = Unit
  RoundOk ctxs queue finished = Covers ctxs
  RoundOk ctxs queue (continue ctxs' queue') = Keeps ctxs ctxs' × (queue' ≡ queue)

  abbrev pub TraversalOk : Requests → Option Traversal → Type 0
  TraversalOk ctxs none = Unit
  TraversalOk ctxs (some covered) = Covers ctxs
  TraversalOk ctxs (some refused) = Unit
  TraversalOk ctxs (some (exhausted ctxs')) = Keeps ctxs ctxs'

  module _ (perm : DbPermissionLevel) where
    -- A child is good at every level that `perm` covers.
    abbrev pub IsOpen : Ulid → Type 0
    IsOpen child = (needed : DbPermissionLevel) → level needed ≤ level perm → Good child needed

    strike-StrikeOk :
        (child : Ulid) (ctxs : Requests) → IsOpen child → StrikeOk ctxs (strike perm child ctxs)
    unfolding strike
    strike-StrikeOk child ctxs open_child = elim (Option-cases (Map.get child ctxs)) [
      | inl e ↦ rw (e, strike) (λ id needed k. inl k)
      | inr (got, e) ↦ elim (Bool-cases (perm_gt got perm)) [
        | inl above ↦ rw (e, strike) (rw above tt)
        | inr below ↦
            let kept = Keeps-remove child got ctxs e (open_child got (ground arith)) in
            elim (Bool-cases (Map.is_empty (Map.remove child ctxs))) [
              | inl empty ↦
                  rw (e, strike) (rw (below, empty) (Covers-of_is_empty ctxs _ kept empty))
              | inr more ↦ rw (e, strike) (rw (below, more) kept)
            ]
      ]
    ]

    after_strike-RoundOk :
        (ctxs : Requests) (queue : List Ulid) (next : Requests → Round) (s : Strike)
        → StrikeOk ctxs s
        → ((ctxs' : Requests) → RoundOk ctxs' queue (next ctxs'))
        → RoundOk ctxs queue (after_strike next s)
    after_strike-RoundOk ctxs queue next bail h k = tt
    after_strike-RoundOk ctxs queue next done h k = h
    after_strike-RoundOk ctxs queue next (left ctxs') h k = weaken (next ctxs') (k ctxs')
      where
        weaken : (r : Round) → RoundOk ctxs' queue r → RoundOk ctxs queue r
        weaken invalid o = tt
        weaken finished o = Keeps-Covers ctxs ctxs' h o
        weaken (continue b q) o = (Keeps-trans ctxs ctxs' b h o.0, o.1)

    pub scan-RoundOk :
        (children : List Ulid) (ctxs : Requests) (queue : List Ulid)
        → ((x : Ulid) → In x children → IsOpen x)
        → RoundOk ctxs (queue ++ children) (scan perm children ctxs queue)
    unfolding scan
    scan-RoundOk [] ctxs queue open_children = (λ id needed k. inl k, rw append-nil)
    scan-RoundOk (child ∷ children) ctxs queue open_children =
        after_strike-RoundOk ctxs (queue ++ child ∷ children)
          (λ ctxs'. scan perm children ctxs' (queue ++ child ∷ [])) (strike perm child ctxs)
          (strike-StrikeOk child ctxs (open_children child (inl refl)))
          (λ ctxs'.
            subst (λ q. RoundOk ctxs' q (scan perm children ctxs' (queue ++ child ∷ [])))
              (append_assoc queue (child ∷ []) children)
              (scan-RoundOk children ctxs' (queue ++ child ∷ []) (λ x m. open_children x (inr m))))

-- Reached from `root`, at a level that `perm` covers.
abbrev pub IsGrantedFrom : Cache → Ulid → DbPermissionLevel → Ulid → DbPermissionLevel → Type 0
IsGrantedFrom c root perm id needed = Reaches c root id × (level needed ≤ level perm)

module _ (c : Cache) (root : Ulid) (perm : DbPermissionLevel) where
  abbrev Good : Ulid → DbPermissionLevel → Type 0
  Good = IsGrantedFrom c root perm

  settle-TraversalOk :
      (ctxs : Requests) (queue : List Ulid) (next : Requests → List Ulid → Option Traversal)
      (r : Round)
      → RoundOk Good ctxs queue r
      → ((ctxs' : Requests) → TraversalOk Good ctxs' (next ctxs' queue))
      → TraversalOk Good ctxs (settle next r)
  settle-TraversalOk ctxs queue next invalid h k = tt
  settle-TraversalOk ctxs queue next finished h k = h
  settle-TraversalOk ctxs queue next (continue ctxs' q) h k =
      rw h.1 (weaken (next ctxs' queue) (k ctxs'))
    where
      weaken : (t : Option Traversal) → TraversalOk Good ctxs' t → TraversalOk Good ctxs t
      weaken none o = tt
      weaken (some covered) o = Keeps-Covers Good ctxs ctxs' h.0 o
      weaken (some refused) o = tt
      weaken (some (exhausted b)) o = Keeps-trans Good ctxs ctxs' b h.0 o

  walk-TraversalOk :
      (fuel : ℕ) (ctxs : Requests) (queue : List Ulid)
      → ((x : Ulid) → In x queue → Reaches c root x)
      → TraversalOk Good ctxs (walk c perm fuel ctxs queue)
  walk-TraversalOk fuel ctxs [] h = rw (walk-nil c perm fuel ctxs) (λ id needed k. inl k)
  walk-TraversalOk zero ctxs (x ∷ queue) h = rw (walk-zero c perm ctxs x queue) tt
  walk-TraversalOk (suc fuel) ctxs (x ∷ queue) h = elim (Option-cases (get_object x c)) [
    | inl e ↦
        rw (walk-missing c perm fuel ctxs x queue e)
          (walk-TraversalOk fuel ctxs queue (λ y m. h y (inr m)))
    | inr (o, e) ↦
        let children = get_permission_children o in
        let reached : (y : Ulid) → In y children → Reaches c root y =
          λ y m. down (h x (inl refl)) (record { object = o; cached = e; listed = m }) in
        rw (walk-object c perm fuel ctxs x queue e) (
          settle-TraversalOk ctxs (queue ++ children) (walk c perm fuel)
            (scan perm children ctxs queue)
            (scan-RoundOk Good perm children ctxs queue (λ y m needed le. (reached y m, le)))
            (λ ctxs'. walk-TraversalOk fuel ctxs' (queue ++ children) (λ y m.
              elim (In-append_cases y queue children m) [
                | inl q ↦ h y (inr q)
                | inr k ↦ reached y k
              ])))
  ]

  -- Of a walk from `root` at level `perm`: a request that it strikes off the map, or every request
  -- if it returns `Ok(true)`, is for a resource reached from `root`, at a level that `perm` covers.
  pub traverse_down-TraversalOk :
      (fuel : ℕ) (ctxs : Requests) → TraversalOk Good ctxs (traverse_down fuel c root perm ctxs)
  unfolding traverse_down
  traverse_down-TraversalOk fuel ctxs = elim (Bool-cases (Map.is_empty ctxs)) [
    | inl empty ↦ rw empty (Covers-of_is_empty Good ctxs ctxs (λ id needed k. inl k) empty)
    | inr more ↦ rw more (
        walk-TraversalOk fuel ctxs (root ∷ [])
          (λ x m. elim m [ inl e ↦ rw e here | inr f ↦ absurd f ]))
  ]
