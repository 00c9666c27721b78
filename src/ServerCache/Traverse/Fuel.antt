-- ===== src/ServerCache/Traverse/Fuel.antt =====
-- How much fuel the walk of `traverse_down` needs: in a hierarchy of finite depth, as many rounds as
-- there are walks down from the root, since an id is queued once for each way that leads to it.
use aos_server.Base.{
  ℕ, zero, suc, ◌+◌, ◌≤◌, ◌<◌, ◌≡◌, refl, subst, ◌≢◌, Option, none, some, inl, inr, List, [], ◌∷◌,
  ◌++◌, Bool-cases, Option-cases, In, In-append_cases, arith,
}
use aos_server.Base.Map
use aos_server.Enums.{ObjectType, DbPermissionLevel}
use aos_server.ServerCache.{Ulid, ObjectWithRelations, Cache}
use aos_server.ServerCache.Objects.{get_object, get_permission_children}
use aos_server.ServerCache.Traverse.{
  Requests, Round, invalid, finished, continue, scan, Traversal, settle, walk, traverse_down,
}
use aos_server.ServerCache.Traverse.Steps.{walk-nil, walk-missing, walk-object}
use aos_server.ServerCache.Traverse.Reach.{IsChild}
use aos_server.ServerCache.Traverse.Complete.{RoundLacks, scan-RoundLacks}

abbrev total : (Ulid → ℕ) → List Ulid → ℕ
total w [] = 0
total w (x ∷ xs) = w x + total w xs

total-append : (w : Ulid → ℕ) (xs ys : List Ulid) → total w (xs ++ ys) ≡ total w xs + total w ys
total-append w [] ys = omega arith
total-append w (x ∷ xs) ys = omega (arith, total-append w xs ys)

total_mono :
    (v w : Ulid → ℕ) (xs : List Ulid) → ((x : Ulid) → In x xs → v x ≤ w x) → total v xs ≤ total w xs
total_mono v w [] h = omega arith
total_mono v w (x ∷ xs) h = omega (arith, h x (inl refl), total_mono v w xs (λ y m. h y (inr m)))

module _ (c : Cache) where
  abbrev children_of : Option ObjectWithRelations → List Ulid
  children_of none = []
  children_of (some o) = get_permission_children o

  -- The walks down from `x` of length `n` at most.
  unfoldable pub tree_size : ℕ → Ulid → ℕ
  tree_size zero x = 1
  tree_size (suc n) x = suc (total (tree_size n) (children_of (get_object x c)))

  module _ (rank : Ulid → ℕ) (falls : (a b : Ulid) → IsChild c a b → rank b < rank a) where
    child_rank : (x y : Ulid) → In y (children_of (get_object x c)) → rank y < rank x
    child_rank x y m = elim (Option-cases (get_object x c)) [
      | inl e ↦ absurd (subst (λ o. In y (children_of o)) e m)
      | inr (o, e) ↦
          falls x y
            (record { object = o; cached = e; listed = subst (λ p. In y (children_of p)) e m })
    ]

    -- Beyond the rank of its root the tree grows no more.
    tree_size_stable : (n : ℕ) (x : Ulid) → rank x ≤ n → tree_size (suc n) x ≤ tree_size n x
    unfolding tree_size
    tree_size_stable zero x h = omega (
      arith,
      total_mono (λ y. 1) (λ y. 0) (children_of (get_object x c))
          (λ y m. absurd (omega (arith, child_rank x y m))),
      total_zero (children_of (get_object x c)),
    )
      where
        total_zero : (xs : List Ulid) → total (λ y. 0) xs ≡ 0
        total_zero [] = refl
        total_zero (y ∷ ys) = omega (arith, total_zero ys)
    tree_size_stable (suc n) x h = omega (
      arith,
      total_mono (tree_size (suc n)) (tree_size n) (children_of (get_object x c))
          (λ y m. tree_size_stable n y (omega (arith, child_rank x y m))),
    )

    tree_size_pos : (n : ℕ) (x : Ulid) → 0 < tree_size n x
    unfolding tree_size
    tree_size_pos zero x = omega arith
    tree_size_pos (suc n) x = omega arith

    tree_size_children :
        (n : ℕ) (x : Ulid) {o : ObjectWithRelations}
        → rank x ≤ n
        → get_object x c ≡ some o
        → total (tree_size n) (get_permission_children o) < tree_size n x
    unfolding tree_size
    tree_size_children n x h e =
        subst (λ p. total (tree_size n) (children_of p) < tree_size n x) e (tree_size_stable n x h)

    settle-ne-none :
        (perm : DbPermissionLevel) (children : List Ulid) (ctxs : Requests) (queue : List Ulid)
        (next : Requests → List Ulid → Option Traversal) (r : Round)
        → RoundLacks perm children ctxs queue r
        → ((ctxs' : Requests) → next ctxs' queue ≢ none)
        → settle next r ≢ none
    settle-ne-none perm children ctxs queue next invalid h k = λ e. cc
    settle-ne-none perm children ctxs queue next finished h k = λ e. cc
    settle-ne-none perm children ctxs queue next (continue ctxs' q) h k = rw h.2 (k ctxs')

    walk_ends :
        (perm : DbPermissionLevel) (n fuel : ℕ) (ctxs : Requests) (queue : List Ulid)
        → ((x : Ulid) → In x queue → rank x ≤ n)
        → total (tree_size n) queue ≤ fuel
        → walk c perm fuel ctxs queue ≢ none
    walk_ends perm n fuel ctxs [] ranked h = λ e. cc (walk-nil c perm fuel ctxs)
    walk_ends perm n zero ctxs (x ∷ queue) ranked h = absurd (omega (arith, tree_size_pos n x))
    walk_ends perm n (suc fuel) ctxs (x ∷ queue) ranked h = elim (Option-cases (get_object x c)) [
      | inl e ↦ rw (walk-missing c perm fuel ctxs x queue e) (
          walk_ends perm n fuel ctxs queue (λ y m. ranked y (inr m))
            (omega (arith, tree_size_pos n x)))
      | inr (o, e) ↦
          let children = get_permission_children o in
          rw (walk-object c perm fuel ctxs x queue e) (
            settle-ne-none perm children ctxs (queue ++ children) (walk c perm fuel)
              (scan perm children ctxs queue) (scan-RoundLacks perm children ctxs queue)
              (λ ctxs'.
                walk_ends perm n fuel ctxs' (queue ++ children)
                  (λ y m. elim (In-append_cases y queue children m) [
                    | inl q ↦ ranked y (inr q)
                    | inr k ↦ omega (
                      arith,
                      ranked x (inl refl),
                      falls x y (record { object = o; cached = e; listed = k }),
                    )
                  ])
                  (omega (
                    arith,
                    total-append (tree_size n) queue children,
                    tree_size_children n x (ranked x (inl refl)) e,
                  ))))
    ]

-- How high a type of object stands over the ids that are not cached.
abbrev type_height : ObjectType → ℕ
type_height ObjectType.object = 1
type_height ObjectType.dataset = 2
type_height ObjectType.collection = 3
type_height ObjectType.project = 4

abbrev cached_height : Option ObjectWithRelations → ℕ
cached_height none = 0
cached_height (some o) = type_height o.object.object_type

abbrev pub height : Cache → Ulid → ℕ
height c x = cached_height (get_object x c)

-- Permission children are of a lower type than the object that lists them.
abbrev pub IsLayered : Cache → Type 0
IsLayered c = (a b : Ulid) → IsChild c a b → height c b < height c a

height_bound : (c : Cache) (x : Ulid) → height c x ≤ 4
height_bound c x = bound (get_object x c)
  where
    bound : (o : Option ObjectWithRelations) → cached_height o ≤ 4
    bound none = omega arith
    bound (some o) = type_bound o.object.object_type
      where
        type_bound : (t : ObjectType) → type_height t ≤ 4
        type_bound ObjectType.object = omega arith
        type_bound ObjectType.dataset = omega arith
        type_bound ObjectType.collection = omega arith
        type_bound ObjectType.project = omega arith

-- Where permission children are of a lower type than their parent, `traverse_down` returns, after
-- at most as many rounds as there are walks of at most four steps down from the root.
pub traverse_down_ends :
    (c : Cache) (root : Ulid) (perm : DbPermissionLevel) (ctxs : Requests) (fuel : ℕ)
    → IsLayered c
    → tree_size c 4 root ≤ fuel
    → traverse_down fuel c root perm ctxs ≢ none
unfolding traverse_down
traverse_down_ends c root perm ctxs fuel layered enough = elim (Bool-cases (Map.is_empty ctxs)) [
  | inl empty ↦ rw empty (λ e. cc)
  | inr more ↦ rw more (
      walk_ends c (height c) layered perm 4 fuel ctxs (root ∷ []) (λ x m. height_bound c x)
        (omega arith))
]
