-- ===== src/DataProxy/Caching/Graph/Climbs.antt =====
-- The search for prefixes against the ways up from a resource.
use aos_server.Base.{
  ℕ, zero, suc, ◌+◌, String, Bool, ◌≡◌, refl, ◌⊎◌, inl, inr, none, some, List, [], ◌∷◌, ◌++◌, In,
  In-append_cases, Option-cases,
}
use aos_server.DataProxy.Objects.{TypedId, typed_id}
use aos_server.DataProxy.Caching.{ProxyCache}
use aos_server.DataProxy.Caching.Graph.{Named, get_parents, enter, push_parents, paths_along, climb}

-- A way up: from parent to parent, each entered, until a resource has none.
pub data Climbs (c : ProxyCache) (final : List Named) : TypedId → List Named → Type 0 where
  top :
      {id : TypedId} {visited : List Named}
      → get_parents (typed_id id) c ≡ none
      → visited ≡ final
      → Climbs c final id visited
  up :
      {id : TypedId} {visited : List Named} (parent : Named) (parents : List Named)
      → get_parents (typed_id id) c ≡ some parents
      → In parent parents
      → Climbs c final parent.1 (enter parent visited)
      → Climbs c final id visited

-- Every way up ends.
mutual
  pub data Grounded (c : ProxyCache) : TypedId → Type 0 where
    root : {id : TypedId} → get_parents (typed_id id) c ≡ none → Grounded c id
    below :
        {id : TypedId} (parents : List Named)
        → get_parents (typed_id id) c ≡ some parents
        → GroundedAll c parents
        → Grounded c id

  pub data GroundedAll (c : ProxyCache) : List Named → Type 0 where
    no_more : GroundedAll c []
    more :
        {parent : Named} {parents : List Named}
        → Grounded c parent.1
        → GroundedAll c parents
        → GroundedAll c (parent ∷ parents)

-- The number of resources on all ways up.
unfoldable mutual
  pub cost : {c : ProxyCache} {id : TypedId} → Grounded c id → ℕ
  cost (root e) = 1
  cost (below parents e all) = suc (cost_all all)

  pub cost_all : {c : ProxyCache} {parents : List Named} → GroundedAll c parents → ℕ
  cost_all no_more = 0
  cost_all (more g all) = cost g + cost_all all

In-push_parents :
    (visited : List Named) (parents : List Named) (i : TypedId) (w : List Named)
    → In (i, w) (push_parents visited parents)
    → (p : Named) × In p parents × (i ≡ p.1) × (w ≡ enter p visited)
unfolding push_parents
In-push_parents visited [] i w h = absurd h
In-push_parents visited (p ∷ parents) i w (inl e) = (p, inl refl, cc, cc)
In-push_parents visited (p ∷ parents) i w (inr h) =
    let (q, within, e1, e2) = In-push_parents visited parents i w h in (q, inr within, e1, e2)

pub push_parents-In :
    (visited : List Named) (parents : List Named) (p : Named)
    → In p parents
    → In (p.1, enter p visited) (push_parents visited parents)
unfolding push_parents
push_parents-In visited [] p h = absurd h
push_parents-In visited (q ∷ parents) p (inl e) = inl (rw e refl)
push_parents-In visited (q ∷ parents) p (inr h) = inr (push_parents-In visited parents p h)

module _ (c : ProxyCache) (inter : Bool) where
  -- `x` is a path along some way up from an entry of the queue.
  abbrev pub Reached : List (TypedId × List Named) → TypedId × String → Type 0
  Reached queue x =
      (id : TypedId) × (visited : List Named) × (final : List Named) × In (id, visited) queue
      × Climbs c final id visited
      × In x (paths_along inter "" final)

  abbrev pub Found :
      List (TypedId × List Named) → List (TypedId × String) → TypedId × String → Type 0
  Found queue acc x = In x acc ⊎ Reached queue x

  pub climb_sound :
      (fuel : ℕ) (queue : List (TypedId × List Named)) (acc result : List (TypedId × String))
      (x : TypedId × String)
      → climb c inter fuel queue acc ≡ some result
      → In x result
      → Found queue acc x
  unfolding climb
  climb_sound zero queue acc result x e h = cc
  climb_sound (suc fuel) [] acc result x e h = let same : acc ≡ result = cc in inl (rw same h)
  climb_sound (suc fuel) ((id, visited) ∷ queue) acc result x e h =
      elim (Option-cases (get_parents (typed_id id) c)) [
        | inl none_above ↦ at_top none_above (
            climb_sound fuel queue (acc ++ paths_along inter "" visited) result x
              (rw (none_above, climb) at e) h)
        | inr (parents, above) ↦ further parents above (
            climb_sound fuel (queue ++ push_parents visited parents) acc result x
              (rw (above, climb) at e) h)
      ]
    where
      later : Found queue acc x → Found ((id, visited) ∷ queue) acc x
      later (inl a) = inl a
      later (inr (i, v, final, within, way, on)) = inr (i, v, final, inr within, way, on)

      at_top :
          get_parents (typed_id id) c ≡ none
          → Found queue (acc ++ paths_along inter "" visited) x
          → Found ((id, visited) ∷ queue) acc x
      at_top none_above (inr r) = later (inr r)
      at_top none_above (inl a) = elim (In-append_cases x acc (paths_along inter "" visited) a) [
        | inl old ↦ inl old
        | inr on ↦ inr (id, visited, visited, inl refl, top none_above refl, on)
      ]

      further :
          (parents : List Named)
          → get_parents (typed_id id) c ≡ some parents
          → Found (queue ++ push_parents visited parents) acc x
          → Found ((id, visited) ∷ queue) acc x
      further parents above (inl a) = inl a
      further parents above (inr (i, v, final, within, way, on)) =
          elim (In-append_cases (i, v) queue (push_parents visited parents) within) [
            | inl old ↦ inr (i, v, final, inr old, way, on)
            | inr new ↦
                let (p, is_parent, e1, e2) = In-push_parents visited parents i v new in
                inr (
                  id,
                  visited,
                  final,
                  inl refl,
                  up p parents above is_parent (rw (← e1, ← e2) way),
                  on,
                )
          ]
