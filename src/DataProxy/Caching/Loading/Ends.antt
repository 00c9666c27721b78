-- ===== src/DataProxy/Caching/Loading/Ends.antt =====
-- The fuel of `get_single_parent` (components/data_proxy/src/caching/cache.rs).
use aos_server.Base.{
  arith, ℕ, zero, suc, ◌≤◌, ◌≡◌, ◌≢◌, refl, inl, inr, Option, none, some, List, [], ◌∷◌,
  Option-cases, Result, ok, err, Error, message,
}
use aos_server.Base.Map
use aos_server.ServerCache.{Ulid}
use aos_server.DataProxy.Objects.{TypedId, typed_id}
use aos_server.DataProxy.States.{Slice}
use aos_server.DataProxy.Caching.{ProxyCache}
use aos_server.DataProxy.Caching.Graph.{Named, get_parents, collect_some, none_if_nil}
use aos_server.DataProxy.Caching.Graph.Climbs.{Grounded, root, below, more, cost}
use aos_server.DataProxy.Caching.Loading.{climb_first, get_single_parent, get_resource_name}

none_if_nil-some : (parents : Option (List Named)) → none_if_nil parents ≢ some []
none_if_nil-some none e = cc
none_if_nil-some (some []) e = cc
none_if_nil-some (some (x ∷ xs)) e = cc

get_parents-some : (id : Ulid) (c : ProxyCache) → get_parents id c ≢ some []
unfolding get_parents
get_parents-some id c e = elim (Option-cases (Map.get id c.resources)) [
  | inl unknown ↦ cc (rw (get_parents, unknown) at e)
  | inr ((o, location), known) ↦
      none_if_nil-some (collect_some c o.parents) (rw (get_parents, known) at e)
]

-- Where every way up from a resource ends, as many rounds as there are resources on all of them are
-- enough to find the first parents.
climb_first-ends :
    (c : ProxyCache) (id : TypedId) (g : Grounded c id) (fuel : ℕ) (result : Slice)
    → cost g ≤ fuel
    → (r : Result Error Slice) × (climb_first c fuel (typed_id id) result ≡ some r)
unfolding climb_first cost typed_id
climb_first-ends c id (root e) zero result h = absurd (omega (arith, h))
climb_first-ends c id (root e) (suc fuel) result h = (ok result, rw (climb_first, e) refl)
climb_first-ends c id (below parents e all) zero result h = absurd (omega (arith, h))
climb_first-ends c id (below [] e all) (suc fuel) result h =
    absurd (get_parents-some (typed_id id) c e)
climb_first-ends c id (below ((name, TypedId.object p) ∷ ps) e all) (suc fuel) result h =
    (err (message "Unexpected parent type"), rw (climb_first, e) refl)
climb_first-ends c id (below ((name, TypedId.unknown p) ∷ ps) e all) (suc fuel) result h =
    (err (message "Unexpected parent type"), rw (climb_first, e) refl)
climb_first-ends c id (below ((name, TypedId.project p) ∷ ps) e (more g all)) (suc fuel) result h =
    let (r, same) =
      climb_first-ends c (TypedId.project p) g fuel (record result { project = some (p, name) })
        (omega (arith, h)) in
    (r, rw (climb_first, e) same)
climb_first-ends c id (below ((name, TypedId.collection p) ∷ ps) e (more g all)) (suc fuel) result
      h =
    let (r, same) =
      climb_first-ends c (TypedId.collection p) g fuel
        (record result { collection = some (p, name) }) (omega (arith, h)) in
    (r, rw (climb_first, e) same)
climb_first-ends c id (below ((name, TypedId.dataset p) ∷ ps) e (more g all)) (suc fuel) result h =
    let (r, same) =
      climb_first-ends c (TypedId.dataset p) g fuel (record result { dataset = some (p, name) })
        (omega (arith, h)) in
    (r, rw (climb_first, e) same)

-- So `get_single_parent` returns, of an unknown resource at once.
get_single_parent_ends :
    (c : ProxyCache) (id : TypedId) (g : Grounded c id) (fuel : ℕ)
    → cost g ≤ fuel
    → (r : Result Error Slice) × (get_single_parent fuel (typed_id id) c ≡ some r)
unfolding get_single_parent
get_single_parent_ends c id g fuel enough =
    elim (Option-cases (get_resource_name (typed_id id) c)) [
      | inl unknown ↦ (err (message "Resource not found"), rw (get_single_parent, unknown) refl)
      | inr (name, known) ↦
          let start : Slice = record {
            project = none;
            collection = none;
            dataset = none;
            object = some (typed_id id, name);
          } in
          let (r, same) = climb_first-ends c id g fuel start enough in
          (r, rw (get_single_parent, known) same)
    ]
