-- ===== src/DataProxy/Caching/Graph/Suffixes.antt =====
-- The fuel of `get_suffixes` (components/data_proxy/src/caching/cache.rs).
use aos_server.Base.{
  arith, ℕ, zero, suc, ◌+◌, ◌<◌, String, Bool, ◌≡◌, refl, none, some, List, [], ◌∷◌, ◌++◌,
}
use aos_server.DataProxy.Objects.{TypedId, typed_id}
use aos_server.DataProxy.Caching.{ProxyCache}
use aos_server.DataProxy.Caching.Graph.{Named, get_children, push_children, descend, get_suffixes}

-- Every way down ends.
mutual
  data Ending (c : ProxyCache) : TypedId → Type 0 where
    leaf : {id : TypedId} → get_children (typed_id id) c ≡ none → Ending c id
    above :
        {id : TypedId} (children : List Named)
        → get_children (typed_id id) c ≡ some children
        → EndingAll c children
        → Ending c id

  data EndingAll (c : ProxyCache) : List Named → Type 0 where
    no_more : EndingAll c []
    more :
        {child : Named} {children : List Named}
        → Ending c child.1
        → EndingAll c children
        → EndingAll c (child ∷ children)

-- The number of resources on all ways down.
mutual
  size : {c : ProxyCache} {id : TypedId} → Ending c id → ℕ
  size (leaf e) = 1
  size (above children e all) = suc (size_all all)

  size_all : {c : ProxyCache} {children : List Named} → EndingAll c children → ℕ
  size_all no_more = 0
  size_all (more g all) = size g + size_all all

data EndingQueue (c : ProxyCache) : List (TypedId × String) → Type 0 where
  settled : EndingQueue c []
  waiting :
      {id : TypedId} {path : String} {queue : List (TypedId × String)}
      → Ending c id
      → EndingQueue c queue
      → EndingQueue c ((id, path) ∷ queue)

size_queue : {c : ProxyCache} {queue : List (TypedId × String)} → EndingQueue c queue → ℕ
size_queue settled = 0
size_queue (waiting g q) = size g + size_queue q

module _ (c : ProxyCache) (inter : Bool) where
  push_children-EndingQueue :
      (path : String) (queue : List (TypedId × String)) {children : List Named}
      (q : EndingQueue c queue) (all : EndingAll c children)
      → (q' : EndingQueue c (queue ++ push_children c inter path children)) × (size_queue q'
          ≡ size_queue q + size_all all)
  unfolding push_children size_queue size_all
  push_children-EndingQueue path [] settled no_more = (settled, omega arith)
  push_children-EndingQueue path [] settled (more g all) =
      let (q', e) = push_children-EndingQueue path [] settled all in
      (waiting g q', omega (arith, e))
  push_children-EndingQueue path (x ∷ queue) (waiting g q) all =
      let (q', e) = push_children-EndingQueue path queue q all in (waiting g q', omega (arith, e))

  descend_ends :
      (fuel : ℕ) (queue acc : List (TypedId × String)) (q : EndingQueue c queue)
      → size_queue q < fuel
      → (result : List (TypedId × String)) × (descend c inter fuel queue acc ≡ some result)
  unfolding descend size_queue size
  descend_ends zero queue acc q enough = elim enough [ ]
  descend_ends (suc fuel) [] acc settled enough = (acc, refl)
  descend_ends (suc fuel) ((id, path) ∷ queue) acc (waiting (leaf e) q) enough =
      rw (e, descend) (descend_ends fuel queue _ q (omega arith))
  descend_ends (suc fuel) ((id, path) ∷ queue) acc (waiting (above children e all) q) enough =
      let (q', sum) = push_children-EndingQueue path queue q all in
      rw (e, descend) (descend_ends fuel _ _ q' (omega (arith, sum)))

  -- Where every way down from a resource ends, and the fuel is above the number of resources on all of
  -- them, the search for suffixes returns.
  get_suffixes_ends :
      (fuel : ℕ) (id : TypedId) (g : Ending c id)
      → size g < fuel
      → (result : List (TypedId × String)) × (get_suffixes fuel id inter c ≡ some result)
  unfolding get_suffixes size_queue
  get_suffixes_ends fuel id g enough =
      descend_ends fuel ((id, "") ∷ []) [] (waiting g settled) (omega arith)
