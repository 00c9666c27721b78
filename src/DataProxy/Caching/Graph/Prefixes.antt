-- ===== src/DataProxy/Caching/Graph/Prefixes.antt =====
-- `get_prefixes` (components/data_proxy/src/caching/cache.rs) and the ways up.
use aos_server.Base.{ℕ, ◌+◌, List, [], ◌∷◌}
use aos_server.DataProxy.Objects.{TypedId}
use aos_server.DataProxy.Caching.{ProxyCache}
use aos_server.DataProxy.Caching.Graph.{Named}
use aos_server.DataProxy.Caching.Graph.Climbs.{Climbs, Grounded, cost}

-- All ways up from the entries of a queue end.
data GroundedQueue (c : ProxyCache) : List (TypedId × List Named) → Type 0 where
  settled : GroundedQueue c []
  waiting :
      {id : TypedId} {visited : List Named} {queue : List (TypedId × List Named)}
      → Grounded c id
      → GroundedQueue c queue
      → GroundedQueue c ((id, visited) ∷ queue)

cost_queue : {c : ProxyCache} {queue : List (TypedId × List Named)} → GroundedQueue c queue → ℕ
cost_queue settled = 0
cost_queue (waiting g q) = cost g + cost_queue q
