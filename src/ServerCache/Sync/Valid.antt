-- ===== src/ServerCache/Sync/Valid.antt =====
-- What a synchronisation, complete or broken off, leaves in the cache.
use aos_server.Base.{ok, err}
use aos_server.Base.Map
use aos_server.ServerCache.Rules
use aos_server.ServerCache.Invariant.{IsValid}
use aos_server.ServerCache.Sync.{Stage}

-- The cache of a stage is valid, whether or not the stage succeeded.
abbrev Leaves : Stage → Type 0
Leaves (ok done, c) = IsValid c
Leaves (err e, c) = IsValid c
