-- ===== src/ServerCache/Traverse/Steps.antt =====
-- The rounds of the walk as equations, for proofs that keep it shut.
use aos_server.Base.{ℕ, zero, suc, ◌≡◌, refl, none, some, List, [], ◌∷◌}
use aos_server.Enums.{DbPermissionLevel}
use aos_server.ServerCache.{Ulid, ObjectWithRelations, Cache}
use aos_server.ServerCache.Objects.{get_object, get_permission_children}
use aos_server.ServerCache.Traverse.{Requests, exhausted, settle, scan, walk}

module _ (c : Cache) (perm : DbPermissionLevel) where
  pub walk-nil : (fuel : ℕ) (ctxs : Requests) → walk c perm fuel ctxs [] ≡ some (exhausted ctxs)
  unfolding walk
  walk-nil fuel ctxs = refl

  pub walk-zero :
      (ctxs : Requests) (x : Ulid) (queue : List Ulid) → walk c perm zero ctxs (x ∷ queue) ≡ none
  unfolding walk
  walk-zero ctxs x queue = refl

  pub walk-missing :
      (fuel : ℕ) (ctxs : Requests) (x : Ulid) (queue : List Ulid)
      → get_object x c ≡ none
      → walk c perm (suc fuel) ctxs (x ∷ queue) ≡ walk c perm fuel ctxs queue
  unfolding walk
  walk-missing fuel ctxs x queue e = rw (e, walk) refl

  pub walk-object :
      (fuel : ℕ) (ctxs : Requests) (x : Ulid) (queue : List Ulid) {o : ObjectWithRelations}
      → get_object x c ≡ some o
      → walk c perm (suc fuel) ctxs (x ∷ queue)
        ≡ settle (walk c perm fuel) (scan perm (get_permission_children o) ctxs queue)
  unfolding walk
  walk-object fuel ctxs x queue e = rw (e, walk) refl
