-- ===== src/ServerCache/Sync/Stages.antt =====
-- What holds of the cache after a stage of the synchronisation that succeeded.
use aos_server.Base.{◌≡◌, refl, Result, ok, err, Error}
use aos_server.ServerCache.{Cache}
use aos_server.ServerCache.Sync.{Stage, proceed, with_rows}

abbrev pub After : (Cache → Type 0) → Stage → Type 0
After P (ok done, c) = P c
After P (err e, c) = Unit

pub proceed-After :
    (P Q : Cache → Type 0) (stage : Stage) (next : Cache → Stage)
    → After P stage
    → ((c : Cache) → P c → After Q (next c))
    → After Q (proceed stage next)
proceed-After P Q (ok done, c) next h k = k c h
proceed-After P Q (err e, c) next h k = tt

pub with_rows-After {ℓ} :
    {A : Type ℓ} (Q : Cache → Type 0) (rows : Result Error A) (next : A → Cache → Stage) (c : Cache)
    → ((a : A) → rows ≡ ok a → After Q (next a c))
    → After Q (with_rows rows next c)
with_rows-After Q (ok a) next c h = h a refl
with_rows-After Q (err e) next c h = tt

pub After-map :
    (P Q : Cache → Type 0) (stage : Stage)
    → ((c : Cache) → P c → Q c)
    → After P stage
    → After Q stage
After-map P Q (ok done, c) f h = f c h
After-map P Q (err e, c) f h = tt
