-- ===== src/ServerCache/Sync/Loaded.antt =====
-- Which objects and users a synchronisation leaves in the cache.
use aos_server.Base.{Bool, ◌≡◌, Option, none, some, List, [], ◌∷◌, ◌==◌, ok, if◌then◌else◌}
use aos_server.Base.Map
use aos_server.Base.Map.{Map}
use aos_server.ServerCache.{Ulid, ObjectWithRelations, User, Cache}
use aos_server.ServerCache.Sync.{Database, Services}

-- `w`, or what stands before it.
abbrev or_else {ℓ} : {A : Type ℓ} → Option A → Option A → Option A
or_else none v = v
or_else (some w) v = some w

-- The last value that passes the test.
abbrev pub last_with {ℓ} : {A : Type ℓ} → (A → Bool) → List A → Option A
last_with p [] = none
last_with p (v ∷ vs) = or_else (last_with p vs) (if p v then some v else none)

module _ (s : Services) (db : Database) (old : Cache) (objects : List ObjectWithRelations)
    (users : List User) (read : db.objects ≡ ok objects) (read_users : db.users ≡ ok users) where
  abbrev HasObjects : Map ObjectWithRelations → Type 0
  HasObjects m = (id : Ulid) → Map.get id m ≡ last_with (λ o. o.object.id == id) objects

  abbrev HasUsers : Map User → Type 0
  HasUsers m = (id : Ulid) → Map.get id m ≡ last_with (λ u. u.id == id) users

  abbrev Empty : Map ObjectWithRelations → Map User → Type 0
  Empty os us = (os ≡ []) × (us ≡ [])

  abbrev Half : Map ObjectWithRelations → Map User → Type 0
  Half os us = HasObjects os × (us ≡ [])

  abbrev Full : Map ObjectWithRelations → Map User → Type 0
  Full os us = HasObjects os × HasUsers us
