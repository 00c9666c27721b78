-- ===== src/DataProxy/Caching/Keys/Revoked.antt =====
-- What becomes of personal permissions that are taken away.
use aos_server.Base.{
  String, ◌≡◌, refl, true, inl, inr, some, List, [], ◌∷◌, all, Bool-cases, Result, ok, Error,
}
use aos_server.Base.Map
use aos_server.Base.Map.{Map}
use aos_server.ServerCache.{Ulid}
use aos_server.DataProxy.Caching.{ProxyCache, ProxyUser}
use aos_server.DataProxy.Caching.Keys.{
  Permissions, GrpcUser, Queries, holds, personal_updates, token_updates, gone_tokens,
  compare_permissions, drop_keys, update_keys, replace_user, user_of, upsert_user,
}

personal_updates-nil :
    (to_string : Ulid → String) (new : ProxyUser) (old perms : Permissions)
    → all (holds old) perms ≡ true
    → personal_updates to_string new old perms ≡ []
unfolding personal_updates
personal_updates-nil to_string new old [] h = refl
personal_updates-nil to_string new old (p ∷ perms) h = elim (Bool-cases (holds old p)) [
  | inl held ↦ rw held (personal_updates-nil to_string new old perms (rw held at h))
  | inr lacks ↦ cc (rw lacks at h)
]

-- When a user without tokens is replaced and all new personal permissions are among the old ones,
-- every access key stays as it is, also where permissions were taken away.
pub upsert_user-revoked :
    (to_string : Ulid → String) (from_str : String → Result Error Ulid) (q : Queries)
    (user : GrpcUser) (new old : ProxyUser) (keys : List String) (c : ProxyCache)
    → user_of from_str user ≡ ok new
    → Map.get new.user_id c.users ≡ some (old, keys)
    → new.tokens ≡ []
    → old.tokens ≡ []
    → all (holds old.personal_permissions) new.personal_permissions ≡ true
    → (upsert_user to_string from_str q user c).1.access_keys ≡ c.access_keys
unfolding upsert_user replace_user compare_permissions drop_keys update_keys token_updates
    gone_tokens
upsert_user-revoked to_string from_str q user new old keys c read e no_new no_old among = rw (
  read,
  e,
  replace_user,
  no_new,
  no_old,
  personal_updates-nil to_string new old.personal_permissions new.personal_permissions among,
)
