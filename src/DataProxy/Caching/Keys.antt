-- ===== src/DataProxy/Caching/Keys.antt =====
-- Users of the proxy and their access keys: `upsert_user`, `remove_user` and the secrets of
-- components/data_proxy/src/caching/cache.rs, with `User::compare_permissions` and the conversion of a
-- user of components/data_proxy/src/structs.rs. `to_string` and `from_str` print and read an id.
pub mod Removed
pub mod Revoked
use text.Mathlib.Text.{◌==◌ as str_eq}
use aos_server.Base.{
  ℕ, String, Bool, true, false, not, ◌&&◌, Option, none, some, List, [], ◌∷◌, ◌++◌, ◌==◌, all, any,
  keep, map, length, Result, ok, err, ◌>>=◌, Error, message, ok_or, if◌then◌else◌,
}
use aos_server.Base.Map
use aos_server.Base.Map.{Map}
use aos_server.Base.Texts.{lookup, put, erase}
use aos_server.Enums.{DbPermissionLevel, level}
use aos_server.Enums.Api.{
  PermissionLevel, ResourceId, project_id, collection_id, dataset_id, object_id,
}
use aos_server.ServerCache.{Ulid}
use aos_server.DataProxy.Objects.{Texts, permission_level}
use aos_server.DataProxy.States.{AccessKeyPermissions}
use aos_server.DataProxy.Caching.{ProxyCache, ProxyUser, PubKey}

abbrev pub Permissions : Type 0
Permissions = Map DbPermissionLevel

pub record ApiPermission : Type 0 where
  pub permission_level : PermissionLevel
  pub resource_id : Option ResourceId

pub record Token : Type 0 where
  pub id : String
  pub permission : Option ApiPermission

pub record GrpcAttributes : Type 0 where
  pub service_account : Bool
  pub tokens : List Token
  pub personal_permissions : List ApiPermission
  pub data_proxy_attributes : Texts
  pub custom_attributes : Texts

pub record GrpcUser : Type 0 where
  pub id : String
  pub attributes : Option GrpcAttributes

abbrev inner_id : ResourceId → String
inner_id (project_id id) = id
inner_id (collection_id id) = id
inner_id (dataset_id id) = id
inner_id (object_id id) = id

abbrev put_all : Texts → Texts → Texts
put_all [] m = m
put_all ((k, v) ∷ kvs) m = put_all kvs (put k v m)

module _ (from_str : String → Result Error Ulid) where
  -- What has no resource, or one whose id is unreadable, is skipped. Later entries replace earlier.
  unfoldable pub perm_convert : List ApiPermission → Permissions → Permissions
  perm_convert [] perms = perms
  perm_convert (p ∷ ps) perms = elim p.resource_id [
    | none ↦ perm_convert ps perms
    | some r ↦ elim (from_str (inner_id r)) [
      | err e ↦ perm_convert ps perms
      | ok id ↦ perm_convert ps (Map.insert id (permission_level p.permission_level) perms)
    ]
  ]

  unfoldable pub token_permissions : Permissions → Option ApiPermission → Result Error Permissions
  token_permissions personal none = err (message "No permission found")
  token_permissions personal (some perm) = elim perm.resource_id [
    | none ↦ ok personal
    | some r ↦ elim (from_str (inner_id r)) [
      | err e ↦ err e
      | ok id ↦ ok ((id, permission_level perm.permission_level) ∷ [])
    ]
  ]

  unfoldable pub convert_tokens :
      Permissions → List Token → Map Permissions → Result Error (Map Permissions)
  convert_tokens personal [] tokens = ok tokens
  convert_tokens personal (t ∷ ts) tokens = do
    id ← from_str t.id
    perms ← token_permissions personal t.permission
    convert_tokens personal ts (Map.insert id perms tokens)

  unfoldable pub user_of : GrpcUser → Result Error ProxyUser
  unfolding perm_convert convert_tokens
  user_of value = do
    user_id ← from_str value.id
    attrs ← ok_or value.attributes (message "No tokens found")
    let personal = perm_convert attrs.personal_permissions []
    tokens ← convert_tokens personal attrs.tokens []
    ok record {
      user_id = user_id;
      personal_permissions = personal;
      tokens = tokens;
      is_service_account = attrs.service_account;
      attributes = put_all attrs.custom_attributes (put_all attrs.data_proxy_attributes []);
    }

abbrev pub holds : Permissions → Ulid × DbPermissionLevel → Bool
holds perms (id, has) = elim (Map.get id perms) [
  | none ↦ false
  | some other ↦ level other == level has
]

-- `==` of hash maps.
abbrev pub same_permissions : Permissions → Permissions → Bool
same_permissions a b = length a == length b && all (holds b) a

abbrev Update : Type 0
Update = String × Permissions

module _ (to_string : Ulid → String) where
  -- The loop over the new personal permissions: one update for each that is new or differs.
  unfoldable pub personal_updates : ProxyUser → Permissions → Permissions → List Update
  personal_updates new old [] = []
  personal_updates new old (p ∷ perms) =
      let later = personal_updates new old perms in
      if holds old p then later else (to_string new.user_id, new.personal_permissions) ∷ later

  unfoldable pub token_updates : Map Permissions → Map Permissions → List Update
  token_updates old [] = []
  token_updates old ((k, v) ∷ tokens) =
      let later = token_updates old tokens in
      elim (Map.get k old) [
        | none ↦ later
        | some ov ↦ if same_permissions v ov then later else (to_string k, v) ∷ later
      ]

  unfoldable pub gone_tokens : Map Permissions → Map Permissions → List String
  gone_tokens new [] = []
  gone_tokens new ((k, v) ∷ old) =
      let later = gone_tokens new old in
      if Map.contains_key k new then later else to_string k ∷ later

  -- `self` is the new user, `other` the one that is kept.
  unfoldable pub compare_permissions : ProxyUser → ProxyUser → List Update × List String
  unfolding personal_updates token_updates gone_tokens
  compare_permissions new old = (
    personal_updates new old.personal_permissions new.personal_permissions
        ++ token_updates old.tokens new.tokens,
    gone_tokens new.tokens old.tokens,
  )

-- The outcomes of the queries: by access key, and for the user.
pub record Queries : Type 0 where
  pub delete_key : String → Result Error (Unit {0})
  pub upsert_key : String → Result Error (Unit {0})
  pub write_user : Result Error (Unit {0})

abbrev pub Stage : Type 0
Stage = Result Error (Unit {0}) × ProxyCache

abbrev pub continue : Result Error (Unit {0}) → ProxyCache → (ProxyCache → Stage) → Stage
continue (ok done) c next = next c
continue (err e) c next = (err e, c)

module _ (q : Queries) where
  unfoldable pub drop_keys : List String → ProxyCache → (ProxyCache → Stage) → Stage
  drop_keys [] c next = next c
  drop_keys (key ∷ keys) c next =
      continue (q.delete_key key) (record c { access_keys = erase key c.access_keys })
        (λ c'. drop_keys keys c' next)

  unfoldable pub update_keys : List Update → ProxyCache → (ProxyCache → Stage) → Stage
  update_keys [] c next = next c
  update_keys ((key, perms) ∷ updates) c next = elim (lookup key c.access_keys) [
    | none ↦ update_keys updates c next
    | some access ↦
        continue (q.upsert_key key)
          (record c { access_keys = put key (record access { permissions = perms }) c.access_keys })
          (λ c'. update_keys updates c' next)
  ]

abbrev pub contains : List String → String → Bool
contains keys key = any (str_eq key) keys

module _ (to_string : Ulid → String) (from_str : String → Result Error Ulid) (q : Queries) where
  abbrev finish : ProxyCache → Stage
  finish c = (q.write_user, c)

  -- The new user takes the place of the old one and keeps the registered keys that remain.
  unfoldable pub replace_user : ProxyUser → Option (ProxyUser × List String) → ProxyCache → Stage
  unfolding drop_keys update_keys compare_permissions
  replace_user new none c = finish (record c { users = Map.insert new.user_id (new, []) c.users })
  replace_user new (some (old, keys)) c =
      let (to_update, to_delete) = compare_permissions to_string new old in
      let kept = keep (λ k. not (contains to_delete k)) keys in
      drop_keys q to_delete (record c { users = Map.insert new.user_id (new, kept) c.users })
        (λ c'. update_keys q to_update c' finish)

  abbrev with_user : Result Error ProxyUser → (ProxyUser → Stage) → ProxyCache → Stage
  with_user (ok user) next c = next user
  with_user (err e) next c = (err e, c)

  unfoldable pub upsert_user : GrpcUser → ProxyCache → Stage
  unfolding replace_user user_of
  upsert_user user c =
      with_user (user_of from_str user) (λ new. replace_user new (Map.get new.user_id c.users) c) c

  unfoldable pub remove_user : Ulid → ProxyCache → Stage
  unfolding drop_keys
  remove_user id c = elim (Map.get id c.users) [
    | none ↦ (ok tt, c)
    | some (user, keys) ↦ drop_keys q keys (record c { users = Map.remove id c.users }) finish
  ]
