-- ===== src/DataProxy/Caching/Secrets.antt =====
-- The secrets of access keys, and public keys: components/data_proxy/src/caching/cache.rs.
use text.Mathlib.Text.{◌==◌ as str_eq}
use aos_server.Base.{
  ℕ, String, Option, none, some, List, [], ◌∷◌, ◌++◌, Result, ok, err, ◌>>=◌, Error, message, ok_or,
  if◌then◌else◌,
}
use aos_server.Base.Map
use aos_server.Base.Map.{Map}
use aos_server.Base.Texts.{lookup, put, erase}
use aos_server.ServerCache.{Ulid}
use aos_server.DataProxy.Objects.{Texts}
use aos_server.DataProxy.States.{AccessKeyPermissions}
use aos_server.DataProxy.Caching.{ProxyCache, ProxyUser, PubKey}
use aos_server.DataProxy.Caching.Keys.{Permissions, Stage, continue}

abbrev register : String → ProxyUser × List String → ProxyUser × List String
register key (user, keys) = (user, keys ++ key ∷ [])

abbrev token_of : Result Error Ulid → ProxyUser → Result Error Permissions
token_of (err e) user = err e
token_of (ok id) user = ok_or (Map.get id user.tokens) (message "Access key not found")

-- The user's own id as an access key stands for the personal permissions, a token's id for the token's.
unfoldable pub permissions_of_key :
    (Ulid → String) → (String → Result Error Ulid) → String → ProxyUser → Result Error Permissions
permissions_of_key to_string from_str access_key user =
    if str_eq (to_string user.user_id) access_key
    then ok user.personal_permissions
    else token_of (from_str access_key) user

-- `new_secret` is the random secret; `stored` is the outcome of the query. A failed query leaves the
-- key registered with the user.
abbrev enter_key :
    Result Error (Unit {0})
    → AccessKeyPermissions
    → ProxyCache
    → Result Error (String × String) × ProxyCache
enter_key (err e) key c = (err e, c)
enter_key (ok done) key c = (
  ok (key.access_key, key.secret),
  record c { access_keys = put key.access_key key c.access_keys },
)

abbrev grant_key :
    Result Error (Unit {0})
    → String
    → String
    → Ulid
    → ProxyUser × List String
    → Result Error Permissions
    → ProxyCache
    → Result Error (String × String) × ProxyCache
grant_key stored new_secret access_key user_id entry (err e) c = (err e, c)
grant_key stored new_secret access_key user_id entry (ok perms) c =
    enter_key stored
      (record {
        access_key = access_key;
        user_id = user_id;
        secret = new_secret;
        is_service_account = entry.0.is_service_account;
        permissions = perms;
      })
      (record c { users = Map.insert user_id (register access_key entry) c.users })

unfoldable pub create_or_update_secret :
    (Ulid → String)
    → (String → Result Error Ulid)
    → Result Error (Unit {0})
    → String
    → String
    → Ulid
    → ProxyCache
    → Result Error (String × String) × ProxyCache
unfolding permissions_of_key
create_or_update_secret to_string from_str stored new_secret access_key user_id c =
    elim (Map.get user_id c.users) [
      | none ↦ (err (message "User not found"), c)
      | some (user, keys) ↦
          grant_key stored new_secret access_key user_id (user, keys)
            (permissions_of_key to_string from_str access_key user) c
    ]

unfoldable pub revoke_secret : String → ProxyCache → ProxyCache
revoke_secret access_key c = record c { access_keys = erase access_key c.access_keys }

abbrev secret_of : String → Result Error String
secret_of secret = if str_eq secret "" then err (message "Secret is empty") else ok secret

unfoldable pub get_secret : String → ProxyCache → Result Error String
get_secret access_key c = do
  key ← ok_or (lookup access_key c.access_keys) (message "User not found")
  secret_of key.secret

unfoldable pub get_key_perms : String → ProxyCache → Option AccessKeyPermissions
get_key_perms access_key c = lookup access_key c.access_keys

unfoldable pub get_user_attributes : Ulid → ProxyCache → Option Texts
get_user_attributes id c = elim (Map.get id c.users) [
  | none ↦ none
  | some (user, keys) ↦ some user.attributes
]

unfoldable pub get_pubkey : ℕ → ProxyCache → Result Error PubKey
get_pubkey kid c = ok_or (Map.get kid c.pubkeys) (message "Pubkey not found")

-- `decodable` is the package's reader of a key; an unreadable key ends the loop.
unfoldable pub sync_pubkeys : (String → Result Error (Unit {0})) → List PubKey → ProxyCache → Stage
sync_pubkeys decodable [] c = (ok tt, c)
sync_pubkeys decodable (pk ∷ pks) c =
    continue (decodable pk.key) c
      (λ c'. sync_pubkeys decodable pks (record c' { pubkeys = Map.insert pk.id pk c'.pubkeys }))

unfoldable pub set_pubkeys :
    Result Error (Unit {0}) → (String → Result Error (Unit {0})) → List PubKey → ProxyCache → Stage
unfolding sync_pubkeys
set_pubkeys stored decodable pks c =
    continue stored c (λ c'. sync_pubkeys decodable pks (record c' { pubkeys = [] }))

unfoldable pub add_pubkey :
    Result Error (Unit {0}) → (String → Result Error (Unit {0})) → PubKey → ProxyCache → Stage
unfolding sync_pubkeys
add_pubkey stored decodable pk c = continue stored c (λ c'. sync_pubkeys decodable (pk ∷ []) c')
