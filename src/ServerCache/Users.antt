-- ===== src/ServerCache/Users.antt =====
-- The users and public keys of the cache (components/server/src/caching/cache.rs).
use text.Mathlib.Text.{◌==◌ as str_eq}
use aos_server.Base.{
  ℕ, String, Bool, ◌&&◌, not, Option, none, some, List, [], ◌∷◌, any, if◌then◌else◌,
}
use aos_server.Base.Map
use aos_server.Base.Map.{Map}
use aos_server.ServerCache.{Ulid, OidcMapping, User, PubKeyEnum, data_proxy, server, Cache}

unfoldable pub get_user : Ulid → Cache → Option User
get_user id c = Map.get id c.user_cache

unfoldable pub add_user : Ulid → User → Cache → Cache
add_user id user c = record c { user_cache = Map.insert id user c.user_cache }

-- An unknown user is not added.
unfoldable pub update_user : Ulid → User → Cache → Cache
update_user id user c =
    if Map.contains_key id c.user_cache
    then record c { user_cache = Map.insert id user c.user_cache }
    else c

unfoldable pub remove_user : Ulid → Cache → Cache
remove_user id c = record c { user_cache = Map.remove id c.user_cache }

-- The derived equality of `OIDCMapping`, and `external_ids.contains`.
abbrev pub oidc_eq : OidcMapping → OidcMapping → Bool
oidc_eq a b = str_eq a.external_id b.external_id && str_eq a.oidc_name b.oidc_name

abbrev pub has_external_id : OidcMapping → User → Bool
has_external_id external user = any (λ e. oidc_eq e external) user.attributes.external_ids

abbrev pub find_user : OidcMapping → List User → Option User
find_user external [] = none
find_user external (u ∷ us) = if has_external_id external u then some u else find_user external us

unfoldable pub get_user_by_oidc : OidcMapping → Cache → Option User
get_user_by_oidc external c = find_user external (Map.values c.user_cache)

unfoldable pub oidc_mapping_exists : OidcMapping → Cache → Bool
oidc_mapping_exists mapping c = any (has_external_id mapping) (Map.values c.user_cache)

abbrev inactive : List User → List User
inactive [] = []
inactive (u ∷ us) = if not u.active then u ∷ inactive us else inactive us

unfoldable pub get_all_deactivated : Cache → List User
get_all_deactivated c = inactive (Map.values c.user_cache)

unfoldable pub get_pubkey : ℕ → Cache → Option PubKeyEnum
get_pubkey serial c = Map.get serial c.pubkeys

unfoldable pub add_pubkey : ℕ → PubKeyEnum → Cache → Cache
add_pubkey id key c = record c { pubkeys = Map.insert id key c.pubkeys }

unfoldable pub remove_pubkey : ℕ → Cache → Cache
remove_pubkey id c = record c { pubkeys = Map.remove id c.pubkeys }

abbrev pub get_key_string : PubKeyEnum → String
get_key_string (data_proxy k n) = k
get_key_string (server k) = k

abbrev find_serial : String → Map PubKeyEnum → Option ℕ
find_serial raw_pubkey [] = none
find_serial raw_pubkey ((serial, key) ∷ m) =
    if str_eq raw_pubkey (get_key_string key) then some serial else find_serial raw_pubkey m

unfoldable pub get_pubkey_serial : String → Cache → Option ℕ
get_pubkey_serial raw_pubkey c = find_serial raw_pubkey c.pubkeys
