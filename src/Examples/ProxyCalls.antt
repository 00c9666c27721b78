-- ===== src/Examples/ProxyCalls.antt =====
-- Calls of the small data proxy's cache, and the theorems on the cache at it.
use Prim.Native.String.{◌++◌ as ◌<>◌}
use aos_server.Base.{String, false, ◌≡◌, refl, none, some, [], ◌∷◌, ok}
use aos_server.Base.Map
use aos_server.Base.Texts.{lookup}
use aos_server.Enums.{DbPermissionLevel}
use aos_server.DataProxy.Objects.{TypedId, typed, ProxyObject, typed_id, relation_id}
use aos_server.DataProxy.Caching.{ProxyCache, ProxyUser}
use aos_server.DataProxy.Caching.Graph.{get_suffixes, get_parents, collect, get_children}
use aos_server.DataProxy.Caching.Graph.Climbs.{Climbs, Grounded, root, below, no_more, more}
use aos_server.DataProxy.Caching.Keys.{Queries, GrpcUser, user_of, upsert_user}
use aos_server.DataProxy.Caching.Keys.Revoked.{upsert_user-revoked}
use aos_server.DataProxy.Caching.Paths.{delete_object, enter_object, get_resource_by_path}
use aos_server.DataProxy.Caching.Paths.Lost.{delete_object-paths}
use aos_server.DataProxy.Caching.Paths.Entered.{entered}
use aos_server.Examples.Proxy.{to_string, from_str, bucket, file, owner, proxy}
use aos_server.Base.Texts

abbrev successes : Queries
successes = record { delete_key = λ key. ok tt; upsert_key = λ key. ok tt; write_user = ok tt }

-- The user as the server sends it: without any permission.
abbrev stripped : GrpcUser
stripped = record {
  id = "7";
  attributes = some record {
    service_account = false;
    tokens = [];
    personal_permissions = [];
    data_proxy_attributes = [];
    custom_attributes = [];
  };
}

abbrev new_user : ProxyUser
new_user = record owner { personal_permissions = [] }

converted : user_of from_str stripped ≡ ok new_user
unfolding user_of
converted = refl

upsert_user-revoked_example :
    (upsert_user to_string from_str successes stripped proxy).1.access_keys ≡ proxy.access_keys
unfolding Map.get
upsert_user-revoked_example =
    upsert_user-revoked to_string from_str successes stripped new_user owner ("7" ∷ []) proxy
      converted refl refl refl refl

abbrev with_token : ProxyUser
with_token = record owner { tokens = (2, (1, DbPermissionLevel.read) ∷ []) ∷ [] }

abbrev tokened : ProxyCache
tokened = record proxy { users = (7, (with_token, "7" ∷ "2" ∷ [])) ∷ [] }

delete_object-paths_example :
    (c' : ProxyCache) × (delete_object 5 (ok tt) (ok tt) 2 proxy ≡ some (ok tt, c'))
    × (Map.get 2 c'.resources ≡ none)
    × (c'.paths ≡ proxy.paths)
unfolding Map.get
delete_object-paths_example = delete_object-paths 3 2 file none proxy refl refl

-- A second object is entered into the project.
abbrev second : ProxyObject
second = record file { id = 3; name = "n" }

-- The project gets another name.
abbrev renamed : ProxyObject
renamed = record bucket { name = "q" }

suffixes :
    get_suffixes 5 (typed renamed) false (entered renamed proxy)
    ≡ some ((TypedId.object 2, "/o") ∷ [])
unfolding get_suffixes typed enter_object get_children Map.get Map.insert typed_id collect
    relation_id
suffixes = refl

-- The old path still leads to the project.
old_path : get_resource_by_path "p" (entered renamed proxy) ≡ some 1
unfolding get_resource_by_path enter_object lookup Texts.put
old_path = refl

parents_of_file :
    get_parents (typed_id (TypedId.unknown 2)) proxy ≡ some (("p", TypedId.project 1) ∷ [])
unfolding get_parents Map.get collect relation_id typed typed_id
parents_of_file = refl

parents_of_bucket : get_parents (typed_id (TypedId.project 1)) proxy ≡ none
unfolding get_parents Map.get typed_id
parents_of_bucket = refl

abbrev file_Grounded : Grounded proxy (TypedId.unknown 2)
file_Grounded =
    below (("p", TypedId.project 1) ∷ []) parents_of_file (more (root parents_of_bucket) no_more)
