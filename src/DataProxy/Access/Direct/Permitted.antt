-- ===== src/DataProxy/Access/Direct/Permitted.antt =====
-- What a request for an object by its id must have shown before it is let through.
use aos_server.Base.{ℕ, String, true, ◌≡◌, ◌⊎◌, Option, none, some, List, In, IsOk}
use aos_server.Base.Map
use aos_server.Base.Map.{Map}
use aos_server.Enums.{DbPermissionLevel}
use aos_server.ServerCache.{Ulid}
use aos_server.DataProxy.Objects.{ProxyObject, TypedId, typed_id}
use aos_server.DataProxy.States.{is_public, at_least}
use aos_server.DataProxy.Caching.{ProxyCache}
use aos_server.DataProxy.Access.{
  Handler, Request, objects, CheckAccessResult, User, extract_access_key_perms,
}
use aos_server.DataProxy.Access.Direct.{Answer, keyed_state, package_parents}

-- Of an answer that lets the request through.
abbrev pub Lets : (CheckAccessResult → Type 0) → Answer → Type 0
Lets P none = Unit
Lets P (some result) = IsOk P result

-- The permissions reach the level on one of the ids.
abbrev pub HoldsOne : Map DbPermissionLevel → DbPermissionLevel → List TypedId → Type 0
HoldsOne permissions expected ids =
    (id : TypedId) × In id ids × (at_least expected (Map.get (typed_id id) permissions) ≡ true)

module _ (h : Handler) (c : ProxyCache) (req : Request) where
  -- Without a known access key nothing is asked for. With one, the object is public, or the key may
  -- read a resource above it (a project: the project itself).
  abbrev MayRead : ProxyObject → List TypedId → Option User → Type 0
  MayRead o parents none = Unit
  MayRead o parents (some (key, attrs)) =
      (is_public o.data_class ≡ true) ⊎ HoldsOne key.permissions DbPermissionLevel.read parents

  abbrev pub IsOpened : ℕ → CheckAccessResult → Type 0
  IsOpened fuel result =
      (id : Ulid) × (o : ProxyObject) × (path : String) × (parents : List TypedId)
      × (result.objects_state ≡ objects o path)
      × (result.user_state ≡ keyed_state h.to_string (extract_access_key_perms req.creds c))
      × (package_parents fuel id o.object_type c ≡ some parents)
      × MayRead o parents (extract_access_key_perms req.creds c)
