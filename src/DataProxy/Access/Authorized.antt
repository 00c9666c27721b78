-- ===== src/DataProxy/Access/Authorized.antt =====
-- What a request for a path must have shown before it is let through.
use aos_server.Base.{
  String, Bool, true, false, ◌&&◌, ◌≡◌, ◌⊎◌, inr, Option, some, List, ◌∷◌, In, IsOk, IsOk-mono, any,
}
use aos_server.Base.Map
use aos_server.Enums.{DbPermissionLevel}
use aos_server.DataProxy.Format.{ObjectLocation}
use aos_server.DataProxy.Objects.{ProxyObject, permission_of_method, is_method_read}
use aos_server.DataProxy.States.{
  ResourceState, found, ResourceStates, AccessKeyPermissions, is_public, at_least, bottom_up,
  check_states, is_missing,
}
use aos_server.DataProxy.Caching.{ProxyCache}
use aos_server.DataProxy.Caching.Secrets.{get_key_perms}
use aos_server.DataProxy.Access.{
  Handler, Request, UserState, anonymous, regular, CheckAccessResult, user_state_of, User,
  extract_access_key_perms, object_user,
}

-- Some resource on the path is public, where that may do, or the key holds enough on it.
abbrev pub IsPermitted :
    AccessKeyPermissions → DbPermissionLevel → Bool → List ResourceState → Type 0
IsPermitted key perm allow_public states =
    (o : ProxyObject) × In (found o) states
    × (((allow_public && is_public o.data_class) ≡ true)
        ⊎ (at_least perm (Map.get o.id key.permissions) ≡ true))

module _ (key : AccessKeyPermissions) (perm : DbPermissionLevel) (allow_public : Bool) where
  Checked : List ResourceState → Type 0
  Checked states =
      IsOk (λ _. IsPermitted key perm allow_public states)
        (check_states key perm allow_public states)

  after :
      (s : ResourceState) (states : List ResourceState)
      → Checked states
      → IsOk
          (λ _. IsPermitted key perm allow_public (s ∷ states))
          (check_states key perm allow_public states)
  unfolding Checked
  after s states h =
      IsOk-mono (λ _. IsPermitted key perm allow_public states)
        (λ _. IsPermitted key perm allow_public (s ∷ states))
        (check_states key perm allow_public states) (λ _ (o, within, how). (o, inr within, how)) h

-- Nothing that the path names is missing.
abbrev AllFound : ResourceStates → Type 0
AllFound s = any is_missing (bottom_up s) ≡ false

module _ (h : Handler) (c : ProxyCache) (req : Request) where
  -- The user is anonymous and the object public, or has an access key that the cache knows and that
  -- holds the level of the method on some resource of the path; a reader may also find one public.
  abbrev IsEntitled : ResourceStates → UserState → Type 0
  IsEntitled s user =
      ((user ≡ anonymous)
        × (o : ProxyObject) × (s.object ≡ found o)
        × (is_public o.data_class ≡ true))
      ⊎ ((access_key : String) × (key : AccessKeyPermissions) × (req.creds ≡ some access_key)
          × (get_key_perms access_key c ≡ some key)
          × (user ≡ user_state_of h.to_string key)
          × IsPermitted key (permission_of_method req.method) (is_method_read req.method)
              (bottom_up s))

  abbrev Entitles : ResourceStates → Option User → Type 0
  Entitles s user =
      extract_access_key_perms req.creds c ≡ user → IsOk (IsEntitled s) (object_user h c req s user)

  abbrev pub IsAuthorized : CheckAccessResult → Type 0
  IsAuthorized result =
      (s : ResourceStates) × (location : Option ObjectLocation) × (result.objects_state
        ≡ regular s location)
      × ((is_method_read req.method ≡ false) ⊎ AllFound s)
      × IsEntitled s result.user_state
