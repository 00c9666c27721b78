-- ===== src/Auth/Handler/Proxy.antt =====
-- What a data proxy may ask for.
use aos_server.Base.{◌≤◌, ◌≡◌, true, Option, some, ◌⊎◌, List, Result, ok, All}
use aos_server.Enums.{DbPermissionLevel, level}
use aos_server.Auth.Contexts.{
  ContextVariant, not_activated, resource, user, self_user, registered, global_proxy, global_admin,
  Context,
}
use aos_server.Auth.Issuers.{Action, impersonate, fetch_info, Intent}
use aos_server.Auth.Handler.{Status, PermissionCheck}
use aos_server.ServerCache.{Ulid, Cache}
use aos_server.ServerCache.Permissions.{holds_object, trusts}

-- What the data proxy `target` may ask for: objects that it holds, and with an intent to fetch
-- information only reading, and reading from users who trust it.
abbrev pub Admits : Cache → Ulid → Action → ContextVariant → Type 0
Admits c target action (resource id perm) =
    (holds_object c target id ≡ true)
    × ((action ≡ impersonate) ⊎ (level perm ≤ level DbPermissionLevel.read))
Admits c target action (user uid perm) =
    (action ≡ fetch_info) × (perm ≡ DbPermissionLevel.read) × (trusts c target uid ≡ true)
Admits c target action registered = Unit
Admits c target action global_proxy = Unit
Admits c target action not_activated = ⊥
Admits c target action self_user = ⊥
Admits c target action global_admin = ⊥

module _ (c : Cache) (ctxs : List Context) where
  -- What an answer to a data proxy with this intent comes with.
  abbrev pub IsAdmitted : Intent → PermissionCheck → Type 0
  IsAdmitted intent r =
      (r.proxy_id ≡ some intent.target)
      × ((intent.action ≡ fetch_info) ⊎ (intent.action ≡ impersonate))
      × All (λ ctx. Admits c intent.target intent.action ctx.variant) ctxs

  abbrev IsAnswer : Option (Result Status PermissionCheck) → Type 0
  IsAnswer (some (ok r)) = (r.is_proxy ≡ true) → (intent : Intent) × IsAdmitted intent r
  IsAnswer _ = Unit
