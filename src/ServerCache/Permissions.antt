-- ===== src/ServerCache/Permissions.antt =====
-- The decisions on requests: `check_permissions_with_contexts` for users and `check_proxy_ctxs` for
-- data proxies.
pub mod Grant
pub mod Decide
pub mod Special
pub mod Answers
use aos_server.Base.{
  ℕ, Bool, true, false, not, ◌&&◌, Option, none, some, List, [], ◌∷◌, ◌==◌, all, if◌then◌else◌,
}
use aos_server.Base.Map
use aos_server.Enums.{DbPermissionLevel, level, perm_ge}
use aos_server.Auth.Contexts.{
  ContextVariant, not_activated, resource, user, self_user, registered, global_proxy, global_admin,
  Context, Grants,
}
use aos_server.ServerCache.{Ulid, User, Cache}
use aos_server.ServerCache.Objects.{get_object}
use aos_server.ServerCache.Users.{get_user}
use aos_server.ServerCache.Traverse.{
  Requests, Traversal, covered, refused, exhausted, traverse_down,
}

-- Reading the contexts ends in an answer, or in the resources that are requested.
pub data Verdict : Type 0 where
  answer : Bool → Verdict
  requests : Requests → Verdict

-- One round of the loop over the contexts.
unfoldable pub weigh :
    User → Ulid → Bool → (Requests → Verdict) → ContextVariant → Requests → Verdict
weigh u user_id personal next not_activated resources = answer personal
weigh u user_id personal next (resource id perm) resources =
    if not u.active then answer false else next (Map.insert id perm resources)
weigh u user_id personal next (user uid perm) resources =
    answer
      (if (uid == user_id && personal) && u.active then not u.attributes.service_account else false)
weigh u user_id personal next registered resources = answer u.active
weigh u user_id personal next self_user resources = answer (u.active && personal)
weigh u user_id personal next global_proxy resources = answer false
weigh u user_id personal next global_admin resources = answer false

unfoldable pub collect : User → Ulid → Bool → List Context → Requests → Verdict
unfolding weigh
collect u user_id personal [] resources = requests resources
collect u user_id personal (ctx ∷ ctxs) resources =
    weigh u user_id personal (collect u user_id personal ctxs) ctx.variant resources

-- A permission that the user holds on a requested resource itself.
pub data Claim : Type 0 where
  all_met : Claim
  unmet : Requests → Claim

unfoldable pub claim : Ulid → DbPermissionLevel → Requests → Claim
claim id got_perm resources = elim (Map.get id resources) [
  | none ↦ unmet resources
  | some needed_perm ↦
      if perm_ge got_perm needed_perm
      then if Map.is_empty (Map.remove id resources)
        then all_met
        else unmet (Map.remove id resources)
      else unmet resources
]

abbrev pub after_traversal : (Requests → Option Bool) → Option Traversal → Option Bool
after_traversal next none = none
after_traversal next (some covered) = some true
after_traversal next (some refused) = some false
after_traversal next (some (exhausted resources)) = next resources

abbrev pub after_claim : (Requests → Option Bool) → Claim → Option Bool
after_claim next all_met = some true
after_claim next (unmet resources) = next resources

-- The loop over what the user holds; `none` means that a walk ran out of fuel.
unfoldable pub grant : ℕ → Cache → Grants → Requests → Option Bool
grant fuel c [] resources = some false
grant fuel c ((id, got_perm) ∷ permitted) resources =
    after_claim
      (λ unclaimed.
        after_traversal (λ left. grant fuel c permitted left)
          (traverse_down fuel c id got_perm unclaimed))
      (claim id got_perm resources)

abbrev pub after_verdict : (Requests → Option Bool) → Verdict → Option Bool
after_verdict next (answer b) = some b
after_verdict next (requests resources) = next resources

unfoldable pub check_permissions_with_contexts :
    ℕ → Cache → List Context → Grants → Bool → Ulid → Option Bool
unfolding get_user
check_permissions_with_contexts fuel c ctxs permitted personal user_id = elim (get_user user_id c) [
  | none ↦ some false
  | some u ↦
      if (u.active && u.attributes.global_admin) && personal
      then some true
      else after_verdict (grant fuel c permitted) (collect u user_id personal ctxs [])
]

abbrev is_read : DbPermissionLevel → Bool
is_read DbPermissionLevel.read = true
is_read _ = false

abbrev pub holds_object : Cache → Ulid → Ulid → Bool
holds_object c endpoint_id id = elim (get_object id c) [
  | none ↦ false
  | some obj ↦ Map.contains_key endpoint_id obj.object.endpoints
]

abbrev pub trusts : Cache → Ulid → Ulid → Bool
trusts c endpoint_id uid = elim (get_user uid c) [
  | none ↦ false
  | some u ↦ Map.contains_key endpoint_id u.attributes.trusted_endpoints
]

unfoldable pub proxy_may : Cache → Ulid → ContextVariant → Bool
unfolding get_object get_user
proxy_may c endpoint_id not_activated = true
proxy_may c endpoint_id (resource id perm) = holds_object c endpoint_id id
proxy_may c endpoint_id (user uid permlevel) =
    if is_read permlevel then trusts c endpoint_id uid else false
proxy_may c endpoint_id global_admin = false
proxy_may c endpoint_id self_user = false
proxy_may c endpoint_id registered = true
proxy_may c endpoint_id global_proxy = true

unfoldable pub check_proxy_ctxs : Cache → Ulid → List Context → Bool
unfolding proxy_may
check_proxy_ctxs c endpoint_id ctxs = all (λ x. proxy_may c endpoint_id x.variant) ctxs
