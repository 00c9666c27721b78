-- ===== src/ServerCache/Permissions/Decide.antt =====
-- Who decides a request for a single resource.
use aos_server.Base.{
  ℕ, ◌≡◌, ◌≢◌, refl, Bool, true, false, ◌&&◌, none, some, List, [], ◌∷◌, arith, if◌then◌else◌, leb,
}
use aos_server.Base.Map
use aos_server.Enums.{DbPermissionLevel, level}
use aos_server.Auth.Contexts.{Context, Grants, res_ctx}
use aos_server.ServerCache.{Ulid, User, Cache}
use aos_server.ServerCache.Users.{get_user}
use aos_server.ServerCache.Traverse.{Requests, covered, refused, traverse_down}
use aos_server.ServerCache.Traverse.Reach.{IsUnder}
use aos_server.ServerCache.Traverse.Verdict.{single, traverse_down-single}
use aos_server.ServerCache.Permissions.{
  collect, unmet, claim, after_traversal, grant, after_verdict, check_permissions_with_contexts,
}

-- An active global admin with a personal token passes every check.
abbrev pub overrides : User → Bool → Bool
overrides u personal = (u.active && u.attributes.global_admin) && personal

module _ (fuel : ℕ) (c : Cache) (permitted : Grants) (personal : Bool) (user_id : Ulid) where
  pub check-user :
      (ctxs : List Context) (u : User)
      → get_user user_id c ≡ some u
      → check_permissions_with_contexts fuel c ctxs permitted personal user_id ≡ (
          if overrides u personal
          then some true
          else after_verdict (grant fuel c permitted) (collect u user_id personal ctxs []))
  unfolding check_permissions_with_contexts
  check-user ctxs u e = rw (e, check_permissions_with_contexts)

pub collect-res_ctx :
    (u : User) (user_id : Ulid) (personal : Bool) (id : Ulid) (perm : DbPermissionLevel) (sa : Bool)
    (ctxs : List Context) (r : Requests)
    → u.active ≡ true
    → collect u user_id personal (res_ctx id perm sa ∷ ctxs) r
      ≡ collect u user_id personal ctxs (Map.insert id perm r)
unfolding collect res_ctx
collect-res_ctx u user_id personal id perm sa ctxs r active = simp active

claim-other :
    (id : Ulid) (got : DbPermissionLevel) (r : Requests)
    → Map.get id r ≡ none
    → claim id got r ≡ unmet r
unfolding claim
claim-other id got r e = rw (e, claim)

grant-first :
    (fuel : ℕ) (c : Cache) (pid id : Ulid) (got needed : DbPermissionLevel) (rest : Grants)
    → pid ≢ id
    → IsUnder c id pid
    → traverse_down fuel c pid got (single id needed) ≢ none
    → grant fuel c ((pid, got) ∷ rest) (single id needed) ≡ some (leb (level needed) (level got))
unfolding grant
grant-first fuel c pid id got needed rest other under ends =
    let absent : Map.get pid (single id needed) ≡ none =
      ground (arith, Map.get_one id pid needed) in
    rw (claim-other pid got (single id needed) absent) (
      rw (traverse_down-single fuel c pid id got needed under ends)
        (answers (leb (level needed) (level got))))
  where
    answers :
        (b : Bool)
        → after_traversal (λ left. grant fuel c rest left) (some (if b then covered else refused))
          ≡ some b
    answers true = refl
    answers false = refl

-- An active user without the admin's override asks for one resource. If the first permission that
-- the user holds is on another resource, which the one asked for lies under, then that permission
-- alone decides: the answer is whether its level covers the level needed, whatever else is held
-- (the fuel being enough for this walk).
pub first_holder_decides :
    (fuel : ℕ) (c : Cache) (u : User) (user_id pid id : Ulid) (got needed : DbPermissionLevel)
    (allow_sa personal : Bool) (rest : Grants)
    → get_user user_id c ≡ some u
    → u.active ≡ true
    → overrides u personal ≡ false
    → pid ≢ id
    → IsUnder c id pid
    → traverse_down fuel c pid got (single id needed) ≢ none
    → check_permissions_with_contexts fuel c
        (res_ctx id needed allow_sa ∷ [])
        ((pid, got) ∷ rest)
        personal
        user_id
      ≡ some (leb (level needed) (level got))
unfolding collect Map.insert
first_holder_decides fuel c u user_id pid id got needed allow_sa personal rest known active plain
      other under ends =
    rw
      (
        check-user fuel c ((pid, got) ∷ rest) personal user_id (res_ctx id needed allow_sa ∷ []) u
            known,
        plain,
        collect-res_ctx u user_id personal id needed allow_sa [] [] active,
      )
      (grant-first fuel c pid id got needed rest other under ends)
