-- ===== src/ServerCache/Permissions/Special.antt =====
-- Contexts that decide at once, and two contexts for one resource.
use aos_server.Base.{
  ℕ, ◌≡◌, ◌≢◌, refl, sym, ap, ◌∙◌, Bool, true, some, List, [], ◌∷◌, ◌++◌, ==_refl,
}
use aos_server.Base.Map
use aos_server.Enums.{DbPermissionLevel}
use aos_server.Auth.Contexts.{
  ContextVariant, not_activated, resource, user, self_user, registered, global_proxy, global_admin,
  Context, Grants, res_ctx,
}
use aos_server.ServerCache.{Ulid, User, Cache}
use aos_server.ServerCache.Users.{get_user}
use aos_server.ServerCache.Traverse.{Requests}
use aos_server.ServerCache.Permissions.{
  Verdict, answer, requests, weigh, collect, check_permissions_with_contexts,
}
use aos_server.ServerCache.Permissions.Decide.{check-user, collect-res_ctx}

abbrev pub resources : List (Ulid × DbPermissionLevel) → List Context
resources [] = []
resources ((id, perm) ∷ asked) = res_ctx id perm true ∷ resources asked

-- A context that answers by itself.
abbrev IsAnswer : Verdict → Type 0
IsAnswer (answer b) = Unit
IsAnswer (requests r) = ⊥

-- It does so wherever it stands behind resources, and whatever follows.
collect-special :
    (u : User) (user_id : Ulid) (personal : Bool) (ctx : Context) (rest : List Context)
    (r : Requests)
    → ((id : Ulid) (perm : DbPermissionLevel) → ctx.variant ≢ resource id perm)
    → (b : Bool) × (collect u user_id personal (ctx ∷ rest) r ≡ answer b)
      × (collect u user_id personal (ctx ∷ []) [] ≡ answer b)
unfolding collect
collect-special u user_id personal ctx rest r special = by_variant ctx.variant special
  where
    by_variant :
        (v : ContextVariant)
        → ((id : Ulid) (perm : DbPermissionLevel) → v ≢ resource id perm)
        → (b : Bool) × (weigh u user_id personal (λ m. collect u user_id personal rest m) v r
            ≡ answer b)
          × (weigh u user_id personal (λ m. collect u user_id personal [] m) v [] ≡ answer b)
    by_variant not_activated h = (personal, refl, refl)
    by_variant (resource id perm) h = absurd (h id perm refl)
    by_variant (user uid perm) h = (_, refl, refl)
    by_variant self_user h = (_, refl, refl)
    by_variant registered h = (_, refl, refl)
    by_variant global_proxy h = (_, refl, refl)
    by_variant global_admin h = (_, refl, refl)

collect-resources :
    (u : User) (user_id : Ulid) (personal : Bool) (asked : List (Ulid × DbPermissionLevel))
    (ctx : Context) (rest : List Context) (r : Requests)
    → u.active ≡ true
    → ((id : Ulid) (perm : DbPermissionLevel) → ctx.variant ≢ resource id perm)
    → collect u user_id personal (resources asked ++ ctx ∷ rest) r
      ≡ collect u user_id personal (ctx ∷ []) []
collect-resources u user_id personal [] ctx rest r active special =
    let (b, e, f) = collect-special u user_id personal ctx rest r special in e ∙ sym f
collect-resources u user_id personal ((id, perm) ∷ asked) ctx rest r active special =
    collect-res_ctx u user_id personal id perm true (resources asked ++ ctx ∷ rest) r active
    ∙ collect-resources u user_id personal asked ctx rest (Map.insert id perm r) active special

-- What comes after the first context that is no resource is not read, and neither are the
-- resources before it: for an active user the answer is that of this one context, for a user who
-- holds nothing as for one who does.
check_permissions_special :
    (fuel : ℕ) (c : Cache) (u : User) (user_id : Ulid) (personal : Bool) (permitted : Grants)
    (asked : List (Ulid × DbPermissionLevel)) (ctx : Context) (rest : List Context)
    → get_user user_id c ≡ some u
    → u.active ≡ true
    → ((id : Ulid) (perm : DbPermissionLevel) → ctx.variant ≢ resource id perm)
    → check_permissions_with_contexts fuel c
        (resources asked ++ ctx ∷ rest)
        permitted
        personal
        user_id
      ≡ check_permissions_with_contexts fuel c (ctx ∷ []) [] personal user_id
check_permissions_special fuel c u user_id personal permitted asked ctx rest known active special =
    let (b, e, f) = collect-special u user_id personal ctx [] [] special in
    rw (
      check-user fuel c permitted personal user_id (resources asked ++ ctx ∷ rest) u known,
      check-user fuel c [] personal user_id (ctx ∷ []) u known,
      collect-resources u user_id personal asked ctx rest [] active special,
      e,
    )

-- Of two contexts for one resource, at the head of an active user's request, the later one counts:
-- its level replaces the earlier.
check_permissions_later :
    (fuel : ℕ) (c : Cache) (u : User) (user_id id : Ulid) (first second : DbPermissionLevel)
    (sa sb personal : Bool) (permitted : Grants) (rest : List Context)
    → get_user user_id c ≡ some u
    → u.active ≡ true
    → check_permissions_with_contexts fuel c
        (res_ctx id first sa ∷ res_ctx id second sb ∷ rest)
        permitted
        personal
        user_id
      ≡ check_permissions_with_contexts fuel c
          (res_ctx id second sb ∷ rest)
          permitted
          personal
          user_id
unfolding Map.insert
check_permissions_later fuel c u user_id id first second sa sb personal permitted rest known
      active =
    let one = res_ctx id second sb ∷ rest in
    let two = res_ctx id first sa ∷ one in
    let once = collect-res_ctx u user_id personal id second sb rest [] active in
    let twice : collect u user_id personal two [] ≡ collect u user_id personal one [] =
      collect-res_ctx u user_id personal id first sa one [] active
      ∙ collect-res_ctx u user_id personal id second sb rest ((id, first) ∷ []) active
      ∙ ap (collect u user_id personal rest) (rw (==_refl id))
      ∙ sym once in
    rw (
      check-user fuel c permitted personal user_id two u known,
      check-user fuel c permitted personal user_id one u known,
      twice,
    )
