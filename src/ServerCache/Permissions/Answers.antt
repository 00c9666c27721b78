-- ===== src/ServerCache/Permissions/Answers.antt =====
-- Users that are turned away, and that every check has an answer.
use aos_server.Base.{
  ℕ, ◌≤◌, ◌≡◌, ◌≢◌, refl, Bool, true, false, Option, none, some, inl, inr, List, [], ◌∷◌,
  Option-cases, All, arith, if◌then◌else◌,
}
use aos_server.Auth.Contexts.{ContextVariant, not_activated, Context, Grants}
use aos_server.ServerCache.{Ulid, User, Cache}
use aos_server.ServerCache.Users.{get_user}
use aos_server.ServerCache.Traverse.{
  Requests, Traversal, covered, refused, exhausted, traverse_down,
}
use aos_server.ServerCache.Traverse.Fuel.{IsLayered, tree_size, traverse_down_ends}
use aos_server.ServerCache.Permissions.{
  Verdict, answer, requests, weigh, collect, Claim, all_met, unmet, claim, after_traversal,
  after_claim, grant, after_verdict, check_permissions_with_contexts,
}
use aos_server.ServerCache.Permissions.Decide.{overrides, check-user}

weigh_inactive :
    (u : User) (user_id : Ulid) (personal : Bool) (next : Requests → Verdict) (v : ContextVariant)
    (r : Requests)
    → u.active ≡ false
    → v ≢ not_activated
    → weigh u user_id personal next v r ≡ answer false
unfolding weigh
weigh_inactive u user_id personal next not_activated r off started = absurd (started refl)
weigh_inactive u user_id personal next _ r off started = ground arith

-- A user who is unknown or inactive is turned away, unless the first context is `NotActivated` or
-- there is no context at all.
check_permissions_denied :
    (fuel : ℕ) (c : Cache) (user_id : Ulid) (personal : Bool) (permitted : Grants) (ctx : Context)
    (ctxs : List Context)
    → ((u : User) → get_user user_id c ≡ some u → u.active ≡ false)
    → ctx.variant ≢ not_activated
    → check_permissions_with_contexts fuel c (ctx ∷ ctxs) permitted personal user_id ≡ some false
unfolding check_permissions_with_contexts collect
check_permissions_denied fuel c user_id personal permitted ctx ctxs inactive started =
    elim (Option-cases (get_user user_id c)) [
      | inl e ↦ rw (e, check_permissions_with_contexts)
      | inr (u, e) ↦
          let off = inactive u e in
          let plain : overrides u personal ≡ false = ground arith in
          rw (
            check-user fuel c permitted personal user_id (ctx ∷ ctxs) u e,
            plain,
            weigh_inactive u user_id personal (λ m. collect u user_id personal ctxs m) ctx.variant
                [] off started,
          )
    ]

module _ (fuel : ℕ) (c : Cache) (layered : IsLayered c) where
  grant_ends :
      (permitted : Grants) (r : Requests)
      → All (λ p. tree_size c 4 (p.0) ≤ fuel) permitted
      → grant fuel c permitted r ≢ none
  unfolding grant
  grant_ends [] r h = λ e. cc
  grant_ends ((id, got) ∷ permitted) r h =
      by_claim (claim id got r) (λ a. traverse_down_ends c id got a fuel layered h.0)
        (λ b. grant_ends permitted b h.1)
    where
      by_traversal :
          (t : Option Traversal)
          → t ≢ none
          → ((b : Requests) → grant fuel c permitted b ≢ none)
          → after_traversal (λ left. grant fuel c permitted left) t ≢ none
      by_traversal none k go = absurd (k refl)
      by_traversal (some covered) k go = λ e. cc
      by_traversal (some refused) k go = λ e. cc
      by_traversal (some (exhausted b)) k go = go b

      by_claim :
          (k : Claim)
          → ((a : Requests) → traverse_down fuel c id got a ≢ none)
          → ((b : Requests) → grant fuel c permitted b ≢ none)
          → after_claim
              (λ unclaimed.
                after_traversal
                  (λ left. grant fuel c permitted left)
                  (traverse_down fuel c id got unclaimed))
              k
            ≢ none
      by_claim all_met walk_ends go = λ e. cc
      by_claim (unmet a) walk_ends go =
          by_traversal (traverse_down fuel c id got a) (walk_ends a) go

  -- There is an answer: in a hierarchy where permission children are of a lower type than their
  -- parent, fuel for the largest tree below a resource that the user holds is enough.
  pub check_permissions_ends :
      (ctxs : List Context) (permitted : Grants) (personal : Bool) (user_id : Ulid)
      → All (λ p. tree_size c 4 (p.0) ≤ fuel) permitted
      → check_permissions_with_contexts fuel c ctxs permitted personal user_id ≢ none
  unfolding check_permissions_with_contexts
  check_permissions_ends ctxs permitted personal user_id enough =
      elim (Option-cases (get_user user_id c)) [
        | inl e ↦ rw (e, check_permissions_with_contexts) (λ k. cc)
        | inr (u, e) ↦
            rw (check-user fuel c permitted personal user_id ctxs u e)
              (by_override (overrides u personal) (collect u user_id personal ctxs []))
      ]
    where
      by_override :
          (b : Bool) (v : Verdict)
          → (if b then some true else after_verdict (grant fuel c permitted) v) ≢ none
      by_override true v = λ k. cc
      by_override false (answer b) = λ k. cc
      by_override false (requests r) = grant_ends permitted r enough
