-- ===== src/Auth/Tokens/Accounted.antt =====
-- What an accepted token says of who presents it.
use aos_server.Base.{
  ℕ, String, ◌≡◌, refl, subst, Bool, true, false, Option, none, some, ◌⊎◌, inl, inr, List, [], ◌∷◌,
  ◌==◌, ==→eq, Bool-cases, In, ok, message, ok_or, IsOk, >>=-IsOk, eq_some_of_ok_or,
}
use aos_server.Base.Map
use aos_server.Base.Map.{Map}
use aos_server.Base.Texts.{parse_i16, second_part}
use aos_server.Auth.Contexts.{get_permissions}
use aos_server.Auth.Issuers.{
  Action, all, create_secrets, impersonate, fetch_info, Intent, ArunaTokenClaims, check_token,
  get_issuer,
}
use aos_server.Auth.Tokens.{
  ProcessedToken, Packages, token_id, validate_server_token, by_action, with_intent, by_key,
  validate_dataproxy_token, validate_oidc_token, checked, by_issuer, process_token,
}
use aos_server.ServerCache.{
  User, OidcMapping, PubKeyEnum, data_proxy, server, IssuerType, aruna, dataproxy, oidc, Cache,
}
use aos_server.ServerCache.Users.{
  get_user, get_pubkey, find_user, has_external_id, get_user_by_oidc,
}

module _ (c : Cache) where
  -- A cached user, whose permissions (or those of the user's token) are the token's.
  abbrev pub IsUsers : ProcessedToken → Bool → Type 0
  IsUsers t personal =
      (u : User) × In u (Map.values c.user_cache)
      × (u.id ≡ t.main_id)
      × (get_permissions t.token u ≡ ok (t.user_permissions, personal))

  abbrev pub IsProxys : ProcessedToken → Type 0
  IsProxys t =
      (intent : Intent) × (t.proxy_intent ≡ some intent)
      × (t.is_personal ≡ false)
      × ((serial : ℕ) × (key : String) × (get_pubkey serial c
            ≡ some (data_proxy key intent.target)))
      × ((intent.action ≡ fetch_info) × (t.user_permissions ≡ [])
          ⊎ (intent.action ≡ impersonate) × ((personal : Bool) × IsUsers t personal))

  abbrev pub IsAccounted : ProcessedToken → Type 0
  IsAccounted t = (t.is_proxy ≡ false) × IsUsers t t.is_personal ⊎ (t.is_proxy ≡ true) × IsProxys t

  In-values_of_get :
      {V : Type 0} (k : ℕ) (m : Map V) {v : V} → Map.get k m ≡ some v → In v (Map.values m)
  unfolding Map.get
  In-values_of_get k [] e = cc
  In-values_of_get k ((j, w) ∷ m) e = elim (Bool-cases (j == k)) [
    | inl same ↦ inl (cc (rw same at e))
    | inr other ↦ inr (In-values_of_get k m (rw other at e))
  ]

  In-find_user :
      (external : OidcMapping) (us : List User) {u : User}
      → find_user external us ≡ some u
      → In u us
  In-find_user external [] e = cc
  In-find_user external (x ∷ us) e = elim (Bool-cases (has_external_id external x)) [
    | inl found ↦ inl (cc (rw found at e))
    | inr other ↦ inr (In-find_user external us (rw other at e))
  ]

  module _ (p : Packages) where
    validate_server_token-IsAccounted :
        (claims : ArunaTokenClaims) → IsOk IsAccounted (validate_server_token p c claims)
    unfolding validate_server_token get_user
    validate_server_token-IsAccounted claims =
        >>=-IsOk IsAccounted (p.ulid_from_str claims.sub) _ (λ uid e.
          >>=-IsOk IsAccounted (token_id p c claims.tid) _ (λ token e'.
            >>=-IsOk IsAccounted (ok_or (get_user uid c) (message "Invalid user")) _ (λ u found.
              >>=-IsOk IsAccounted (get_permissions token u) _ (λ perms granted. inl (
                refl,
                (
                  u,
                  In-values_of_get uid c.user_cache (eq_some_of_ok_or (get_user uid c) _ found),
                  refl,
                  granted,
                ),
              )))))

    validate_oidc_token-IsAccounted :
        (claims : ArunaTokenClaims) → IsOk IsAccounted (validate_oidc_token p c claims)
    unfolding validate_oidc_token get_user_by_oidc get_permissions
    validate_oidc_token-IsAccounted claims =
        let external : OidcMapping = record { external_id = claims.sub; oidc_name = claims.iss } in
        >>=-IsOk IsAccounted (ok_or (get_user_by_oidc external c) _) _ (λ u found. inl (
          refl,
          (
            u,
            In-find_user external (Map.values c.user_cache)
                (eq_some_of_ok_or (get_user_by_oidc external c) _ found),
            refl,
            refl,
          ),
        ))

    by_action-IsAccounted :
        (claims : ArunaTokenClaims) (intent : Intent) (sub_id serial : ℕ) (key : String)
        → get_pubkey serial c ≡ some (data_proxy key intent.target)
        → (action : Action) → intent.action ≡ action
        → IsOk IsAccounted (by_action p c claims intent sub_id action)
    unfolding get_user
    by_action-IsAccounted claims intent sub_id serial key signed fetch_info e =
        inr (refl, (intent, refl, refl, (serial, key, signed), inl (e, refl)))
    by_action-IsAccounted claims intent sub_id serial key signed impersonate e =
        >>=-IsOk IsAccounted (token_id p c claims.tid) _ (λ token read.
          >>=-IsOk IsAccounted (ok_or (get_user sub_id c) _) _ (λ u found.
            >>=-IsOk IsAccounted (get_permissions token u) _ (λ perms granted. inr (
              refl,
              (
                intent,
                refl,
                refl,
                (serial, key, signed),
                inr (
                  e,
                  (
                    perms.1,
                    (
                      u,
                      In-values_of_get sub_id c.user_cache
                          (eq_some_of_ok_or (get_user sub_id c) _ found),
                      refl,
                      granted,
                    ),
                  ),
                ),
              ),
            ))))
    by_action-IsAccounted claims intent sub_id serial key signed all e = tt
    by_action-IsAccounted claims intent sub_id serial key signed create_secrets e = tt

    with_intent-IsAccounted :
        (claims : ArunaTokenClaims) (serial endpoint_id : ℕ) (key : String)
        → get_pubkey serial c ≡ some (data_proxy key endpoint_id)
        → (o : Option Intent) → IsOk IsAccounted (with_intent p c claims endpoint_id o)
    with_intent-IsAccounted claims serial endpoint_id key signed none = tt
    with_intent-IsAccounted claims serial endpoint_id key signed (some intent) =
        elim (Bool-cases (endpoint_id == intent.target)) [
          | inl same ↦
              let signed' : get_pubkey serial c ≡ some (data_proxy key intent.target) =
                subst (λ id. get_pubkey serial c ≡ some (data_proxy key id))
                  (==→eq endpoint_id intent.target same) signed in
              rw same (
                >>=-IsOk IsAccounted (p.ulid_from_str claims.sub) _ (λ sub_id found.
                  by_action-IsAccounted claims intent sub_id serial key signed' intent.action refl))
          | inr other ↦ rw other tt
        ]

    by_key-IsAccounted :
        (claims : ArunaTokenClaims) (serial : ℕ) (key : PubKeyEnum)
        → get_pubkey serial c ≡ some key
        → IsOk IsAccounted (by_key p c claims key)
    by_key-IsAccounted claims serial (server key) signed = tt
    by_key-IsAccounted claims serial (data_proxy key endpoint_id) signed =
        with_intent-IsAccounted claims serial endpoint_id key signed claims.it

    validate_dataproxy_token-IsAccounted :
        (claims : ArunaTokenClaims) (kid : String)
        → IsOk IsAccounted (validate_dataproxy_token p c claims kid)
    unfolding validate_dataproxy_token
    validate_dataproxy_token-IsAccounted claims kid =
        >>=-IsOk IsAccounted (ok_or (parse_i16 kid) _) _ (λ serial parsed.
          >>=-IsOk IsAccounted (ok_or (get_pubkey serial c) _) _ (λ key found.
            by_key-IsAccounted claims serial key (eq_some_of_ok_or (get_pubkey serial c) _ found)))

    by_issuer-IsAccounted :
        (t : IssuerType) (kid : String) (claims : ArunaTokenClaims)
        → IsOk IsAccounted (by_issuer p c t kid claims)
    by_issuer-IsAccounted aruna kid claims = validate_server_token-IsAccounted claims
    by_issuer-IsAccounted dataproxy kid claims = validate_dataproxy_token-IsAccounted claims kid
    by_issuer-IsAccounted oidc kid claims = validate_oidc_token-IsAccounted claims

    pub process_token-IsOk : (token : String) → IsOk IsAccounted (process_token p c token)
    unfolding process_token
    process_token-IsOk token = >>=-IsOk IsAccounted (ok_or (second_part b'.' token) _) _ (λ split e.
        >>=-IsOk IsAccounted (p.decode_claims split) _ (λ claims e'.
          >>=-IsOk IsAccounted (ok_or (get_issuer claims.iss c) _) _ (λ issuer e''.
            >>=-IsOk IsAccounted
              (checked p c issuer.issuer_name (check_token p.tokens issuer token)) _
              (λ valid e'''. by_issuer-IsAccounted issuer.issuer_type (valid.0) (valid.1)))))
