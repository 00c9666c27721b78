-- ===== src/ServerCache/Sync/Later.antt =====
-- The stages of a synchronisation that follow the reading of objects and users.
use aos_server.Base.{ℕ, String, inl, inr, List, [], ◌∷◌, Option-cases, Result, ok, Error, ◌>>=◌}
use aos_server.Base.Map
use aos_server.Base.Map.{Map}
use aos_server.Auth.Issuers.{Fetch, new_with_endpoint}
use aos_server.ServerCache.{ObjectWithRelations, User, PubKeyEnum, RuleBinding, Rule, Issuer, Cache}
use aos_server.ServerCache.Rules.{insert_one, get_rule_bindings}
use aos_server.ServerCache.Sync.Stages.{After, proceed-After, with_rows-After}
use aos_server.ServerCache.Sync.{
  IdentityProvider, Database, Services, proceed, with_rows, all_pubkeys, insert_issuers,
  insert_pubkeys, nonempty, insert_providers, insert_bindings, insert_rules, load_keys,
}

-- The objects and users after a stage depend on nothing that the later stages write.
module _ (Q : Map ObjectWithRelations → Map User → Type 0) where
  abbrev pub On : Cache → Type 0
  On c = Q c.object_cache c.user_cache

  insert_issuers-On : (rows : List Issuer) (c : Cache) → On c → On (insert_issuers rows c)
  unfolding insert_issuers
  insert_issuers-On [] c h = h
  insert_issuers-On (i ∷ rows) c h = insert_issuers-On rows _ h

  insert_pubkeys-On : (rows : List (ℕ × PubKeyEnum)) (c : Cache) → On c → On (insert_pubkeys rows c)
  unfolding insert_pubkeys
  insert_pubkeys-On [] c h = h
  insert_pubkeys-On ((id, key) ∷ rows) c h = insert_pubkeys-On rows _ h

  insert_providers-On :
      (fetch : Fetch) (rows : List IdentityProvider) (c : Cache)
      → On c
      → After On (insert_providers fetch rows c)
  unfolding insert_providers
  insert_providers-On fetch [] c h = h
  insert_providers-On fetch (p ∷ rows) c h =
      with_rows-After On
        (new_with_endpoint fetch p.issuer_name p.jwks_endpoint (nonempty p.audiences)) _ c
        (λ i e. insert_providers-On fetch rows _ h)

  insert_bindings-On : (rows : List RuleBinding) (c : Cache) → On c → On (insert_bindings rows c)
  unfolding insert_bindings get_rule_bindings insert_one
  insert_bindings-On [] c h = h
  insert_bindings-On (b ∷ rows) c h =
      insert_bindings-On rows (insert_one b b.object_id c)
        (elim (Option-cases (Map.get b.object_id c.object_rule_bindings)) [
          | inl e ↦ rw (e, insert_one) h
          | inr (bindings, e) ↦ rw (e, insert_one) h
        ])

  insert_rules-On :
      (parse : String → Result Error (Unit {0})) (rows : List Rule) (c : Cache)
      → On c
      → After On (insert_rules parse rows c)
  unfolding insert_rules
  insert_rules-On parse [] c h = h
  insert_rules-On parse (r ∷ rows) c h =
      with_rows-After On (parse r.rule_expressions) _ c (λ parsed e. insert_rules-On parse rows _ h)

  -- The stages after the one that reads the users.
  pub later :
      (s : Services) (db : Database) (c4 : Cache)
      → On c4
      → After On (
          proceed (with_rows (db.pubkeys >>= all_pubkeys) (load_keys s db) c4) (λ c5.
            proceed (with_rows db.providers (insert_providers s.fetch_jwks) c5) (λ c6.
              proceed
                (with_rows db.bindings (λ rows d. (ok tt, insert_bindings rows d)) c6)
                (λ c7. with_rows db.rules (insert_rules s.parse_rule) c7))))
  unfolding load_keys
  later s db c4 h4 =
      proceed-After On On _ _
        (with_rows-After On (db.pubkeys >>= all_pubkeys) (load_keys s db) c4
          (λ r e. insert_pubkeys-On r _ (insert_issuers-On _ c4 h4)))
        (λ c5 h5.
          proceed-After On On _ _
            (with_rows-After On db.providers (insert_providers s.fetch_jwks) c5
              (λ r e. insert_providers-On s.fetch_jwks r c5 h5))
            (λ c6 h6.
              proceed-After On On _ _
                (with_rows-After On db.bindings _ c6 (λ r e. insert_bindings-On r c6 h6))
                (λ c7 h7.
                  with_rows-After On db.rules (insert_rules s.parse_rule) c7
                    (λ r e. insert_rules-On s.parse_rule r c7 h7))))
