-- ===== src/ServerCache/Sync/Doubled.antt =====
-- What a synchronisation makes of the rule bindings, which it does not clear.
use mathlib.Core.List.{append-nil, append_assoc}
use aos_server.Base.{
  ℕ, String, ◌≡◌, refl, sym, ap, ◌∙◌, inl, inr, List, [], ◌∷◌, ◌++◌, ◌==◌, keep, Bool-cases, Result,
  ok, err, Error, ◌>>=◌,
}
use aos_server.Base.Map
use aos_server.Base.Map.{Map}
use aos_server.Auth.Issuers.{Fetch, new_with_endpoint}
use aos_server.ServerCache.{
  Ulid, ObjectWithRelations, User, PubKeyEnum, RuleBinding, Rule, Issuer, Cache,
}
use aos_server.ServerCache.Objects.{or_empty}
use aos_server.ServerCache.Rules.{insert_one, get_rule_bindings}
use aos_server.ServerCache.Rules.Bindings.{bindings_of, insert_one-bindings_of}
use aos_server.ServerCache.Sync.Stages.{After, proceed-After, with_rows-After, After-map}
use aos_server.ServerCache.Sync.{
  IdentityProvider, Database, Services, Stage, insert_objects, insert_users, all_pubkeys,
  insert_issuers, insert_pubkeys, nonempty, insert_providers, insert_bindings, insert_rules,
  load_keys, load, Guarded, cleared, release, sync_cache,
}

-- The map of bindings is `m`.
abbrev Binds : Map (List RuleBinding) → Cache → Type 0
Binds m c = c.object_rule_bindings ≡ m

module _ (m : Map (List RuleBinding)) where
  insert_objects-Binds :
      (rows : List ObjectWithRelations) (c : Cache) → Binds m c → Binds m (insert_objects rows c)
  unfolding insert_objects
  insert_objects-Binds [] c h = h
  insert_objects-Binds (o ∷ rows) c h = insert_objects-Binds rows _ h

  insert_users-Binds : (rows : List User) (c : Cache) → Binds m c → Binds m (insert_users rows c)
  unfolding insert_users
  insert_users-Binds [] c h = h
  insert_users-Binds (u ∷ rows) c h = insert_users-Binds rows _ h

  insert_issuers-Binds :
      (rows : List Issuer) (c : Cache) → Binds m c → Binds m (insert_issuers rows c)
  unfolding insert_issuers
  insert_issuers-Binds [] c h = h
  insert_issuers-Binds (i ∷ rows) c h = insert_issuers-Binds rows _ h

  insert_pubkeys-Binds :
      (rows : List (ℕ × PubKeyEnum)) (c : Cache) → Binds m c → Binds m (insert_pubkeys rows c)
  unfolding insert_pubkeys
  insert_pubkeys-Binds [] c h = h
  insert_pubkeys-Binds ((id, key) ∷ rows) c h = insert_pubkeys-Binds rows _ h

  insert_providers-Binds :
      (fetch : Fetch) (rows : List IdentityProvider) (c : Cache)
      → Binds m c
      → After (Binds m) (insert_providers fetch rows c)
  unfolding insert_providers
  insert_providers-Binds fetch [] c h = h
  insert_providers-Binds fetch (p ∷ rows) c h =
      with_rows-After (Binds m)
        (new_with_endpoint fetch p.issuer_name p.jwks_endpoint (nonempty p.audiences)) _ c
        (λ i e. insert_providers-Binds fetch rows _ h)

insert_rules-Binds :
    (m : Map (List RuleBinding)) (parse : String → Result Error (Unit {0})) (rows : List Rule)
    (c : Cache)
    → Binds m c
    → After (Binds m) (insert_rules parse rows c)
unfolding insert_rules
insert_rules-Binds m parse [] c h = h
insert_rules-Binds m parse (r ∷ rows) c h =
    with_rows-After (Binds m) (parse r.rule_expressions) _ c
      (λ parsed e. insert_rules-Binds m parse rows _ h)

insert_bindings-bindings_of :
    (rows : List RuleBinding) (j : Ulid) (c : Cache)
    → bindings_of j (insert_bindings rows c) ≡ bindings_of j c ++ keep (λ b. b.object_id == j) rows
unfolding insert_bindings
insert_bindings-bindings_of [] j c = sym (append-nil (bindings_of j c))
insert_bindings-bindings_of (b ∷ rows) j c =
    insert_bindings-bindings_of rows j (insert_one b b.object_id c)
    ∙ rw (insert_one-bindings_of b b.object_id j c) (elim (Bool-cases (b.object_id == j)) [
      | inl e ↦ rw e (append_assoc (bindings_of j c) (b ∷ []) _)
      | inr e ↦ rw e
    ])

module _ (s : Services) (db : Database) (j : Ulid) (old : Cache) (rows : List RuleBinding)
    (read : db.bindings ≡ ok rows) where
  abbrev m : Map (List RuleBinding)
  m = old.object_rule_bindings

  abbrev Grown : Cache → Type 0
  Grown c = bindings_of j c ≡ bindings_of j old ++ keep (λ b. b.object_id == j) rows

  load-Grown : After Grown (load s db (cleared old))
  unfolding load load_keys get_rule_bindings
  load-Grown =
      proceed-After (Binds m) Grown _ _ (with_rows-After (Binds m) db.client _ _ (λ d e. refl))
        (λ c1 h1.
          proceed-After (Binds m) Grown _ _
            (with_rows-After (Binds m) db.objects _ c1 (λ r e. insert_objects-Binds m r c1 h1))
            (λ c2 h2.
              proceed-After (Binds m) Grown _ _
                (with_rows-After (Binds m) db.stats _ c2 (λ d e. h2))
                (λ c3 h3.
                  proceed-After (Binds m) Grown _ _
                    (with_rows-After (Binds m) db.users _ c3 (λ r e. insert_users-Binds m r c3 h3))
                    (λ c4 h4.
                      proceed-After (Binds m) Grown _ _
                        (with_rows-After (Binds m) (db.pubkeys >>= all_pubkeys) (load_keys s db) c4
                          (λ r e. insert_pubkeys-Binds m r _ (insert_issuers-Binds m _ c4 h4)))
                        (λ c5 h5.
                          proceed-After (Binds m) Grown _ _
                            (with_rows-After (Binds m) db.providers (insert_providers s.fetch_jwks)
                              c5 (λ r e. insert_providers-Binds m s.fetch_jwks r c5 h5))
                            (λ c6 h6.
                              proceed-After Grown Grown _ _
                                (with_rows-After Grown db.bindings _ c6 (grow c6 h6))
                                (λ c7 h7.
                                  with_rows-After Grown db.rules (insert_rules s.parse_rule) c7
                                    (λ r e. keep_grown c7 h7 r))))))))
    where
      grow :
          (c6 : Cache)
          → Binds m c6
          → (r : List RuleBinding) → db.bindings ≡ ok r
          → Grown (insert_bindings r c6)
      grow c6 h6 r e =
          let same : r ≡ rows = cc (e, read) in insert_bindings-bindings_of r j c6 ∙ rw (h6, same)

      keep_grown :
          (c7 : Cache) → Grown c7 → (r : List Rule) → After Grown (insert_rules s.parse_rule r c7)
      keep_grown c7 h7 r =
          After-map (Binds c7.object_rule_bindings) Grown (insert_rules s.parse_rule r c7)
            (λ c e. ap (λ b. or_empty (Map.get j b)) e ∙ h7)
            (insert_rules-Binds c7.object_rule_bindings s.parse_rule r c7 refl)

-- A synchronisation that succeeds appends the bindings of the database to those that an object has
-- in the cache already.
sync_cache-bindings_of :
    (s : Services) (db : Database) (g : Guarded) (rows : List RuleBinding) (j : Ulid)
    → db.bindings ≡ ok rows
    → (sync_cache s db g).0 ≡ ok tt
    → bindings_of j (sync_cache s db g).1.cache
      ≡ bindings_of j g.cache ++ keep (λ b. b.object_id == j) rows
unfolding sync_cache
sync_cache-bindings_of s db g rows j read done =
    by_stage (load s db (cleared g.cache)) (load-Grown s db j g.cache rows read) done
  where
    by_stage :
        (stage : Stage)
        → After (Grown s db j g.cache rows read) stage
        → (release stage).0 ≡ ok tt
        → bindings_of j (release stage).1.cache
          ≡ bindings_of j g.cache ++ keep (λ b. b.object_id == j) rows
    by_stage (ok tt, c) h e = h
    by_stage (err failure, c) h e = cc
