-- ===== src/ServerCache/Sync.antt =====
-- `Cache::sync_cache`: the cache is locked, cleared, and filled from the database. What the queries
-- return is an argument. The statistics are not part of the model; their query can fail.
pub mod Lock
pub mod Doubled
pub mod Valid
pub mod Stages
pub mod Later
pub mod Loaded
use aos_server.Base.{
  ℕ, String, Bool, true, false, Option, none, some, List, [], ◌∷◌, is_nil, Result, ok, err, ◌>>=◌,
  Error, message, if◌then◌else◌,
}
use aos_server.Base.Map
use aos_server.Base.Texts.{put}
use aos_server.Auth.Issuers.{Fetch, convert_to_pubkeys_issuers, new_with_endpoint}
use aos_server.ServerCache.{
  Ulid, ObjectWithRelations, User, PubKeyEnum, RuleBinding, Rule, Issuer, Cache,
}
use aos_server.ServerCache.Rules.{insert_one}

pub record IdentityProvider : Type 0 where
  pub issuer_name : String
  pub jwks_endpoint : String
  pub audiences : List String

-- The answers of the database; a public key may fail to be read.
pub record Database : Type 0 where
  pub client : Result Error (Unit {0})
  pub objects : Result Error (List ObjectWithRelations)
  pub stats : Result Error (Unit {0})
  pub users : Result Error (List User)
  pub pubkeys : Result Error (List (ℕ × Result Error PubKeyEnum))
  pub providers : Result Error (List IdentityProvider)
  pub bindings : Result Error (List RuleBinding)
  pub rules : Result Error (List Rule)

-- The time, the text form of ids, key sets, and the parser of rules.
pub record Services : Type 0 where
  pub now : ℕ
  pub ulid_to_string : Ulid → String
  pub fetch_jwks : Fetch
  pub parse_rule : String → Result Error (Unit {0})

-- What was written before an error stays in the cache.
abbrev pub Stage : Type 0
Stage = Result Error (Unit {0}) × Cache

abbrev pub proceed : Stage → (Cache → Stage) → Stage
proceed (ok done, c) next = next c
proceed (err e, c) next = (err e, c)

abbrev pub with_rows {ℓ} : {A : Type ℓ} → Result Error A → (A → Cache → Stage) → Cache → Stage
with_rows (ok rows) next c = next rows c
with_rows (err e) next c = (err e, c)

unfoldable pub insert_objects : List ObjectWithRelations → Cache → Cache
insert_objects [] c = c
insert_objects (obj ∷ objs) c =
    insert_objects objs (record c { object_cache = Map.insert obj.object.id obj c.object_cache })

unfoldable pub insert_users : List User → Cache → Cache
insert_users [] c = c
insert_users (user ∷ users) c =
    insert_users users (record c { user_cache = Map.insert user.id user c.user_cache })

-- `collect::<Result<Vec<_>>>` of the keys that were read.
unfoldable pub all_pubkeys :
    List (ℕ × Result Error PubKeyEnum) → Result Error (List (ℕ × PubKeyEnum))
all_pubkeys [] = ok []
all_pubkeys ((id, read) ∷ rows) = do key ← read; keys ← all_pubkeys rows; ok ((id, key) ∷ keys)

unfoldable pub insert_issuers : List Issuer → Cache → Cache
insert_issuers [] c = c
insert_issuers (i ∷ issuers) c =
    insert_issuers issuers (record c { issuer_info = put i.issuer_name i c.issuer_info })

unfoldable pub insert_pubkeys : List (ℕ × PubKeyEnum) → Cache → Cache
insert_pubkeys [] c = c
insert_pubkeys ((id, key) ∷ keys) c =
    insert_pubkeys keys (record c { pubkeys = Map.insert id key c.pubkeys })

abbrev pub nonempty : List String → Option (List String)
nonempty audiences = if is_nil audiences then none else some audiences

unfoldable pub insert_providers : Fetch → List IdentityProvider → Cache → Stage
insert_providers fetch [] c = (ok tt, c)
insert_providers fetch (p ∷ providers) c =
    with_rows (new_with_endpoint fetch p.issuer_name p.jwks_endpoint (nonempty p.audiences))
      (λ i c'.
        insert_providers fetch providers
          (record c' { issuer_info = put p.issuer_name i c'.issuer_info }))
      c

unfoldable pub insert_bindings : List RuleBinding → Cache → Cache
insert_bindings [] c = c
insert_bindings (b ∷ bindings) c = insert_bindings bindings (insert_one b b.object_id c)

unfoldable pub insert_rules : (String → Result Error (Unit {0})) → List Rule → Cache → Stage
insert_rules parse [] c = (ok tt, c)
insert_rules parse (r ∷ rules) c =
    with_rows (parse r.rule_expressions)
      (λ parsed c'.
        insert_rules parse rules (record c' { object_rules = Map.insert r.id r c'.object_rules }))
      c

module _ (s : Services) (db : Database) where
  unfoldable pub load_keys : List (ℕ × PubKeyEnum) → Cache → Stage
  load_keys keys c = (
    ok tt,
    insert_pubkeys keys (insert_issuers (convert_to_pubkeys_issuers s.now s.ulid_to_string keys) c),
  )

  unfoldable pub load : Cache → Stage
  unfolding load_keys
  load c = proceed (with_rows db.client (λ done c1. (ok tt, c1)) c) (λ c1.
      proceed (with_rows db.objects (λ rows d. (ok tt, insert_objects rows d)) c1) (λ c2.
        proceed (with_rows db.stats (λ done d. (ok tt, d)) c2) (λ c3.
          proceed (with_rows db.users (λ rows d. (ok tt, insert_users rows d)) c3) (λ c4.
            proceed (with_rows (db.pubkeys >>= all_pubkeys) load_keys c4) (λ c5.
              proceed (with_rows db.providers (insert_providers s.fetch_jwks) c5) (λ c6.
                proceed (with_rows db.bindings (λ rows d. (ok tt, insert_bindings rows d)) c6)
                  (λ c7. with_rows db.rules (insert_rules s.parse_rule) c7)))))))

-- The cache with its lock.
pub record Guarded : Type 0 where
  pub cache : Cache
  pub locked : Bool

abbrev pub cleared : Cache → Cache
cleared c = record c { object_cache = []; user_cache = []; pubkeys = [] }

-- `?` leaves the function before the lock is released.
abbrev pub release : Stage → Result Error (Unit {0}) × Guarded
release (ok done, c) = (ok tt, record { cache = c; locked = false })
release (err e, c) = (err e, record { cache = c; locked = true })

unfoldable pub sync_cache : Services → Database → Guarded → Result Error (Unit {0}) × Guarded
unfolding load
sync_cache s db g = release (load s db (cleared g.cache))
