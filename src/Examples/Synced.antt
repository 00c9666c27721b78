-- ===== src/Examples/Synced.antt =====
-- A synchronisation with a database of one binding, and one with a database that cannot be reached.
use aos_server.Base.{◌≡◌, refl, some, false, [], ◌∷◌, ◌==◌, ok, err, message}
use aos_server.ServerCache.Sync.{
  Database, Services, Guarded, sync_cache, load, load_keys, all_pubkeys, insert_providers,
  insert_rules,
}
use aos_server.ServerCache.Sync.Loaded.{last_with}
use aos_server.Examples.World.{world, binding, resource_one, resource_two, user_nine}

abbrev services : Services
services = record {
  now = 1000;
  ulid_to_string = λ id. "endpoint";
  fetch_jwks = λ endpoint. ok ([], 1000);
  parse_rule = λ rule. ok tt;
}

abbrev rows : Database
rows = record {
  client = ok tt;
  objects = ok [];
  stats = ok tt;
  users = ok [];
  pubkeys = ok [];
  providers = ok [];
  bindings = ok (binding ∷ []);
  rules = ok [];
}

abbrev unlocked : Guarded
unlocked = record { cache = world; locked = false }

synced : (sync_cache services rows unlocked).0 ≡ ok tt
unfolding sync_cache load all_pubkeys load_keys insert_providers insert_rules
synced = refl

abbrev unreachable : Database
unreachable = record rows { client = err (message "no connection") }

-- Two objects and a user in place of those of the old cache.
abbrev refilling : Database
refilling = record rows {
  objects = ok (resource_one ∷ resource_two ∷ []);
  users = ok (user_nine ∷ []);
}

last_with-two :
    last_with (λ o. o.object.id == 2) (resource_one ∷ resource_two ∷ []) ≡ some resource_two
last_with-two = refl
