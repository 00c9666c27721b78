-- ===== src/Lib.antt =====
-- Verification of the ArunaStorage server (its in-memory cache and its authorization) and of its data
-- proxy (byte ranges, its cache of resources, and who may access what).
--
-- The program. The server (components/server) keeps all resources, users, public keys and rules of
-- the database in a cache (components/server/src/caching). A resource (project, collection, dataset,
-- object) knows its parents and children by its relations. Each request carries a token; the
-- authorization (components/server/src/auth) finds out who presents it and asks the cache whether
-- this user or data proxy may do what the request's contexts name. Handlers change the database
-- first and then the cache. The data proxies (components/data_proxy) store the data.
--
-- Which file models what.
--   Base: Boolean tests, results, lists, maps with numeric keys (DashMap, HashMap), texts.
--   Enums: the enums of components/server/src/database/enums.rs. Enums/Codes: their `i32` codes and
--     labels; Enums/Api: their conversions to and from the gRPC interface, both from
--     components/server/src/utils/conversions/enums.rs.
--   ServerCache: the cache's state, a record with a field for each map of `Cache`, and the records
--     of components/server/src/database/dsls it holds. Its children model the functions of
--     components/server/src/caching/cache.rs by the same names: Objects, Users, Rules (and rule
--     bindings), Relations (`update_relations`), Traverse (`traverse_down`), Permissions
--     (`check_permissions_with_contexts`, `check_proxy_ctxs`), Upstream (both searches for projects),
--     Subresources (`get_subresources`), Holders (`get_resource_permissions`), Hierarchy
--     (`get_hierarchy`, with components/server/src/utils/cache_utils.rs). Sync: `sync_cache` and the lock.
--     Invariant: the calls that change objects, users, keys, rules or bindings, as steps.
--   Auth: Contexts (components/server/src/auth/structs.rs), Issuers (issuer_handler.rs), Tokens
--     (token_handler.rs), Handler (permission_handler.rs).
--   DataProxy (components/data_proxy/src): Format (`FileFormat`, `ObjectLocation` of structs.rs) and
--     Ranges (s3_frontend/utils/ranges.rs); Words: `u64` arithmetic. Objects: `Object` and what it
--     holds (structs.rs); its children Requests, the conversions from the interface, and Creation, those
--     to requests. States: `ResourceStates`, what a path names (structs.rs). Rules:
--     auth/rule_engine.rs, with a child for the builders of auth/rule_structs.rs each. Cors: the CORS
--     headers of a project; its child Buckets: the rules of a bucket. Caching:
--     caching/cache.rs, in Graph (the searches up and down), Keys (users and their access keys),
--     Secrets (secrets of access keys, and public keys), Paths (resources and the paths that lead to
--     them), Uploads (locations, parts and bundles) and Loading (from the proxy's database). Access:
--     `check_access` of auth/auth.rs with the handlers for the root, buckets and paths; Direct: those
--     for packages and bundles; Answers: what the services take of an answer. Tokens: the tokens that
--     data proxies sign and verify. Listing: s3_frontend/utils/list_objects.rs.
--   Examples: a small server and a small data proxy, and the theorems at them.
-- A child of a component that is named for what it proves holds lemmas and theorems only.
--
-- State is passed explicitly: an operation takes the cache last and returns it. Each operation is
-- taken as one step, since a DashMap locks an entry while it is written; `check_lock` waits for the
-- end of a `sync_cache`, so the operations are those of an unlocked cache. The order of an
-- association list stands for the order of an iterator; the theorems hold for each.
--
-- Bounds and fuel. The walks keep no set of visited ids, so they take fuel, and `none` is the result
-- that it ran out. For `traverse_down` and the permission check, the number of walks of at most four
-- steps down from the root is enough where children are of a lower type than their parents; for
-- `get_subresources`, the number of walks down from the root; for the searches upwards, the depth
-- (recursive) or the number of nodes on all walks up (iterative). For the data proxy's `get_prefixes`
-- and `get_single_parent`, the number of resources on all ways up is enough where every way up ends,
-- and for `get_suffixes` that on all ways down where these end. An `i16` serial is its bit pattern, a
-- number below 2 ^ 16; an `i32` code is one below 2 ^ 32; `u64` arithmetic wraps around at 2 ^ 64, as
-- in a release build.
--
-- Parameters. What packages do is a parameter: reading and validating JWTs, base64 and JSON of token
-- payloads, the text form of ids, HTTP for key sets, the channel to the task that refreshes issuers,
-- the evaluation of CEL rules, and CORS configurations as JSON. Decoding keys are named by texts. Of
-- a query to the data proxy's own database the outcome is an argument, and so are drawn ids and times.
--
-- Not modelled: SQL and other I/O; the statistics kept in an evmap; signing on the server; the
-- gRPC services, database handlers, hooks, notifications and search; of the data proxy the S3
-- services, which mostly move data, and the replication.
pub mod Auth
pub mod Base
pub mod DataProxy
pub mod Enums
pub mod Examples
pub mod ServerCache
