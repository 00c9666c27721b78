-- ===== src/DataProxy/Caching/Uploads.antt =====
-- Locations, parts of uploads, and bundles in the proxy's cache, from
-- components/data_proxy/src/caching/cache.rs. `stored` is the outcome of the queries.
pub mod Parts
use text.Mathlib.Text.{◌==◌ as str_eq}
use aos_server.Base.{
  ℕ, String, Bool, true, false, Option, none, some, List, [], ◌∷◌, ◌++◌, ◌==◌, leb, Result, ok, err,
  ◌>>=◌, Error, message, ok_or, if◌then◌else◌,
}
use aos_server.Base.Map
use aos_server.Base.Texts.{lookup, put, erase}
use aos_server.ServerCache.{Ulid}
use aos_server.DataProxy.Format.{ObjectLocation}
use aos_server.DataProxy.Rules.Bundles.{Bundle}
use aos_server.DataProxy.Caching.{ProxyCache, UploadPart}
use aos_server.DataProxy.Caching.Keys.{Stage}

-- `*loc.write() = location`
unfoldable pub set_location : Ulid → Option ObjectLocation → ProxyCache → Option ProxyCache
set_location id location c = elim (Map.get id c.resources) [
  | none ↦ none
  | some (o, old) ↦ some (record c { resources = Map.insert id (o, location) c.resources })
]

abbrev written : Result Error (Unit {0}) → ProxyCache → Option ProxyCache → Stage
written stored c none = (err (message "Resource not found"), c)
written stored c (some c') = (stored, c')

-- The cache changes before the queries.
unfoldable pub add_location_with_binding :
    Result Error (Unit {0}) → Ulid → ObjectLocation → ProxyCache → Stage
unfolding set_location
add_location_with_binding stored id location c =
    written stored c (set_location id (some location) c)

unfoldable pub update_location :
    Result Error (Unit {0}) → Ulid → ObjectLocation → ProxyCache → Stage
unfolding set_location
update_location stored id location c = written stored c (set_location id (some location) c)

-- The queries come first.
unfoldable pub delete_location_with_mappings : Result Error (Unit {0}) → Ulid → ProxyCache → Stage
unfolding set_location
delete_location_with_mappings (err e) id c = (err e, c)
delete_location_with_mappings (ok stored) id c = written (ok tt) c (set_location id none c)

abbrev pub parts_of : Option (List UploadPart) → List UploadPart
parts_of none = []
parts_of (some parts) = parts

-- `part` has a generated id and the arguments of the call. The rounds in which the entry is locked
-- are left out: the wait has no bound until the entry is free.
unfoldable pub create_multipart_upload : Result Error (Unit {0}) → UploadPart → ProxyCache → Stage
create_multipart_upload (err e) part c = (err e, c)
create_multipart_upload (ok stored) part c = (
  ok tt,
  record c {
    multi_parts =
        put part.upload_id (parts_of (lookup part.upload_id c.multi_parts) ++ part ∷ [])
          c.multi_parts;
  },
)

-- `sort_by` keeps the order of parts with equal numbers.
unfoldable pub insert_part : UploadPart → List UploadPart → List UploadPart
insert_part p [] = p ∷ []
insert_part p (q ∷ parts) =
    if leb p.part_number q.part_number then p ∷ q ∷ parts else q ∷ insert_part p parts

unfoldable pub sort_parts : List UploadPart → List UploadPart
unfolding insert_part
sort_parts [] = []
sort_parts (p ∷ parts) = insert_part p (sort_parts parts)

unfoldable pub get_parts : String → ProxyCache → List UploadPart
unfolding sort_parts
get_parts upload_id c = sort_parts (parts_of (lookup upload_id c.multi_parts))

unfoldable pub delete_parts_by_upload_id : Result Error (Unit {0}) → String → ProxyCache → Stage
delete_parts_by_upload_id (err e) upload_id c = (err e, c)
delete_parts_by_upload_id (ok stored) upload_id c =
    (ok tt, record c { multi_parts = erase upload_id c.multi_parts })

-- The list without the first part of the number, if there is one.
unfoldable pub without : ℕ → List UploadPart → Option (List UploadPart)
without part_number [] = none
without part_number (p ∷ parts) =
    let later = without part_number parts in
    if p.part_number == part_number
    then some parts
    else elim later [ none ↦ none | some rest ↦ some (p ∷ rest) ]

abbrev keep_rest : Result Error (Unit {0}) → String → ProxyCache → Option (List UploadPart) → Stage
keep_rest stored upload_id c none = (err (message "Part not found"), c)
keep_rest stored upload_id c (some rest) =
    (stored, record c { multi_parts = put upload_id rest c.multi_parts })

-- The part is removed from the cache before the query.
unfoldable pub delete_part : Result Error (Unit {0}) → String → ℕ → ProxyCache → Stage
unfolding without
delete_part stored upload_id part_number c = elim (lookup upload_id c.multi_parts) [
  | none ↦ (err (message "Upload not found"), c)
  | some parts ↦ keep_rest stored upload_id c (without part_number parts)
]

unfoldable pub add_bundle : Bundle → ProxyCache → ProxyCache
add_bundle bundle c = record c { bundles = Map.insert bundle.id bundle c.bundles }

unfoldable pub get_bundle : Ulid → ProxyCache → Option Bundle
get_bundle id c = Map.get id c.bundles

unfoldable pub delete_bundle : Ulid → ProxyCache → ProxyCache
delete_bundle id c = record c { bundles = Map.remove id c.bundles }

unfoldable pub check_delete_bundle : Ulid → String → ProxyCache → Result Error (Unit {0})
unfolding get_bundle
check_delete_bundle id access_key c = do
  bundle ← ok_or (get_bundle id c) (message "Bundle not found")
  if str_eq bundle.owner_access_key access_key then ok tt else err (message "Access denied")
