-- ===== src/DataProxy/Listing.antt =====
-- How the contents of a bucket are listed:
-- components/data_proxy/src/s3_frontend/utils/list_objects.rs, and `get_path_range` of
-- caching/cache.rs. A `BTreeSet` is the list of its elements in the order in which they were entered;
-- the base64 form of a continuation token is a parameter.
pub mod Sets
pub mod Accounts
pub mod Pages
pub mod Resumed
use Prim.Native.String.{◌++◌ as ◌<>◌}
use text.Mathlib.Text.{◌==◌ as str_eq}
use aos_server.Base.{
  ℕ, ◌+◌, String, Bool, true, false, ◌&&◌, Option, none, some, List, [], ◌∷◌, ◌++◌, ◌==◌, length,
  map, any, keep, Result, ok, err, ◌>>=◌, if◌then◌else◌,
}
use aos_server.Base.Texts.Parts.{strip_prefix, split_once, text_leb}
use aos_server.Enums.{ObjectType}
use aos_server.Enums.Api.{ApiDataClass}
use aos_server.ServerCache.{Ulid}
use aos_server.DataProxy.Format.{ObjectLocation}
use aos_server.DataProxy.Objects.{S3Error, no_such_key, ProxyObject}
use aos_server.DataProxy.Caching.{ProxyCache}
use aos_server.DataProxy.Caching.Graph.{get_resource_cloned}
use aos_server.DataProxy.Access.{or_s3}

-- `paths` keeps its entries in the order of the paths.
unfoldable pub insert_path : String × Ulid → List (String × Ulid) → List (String × Ulid)
insert_path e [] = e ∷ []
insert_path e (f ∷ rest) =
    let later = insert_path e rest in if text_leb e.0 f.0 then e ∷ f ∷ rest else f ∷ later

unfoldable pub sort_paths : List (String × Ulid) → List (String × Ulid)
sort_paths [] = []
sort_paths (e ∷ rest) = insert_path e (sort_paths rest)

abbrev text_or_empty : Option String → String
text_or_empty none = ""
text_or_empty (some s) = s

unfoldable pub get_path_range : String → String → ProxyCache → List (String × Ulid)
unfolding sort_paths strip_prefix text_leb
get_path_range bucket_name skip c =
    let prefix = bucket_name <> "/" in
    map (λ e. (text_or_empty (strip_prefix prefix e.0), e.1))
      (keep (λ e. text_leb (prefix <> skip) e.0 && text_leb e.0 (prefix <> "~"))
        (sort_paths c.paths))

pub record Contents : Type 0 where
  pub key : String
  pub etag : Ulid
  pub size : ℕ
  pub storage_class : ApiDataClass
  pub created_at : Option ℕ

abbrev size_of : Option ObjectLocation → ℕ
size_of none = 0
size_of (some location) = location.raw_content_len

unfoldable pub contents_of : String → ProxyObject → Option ObjectLocation → Contents
contents_of path o location = record {
  key = path;
  etag = o.id;
  size = size_of location;
  storage_class = o.data_class;
  created_at = o.created_at;
}

abbrev same_class : ApiDataClass → ApiDataClass → Bool
same_class ApiDataClass.unspecified ApiDataClass.unspecified = true
same_class ApiDataClass.public ApiDataClass.public = true
same_class ApiDataClass.private ApiDataClass.private = true
same_class ApiDataClass.workspace ApiDataClass.workspace = true
same_class ApiDataClass.confidential ApiDataClass.confidential = true
same_class _ _ = false

abbrev same_time : Option ℕ → Option ℕ → Bool
same_time none none = true
same_time (some s) (some t) = s == t
same_time _ _ = false

abbrev same_contents : Contents → Contents → Bool
same_contents a b =
    str_eq a.key b.key
    && (a.etag == b.etag)
    && (a.size == b.size)
    && same_class a.storage_class b.storage_class
    && same_time a.created_at b.created_at

-- `insert` into a set.
abbrev enter_into : {A : Type 0} → (A → A → Bool) → A → List A → List A
enter_into same x xs = if any (same x) xs then xs else xs ++ x ∷ []

-- What a path is in the listing: nothing, a part of what a common prefix stands for, or a key.
pub data Entry : Type 0 where
  outside : Entry
  common : String → Entry
  candidate : Entry

abbrev by_delimiter : String → String → Option (String × String) → Entry
by_delimiter prefix delimiter none = candidate
by_delimiter prefix delimiter (some (front, back)) = common (prefix <> front <> delimiter)

abbrev by_prefix : Option String → (String → Entry) → Entry
by_prefix none further = outside
by_prefix (some rest) further = further rest

unfoldable pub classify : Option String → Option String → String → Entry
unfolding split_once strip_prefix
classify (some delimiter) (some prefix) path =
    by_prefix (strip_prefix prefix path)
      (λ rest. by_delimiter prefix delimiter (split_once delimiter rest))
classify (some delimiter) none path = by_delimiter "" delimiter (split_once delimiter path)
classify none (some prefix) path = by_prefix (strip_prefix prefix path) (λ rest. candidate)
classify none none path = candidate

pub record Page : Type 0 where
  pub keys : List Contents
  pub common_prefixes : List String
  pub token : Option String

abbrev pub is_object : ObjectType → Bool
is_object ObjectType.object = true
is_object _ = false

abbrev enter_key : String → ProxyObject → Option ObjectLocation → Page → Page
enter_key path o location page =
    if is_object o.object_type
    then record page { keys = enter_into same_contents (contents_of path o location) page.keys }
    else page

abbrev pub is_full : ℕ → Page → Bool
is_full max_keys page = (length page.keys + length page.common_prefixes) == max_keys

module _ (c : ProxyCache) where
  -- One round of the loop, behind the test whether the page is full.
  unfoldable pub note_entry : Entry → String → Ulid → Page → Result S3Error Page
  unfolding contents_of get_resource_cloned
  note_entry outside path id page = ok page
  note_entry (common p) path id page =
      ok (record page { common_prefixes = enter_into str_eq p page.common_prefixes })
  note_entry candidate path id page = do
    (o, location) ← or_s3 (no_such_key "No key found for path") (get_resource_cloned id false c)
    ok (enter_key path o location page)

  module _ (encode : String → String) (sort : String → Entry) (max_keys : ℕ) where
    unfoldable pub list_entries : List (String × Ulid) → Page → Result S3Error Page
    unfolding note_entry
    list_entries [] page = ok page
    list_entries ((path, id) ∷ rest) page =
        if is_full max_keys page
        then ok (record page { token = some (encode path) })
        else (note_entry (sort path) path id page >>= λ next. list_entries rest next)

abbrev pub empty_page : Page
empty_page = record { keys = []; common_prefixes = []; token = none }

unfoldable pub list_response :
    (String → String)
    → Option String
    → Option String
    → String
    → String
    → ℕ
    → ProxyCache
    → Result S3Error Page
unfolding classify list_entries get_path_range
list_response encode delimiter prefix bucket_name start_at max_keys c =
    list_entries c encode (classify delimiter prefix) max_keys
      (get_path_range bucket_name start_at c) empty_page
