-- ===== src/DataProxy/Cors.antt =====
-- Cross-origin rules of a bucket: `CORSRule`, `CORSConfiguration::into_headers` and
-- `Object::project_get_headers` of components/data_proxy/src/structs.rs. `parse` is the JSON package,
-- which reads a configuration. Names of request headers are in lower case; a header's value is `none`
-- where it is no text.
pub mod Buckets
use Prim.Native.Char.{code}
use Prim.Native.String.{◌++◌ as ◌<>◌}
use text.Mathlib.Text.{◌==◌ as str_eq}
use aos_server.Base.{
  ℕ, String, Bool, true, false, ◌&&◌, ◌||◌, Option, none, some, List, [], ◌∷◌, ◌==◌, all, any,
  is_nil, map, leb, if◌then◌else◌,
}
use aos_server.Base.Texts.{lookup, put}
use aos_server.Enums.{ObjectType}
use aos_server.DataProxy.Objects.{ProxyObject, ProxyKeyValue, Texts, HttpMethod, method_text}

pub record CorsRule : Type 0 where
  pub id : Option String
  pub allowed_headers : Option (List String)
  pub allowed_methods : List String
  pub allowed_origins : List String
  pub expose_headers : Option (List String)
  pub max_age_seconds : ℕ

-- `join(", ")`
abbrev pub join : List String → String
join [] = ""
join (s ∷ []) = s
join (s ∷ t ∷ ss) = s <> ", " <> join (t ∷ ss)

abbrev contains : String → List String → Bool
contains s texts = any (str_eq s) texts

abbrev pub put_if : Bool → String → String → Texts → Texts
put_if true k v m = put k v m
put_if false k v m = m

abbrev put_list : String → Option (List String) → Texts → Texts
put_list k none m = m
put_list k (some texts) m = put k (join texts) m

-- The headers of a rule that applies.
unfoldable pub headers_of : CorsRule → Texts
headers_of r = put_if (r.max_age_seconds == 0) "Access-Control-Max-Age" "0" (
    put_list "Access-Control-Expose-Headers" r.expose_headers (
      put_list "Access-Control-Allow-Headers" r.allowed_headers (
        put_if (if is_nil r.allowed_methods then false else true) "Access-Control-Allow-Methods"
          (join r.allowed_methods)
          (put_if (if is_nil r.allowed_origins then false else true) "Access-Control-Allow-Origin"
            (join r.allowed_origins) []))))

abbrev has_key : Texts → String → Bool
has_key m k = elim (lookup k m) [ none ↦ false | some v ↦ true ]

-- A requested header is looked up among the names of the answer's headers.
unfoldable pub all_requested : Option (List String) → Texts → Bool
all_requested none m = true
all_requested (some names) m = all (has_key m) names

unfoldable pub applies : String → String → CorsRule → Bool
applies origin method r = contains origin r.allowed_origins && contains method r.allowed_methods

-- The first rule that applies decides.
unfoldable pub into_headers : String → String → Option (List String) → List CorsRule → Option Texts
unfolding headers_of all_requested applies
into_headers origin method requested [] = none
into_headers origin method requested (r ∷ rules) =
    let later = into_headers origin method requested rules in
    if applies origin method r
    then (if all_requested requested (headers_of r) then some (headers_of r) else none)
    else later

-- White space of Unicode, which `trim` removes.
abbrev is_space : ℕ → Bool
is_space c =
    (leb 9 c && leb c 13)
    || c == 32
    || c == 133
    || c == 160
    || c == 5760
    || (leb 8192 c && leb c 8202)
    || c == 8232
    || c == 8233
    || c == 8239
    || c == 8287
    || c == 12288

abbrev trim_start : String → String
trim_start String.[] = ""
trim_start (String.◌∷◌ x s) = if is_space (code x) then trim_start s else String.◌∷◌ x s

abbrev trim_end : String → String
trim_end String.[] = ""
trim_end (String.◌∷◌ x s) =
    let rest = trim_end s in if is_space (code x) && str_eq rest "" then "" else String.◌∷◌ x rest

unfoldable pub trim : String → String
trim s = trim_end (trim_start s)

abbrev cons_first : String → List String → List String
cons_first part [] = part ∷ []
cons_first part (p ∷ parts) = (part <> p) ∷ parts

unfoldable pub split_commas : String → List String
split_commas String.[] = "" ∷ []
split_commas (String.◌∷◌ x s) =
    let parts = split_commas s in
    if code x == b',' then "" ∷ parts else cons_first (String.◌∷◌ x "") parts

abbrev text_or_empty : Option String → String
text_or_empty none = ""
text_or_empty (some s) = s

abbrev requested_headers : Option (Option String) → Option (List String)
requested_headers none = none
requested_headers (some value) = some (map trim (split_commas (text_or_empty value)))

-- `find_map` over the key-values: the first whose configuration gives a result. A configuration under
-- the key that can be read gives one, whatever `into_headers` says; `flatten` then takes it apart.
unfoldable pub find_cors :
    (String → Option (List CorsRule))
    → String
    → HttpMethod
    → Option (List String)
    → List ProxyKeyValue
    → Option Texts
find_cors parse origin method requested [] = none
find_cors parse origin method requested (kv ∷ kvs) =
    let later = find_cors parse origin method requested kvs in
    if str_eq kv.key "app.aruna-storage.org/cors"
    then elim (parse kv.value) [
      | none ↦ later
      | some rules ↦ into_headers origin (method_text method) requested rules
    ]
    else later

abbrev with_origin :
    (String → Option (List CorsRule))
    → HttpMethod
    → Option (List String)
    → List ProxyKeyValue
    → Option (Option String)
    → Option Texts
with_origin parse method requested kvs none = none
with_origin parse method requested kvs (some none) = none
with_origin parse method requested kvs (some (some origin)) =
    find_cors parse origin method requested kvs

abbrev for_project : ObjectType → Option Texts → Option Texts
for_project ObjectType.project result = result
for_project _ result = none

unfoldable pub project_get_headers :
    (String → Option (List CorsRule))
    → HttpMethod
    → List (String × Option String)
    → ProxyObject
    → Option Texts
unfolding find_cors
project_get_headers parse method headers o = for_project o.object_type (
    with_origin parse method (requested_headers (lookup "access-control-request-headers" headers))
      o.key_values (lookup "origin" headers))
