-- ===== src/Auth/Issuers.antt =====
-- Token issuers: components/server/src/auth/issuer_handler.rs, with `get_issuer` and `update_issuer`
-- of the cache. What the packages for tokens, time and HTTP do is a parameter.
use text.Mathlib.Text.{◌==◌ as str_eq}
use aos_server.Base.{
  ℕ, String, Bool, Option, none, some, List, [], ◌∷◌, ◌++◌, ◌+◌, Result, ok, err, ◌>>=◌, Error,
  message, ok_or, ltb, if◌then◌else◌,
}
use aos_server.Base.Texts.{lookup, put, print_i16}
use aos_server.ServerCache.{
  Ulid, IssuerType, aruna, dataproxy, oidc, PubKeyEnum, data_proxy, server, Issuer, Cache,
}

pub data Action : Type 0 where
  all create_secrets impersonate fetch_info : Action

pub record Intent : Type 0 where
  pub target : Ulid
  pub action : Action

-- `ArunaTokenClaims`, without the audience and the expiry, which only the token package reads.
pub record ArunaTokenClaims : Type 0 where
  pub iss : String
  pub sub : String
  pub tid : Option String
  pub it : Option Intent

-- `decode_header` gives a header's `kid`, `get_validate_claims` the claims of a valid token.
pub record TokenPackage : Type 0 where
  pub decode_header : String → Result Error (Option String)
  pub get_validate_claims : String → String → Option (List String) → Result Error ArunaTokenClaims

unfoldable pub find : String → List (String × String) → Option String
find kid [] = none
find kid ((key_id, key) ∷ keys) = if str_eq key_id kid then some key else find kid keys

unfoldable pub check_token :
    TokenPackage → Issuer → String → Result Error (String × ArunaTokenClaims)
check_token tokens issuer token = do
  header_kid ← tokens.decode_header token
  kid ← ok_or header_kid (message "No kid in header")
  decoding_key ← ok_or (find kid issuer.decoding_keys) (message "No matching key found")
  claims ← tokens.get_validate_claims token decoding_key issuer.audiences
  ok (kid, claims)

abbrev is_oidc : IssuerType → Bool
is_oidc oidc = Bool.true
is_oidc _ = Bool.false

-- `fetch_jwks` gives the keys of an endpoint and the time at which it was asked.
abbrev pub Fetch : Type 0
Fetch = String → Result Error (List (String × String) × ℕ)

abbrev fetched : Fetch → Issuer → Result Error Issuer
fetched fetch_jwks issuer = do
  endpoint ← ok_or issuer.pubkey_endpoint (message "Invalid endpoint type")
  (keys, last_updated) ← fetch_jwks endpoint
  ok (record issuer { decoding_keys = keys; last_updated = last_updated })

unfoldable pub refresh_jwks : ℕ → Fetch → Issuer → Result Error Issuer
refresh_jwks now fetch_jwks issuer =
    if ltb now (issuer.last_updated + 300)
    then err (message "JWKS was updated less than 5 minutes ago")
    else if is_oidc issuer.issuer_type
    then fetched fetch_jwks issuer
    else err (message "Only OIDC issuers can refresh JWKS")

unfoldable pub get_issuer : String → Cache → Option Issuer
get_issuer kid c = lookup kid c.issuer_info

unfoldable pub update_issuer : ℕ → Fetch → String → Cache → Result Error Cache
update_issuer now fetch_jwks issuer_name c = do
  issuer ← ok_or (lookup issuer_name c.issuer_info) (message "Issuer not found in cache")
  refreshed ← refresh_jwks now fetch_jwks issuer
  ok (record c { issuer_info = put issuer_name refreshed c.issuer_info })

-- The issuers of the keys: one for each data proxy, and one for the server with all its own keys.
-- `to_string` prints an endpoint's id.
abbrev proxy_issuer : ℕ → (Ulid → String) → ℕ → String → Ulid → Issuer
unfolding print_i16
proxy_issuer now to_string id dec_key key = record {
  issuer_name = to_string key;
  pubkey_endpoint = none;
  decoding_keys = (print_i16 id, dec_key) ∷ [];
  last_updated = now;
  audiences = some ("aruna" ∷ []);
  issuer_type = dataproxy;
}

abbrev server_issuer : ℕ → List (String × String) → Issuer
server_issuer now keys = record {
  issuer_name = "aruna";
  pubkey_endpoint = none;
  decoding_keys = keys;
  last_updated = now;
  audiences = some ("aruna" ∷ []);
  issuer_type = aruna;
}

abbrev issuers_of :
    ℕ → (Ulid → String) → List (ℕ × PubKeyEnum) → List (String × String) → List Issuer → List Issuer
unfolding print_i16 proxy_issuer
issuers_of now to_string [] keys issuers = issuers ++ server_issuer now keys ∷ []
issuers_of now to_string ((id, data_proxy dec_key key) ∷ pubkeys) keys issuers =
    issuers_of now to_string pubkeys keys
      (issuers ++ proxy_issuer now to_string id dec_key key ∷ [])
issuers_of now to_string ((id, server dec_key) ∷ pubkeys) keys issuers =
    issuers_of now to_string pubkeys (keys ++ (print_i16 id, dec_key) ∷ []) issuers

unfoldable pub convert_to_pubkeys_issuers :
    ℕ → (Ulid → String) → List (ℕ × PubKeyEnum) → List Issuer
unfolding issuers_of
convert_to_pubkeys_issuers now to_string pubkeys = issuers_of now to_string pubkeys [] []

-- `fetch_jwks` is asked first; an issuer of this kind can refresh its keys.
unfoldable pub new_with_endpoint :
    Fetch → String → String → Option (List String) → Result Error Issuer
new_with_endpoint fetch_jwks issuer_name pubkey_endpoint audiences = do
  (decoding_keys, last_updated) ← fetch_jwks pubkey_endpoint
  ok (record {
    issuer_name = issuer_name;
    pubkey_endpoint = some pubkey_endpoint;
    decoding_keys = decoding_keys;
    last_updated = last_updated;
    audiences = audiences;
    issuer_type = oidc;
  })
