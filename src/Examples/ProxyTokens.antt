-- ===== src/Examples/ProxyTokens.antt =====
-- Tokens between two data proxies, and a listing, at concrete values.
use aos_server.Base.{true, ◌≡◌, refl, none, some, [], ◌∷◌, ok, IsOk}
use aos_server.Base.Map
use aos_server.ServerCache.{Ulid}
use aos_server.DataProxy.Caching.{ProxyCache, PubKey, empty_cache}
use aos_server.DataProxy.Tokens.{
  dp_exchange, impersonate, ProxyTokens, Jwt, ProxyClaims, check_token, intent_to_text,
  intent_of_text,
}
use aos_server.DataProxy.Tokens.Exchange.{IsTrusted, check_token-IsTrusted}
use aos_server.DataProxy.Tokens.Texts.{intent_of_text-intent_to_text}
use aos_server.DataProxy.Listing.{get_path_range, insert_path}
use aos_server.DataProxy.Listing.Resumed.{get_path_range-resumes}
use aos_server.Examples.Proxy.{to_string, from_str, proxy}

abbrev key_one : PubKey
key_one = record { id = 3; key = "k"; is_proxy = true }

-- A package for which every token is proxy 1's for the exchange of data with proxy 2.
abbrev exchanged : ProxyClaims
exchanged = record {
  iss = "1";
  sub = "1";
  exp = 900;
  aud = "proxy";
  tid = none;
  it = some record { target = 2; action = dp_exchange };
}

abbrev jwt : Jwt
jwt = record {
  decode_header = λ text. ok (some "3");
  decode = λ text key. ok exchanged;
  encode = λ kid claims. ok "token";
}

abbrev tokens_of : Ulid → ProxyTokens
tokens_of id = record {
  self_id = id;
  serial = "3";
  jwt = jwt;
  to_string = to_string;
  from_str = from_str;
  parse_i32 = λ text. ok 3;
  now = 0;
}

abbrev keys : ProxyCache
keys = record empty_cache { pubkeys = (3, key_one) ∷ [] }

accepted :
    check_token (tokens_of 2) keys "token" ≡ ok (record { id = 1; token_id = none; key = key_one })
unfolding check_token Map.get
accepted = refl

check_token-IsTrusted_example :
    IsOk (IsTrusted (tokens_of 2) keys "token") (check_token (tokens_of 2) keys "token")
check_token-IsTrusted_example = check_token-IsTrusted (tokens_of 2) keys "token"

intent_of_text-intent_to_text_example :
    intent_of_text from_str (intent_to_text to_string (record { target = 2; action = impersonate }))
    ≡ some (ok (record { target = 2; action = impersonate }))
intent_of_text-intent_to_text_example =
    intent_of_text-intent_to_text from_str to_string (record { target = 2; action = impersonate })
      refl refl

-- The listing of the bucket has one object.
listed : get_path_range "p" "" proxy ≡ ("o", 2) ∷ []
unfolding get_path_range insert_path
listed = refl

-- Two objects, of which the first page took one.
abbrev crowded : ProxyCache
crowded = record proxy { paths = ("p/o", 2) ∷ ("p", 1) ∷ ("p/n", 3) ∷ [] }

both_listed : get_path_range "p" "" crowded ≡ ("n", 3) ∷ ("o", 2) ∷ []
unfolding get_path_range insert_path
both_listed = refl

get_path_range-resumes_example : get_path_range "p" "o" crowded ≡ ("o", 2) ∷ []
get_path_range-resumes_example =
    get_path_range-resumes "p" "" "o" 2 (("n", 3) ∷ []) [] crowded
      ((refl, (refl, tt)), ((refl, tt), (tt, tt))) both_listed
