-- ===== src/DataProxy/Cors/Buckets.antt =====
-- CORS rules as the S3 package has them: components/data_proxy/src/structs.rs.
use aos_server.Base.{ℕ, String, Option, none, some, List, [], ◌∷◌, map}
use aos_server.DataProxy.Cors.{CorsRule}

-- The package's `CORSRule`.
pub record S3CorsRule : Type 0 where
  pub id : Option String
  pub allowed_headers : Option (List String)
  pub allowed_methods : List String
  pub allowed_origins : List String
  pub expose_headers : Option (List String)
  pub max_age_seconds : Option ℕ

abbrev or_default : Option ℕ → ℕ
or_default none = 0
or_default (some seconds) = seconds

unfoldable pub cors_of_s3 : S3CorsRule → CorsRule
cors_of_s3 value = record {
  id = value.id;
  allowed_headers = value.allowed_headers;
  allowed_methods = value.allowed_methods;
  allowed_origins = value.allowed_origins;
  expose_headers = value.expose_headers;
  max_age_seconds = or_default value.max_age_seconds;
}

unfoldable pub cors_to_s3 : CorsRule → S3CorsRule
cors_to_s3 val = record {
  id = val.id;
  allowed_headers = val.allowed_headers;
  allowed_methods = val.allowed_methods;
  allowed_origins = val.allowed_origins;
  expose_headers = val.expose_headers;
  max_age_seconds = some val.max_age_seconds;
}

abbrev or_none : List S3CorsRule → Option (List S3CorsRule)
or_none [] = none
or_none (rule ∷ rules) = some (rule ∷ rules)

unfoldable pub bucket_cors : List CorsRule → Option (List S3CorsRule)
unfolding cors_to_s3
bucket_cors rules = or_none (map cors_to_s3 rules)
