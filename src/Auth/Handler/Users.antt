-- ===== src/Auth/Handler/Users.antt =====
-- What users are let through to, from the token to the hierarchy.
use aos_server.Base.{◌≡◌, Bool, true, Option, some, Result, ok}
use aos_server.Base.Map
use aos_server.Auth.Tokens.{ProcessedToken}
use aos_server.Auth.Handler.{Status, PermissionCheck}

-- The answer is one for the user of the token, and the check by contexts has passed.
abbrev IsPassed : ProcessedToken → Option Bool → Option (Result Status PermissionCheck) → Type 0
IsPassed t o (some (ok r)) = (r.user_id ≡ t.main_id) × (o ≡ some true)
IsPassed t o _ = Unit
