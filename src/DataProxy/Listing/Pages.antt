-- ===== src/DataProxy/Listing/Pages.antt =====
-- The pages of `list_response`.
use aos_server.Base.{ℕ, String, true, ◌≡◌, ◌⊎◌, Option, none, some, List, [], ◌∷◌, ◌++◌}
use aos_server.ServerCache.{Ulid}
use aos_server.DataProxy.Caching.{ProxyCache}
use aos_server.DataProxy.Listing.{Entry, Page, is_full}
use aos_server.DataProxy.Listing.Accounts.{IsAccount}

module _ (c : ProxyCache) (encode : String → String) (sort : String → Entry) (max_keys : ℕ) where
  abbrev pub token_for : List (String × Ulid) → Option String
  token_for [] = none
  token_for ((path, id) ∷ rest) = some (encode path)

  -- The entries that the page accounts for are followed by those that it leaves to the next.
  abbrev Ends : List (String × Ulid) → List (String × Ulid) → Page → Type 0
  Ends done entries page =
      (front : List (String × Ulid)) × (back : List (String × Ulid)) × (entries ≡ front ++ back)
      × (page.token ≡ token_for back)
      × ((back ≡ []) ⊎ (is_full max_keys page ≡ true))
      × IsAccount c sort max_keys (done ++ front) page
