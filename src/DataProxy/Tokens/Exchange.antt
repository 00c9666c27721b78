-- ===== src/DataProxy/Tokens/Exchange.antt =====
-- `check_permissions` of components/data_proxy/src/auth/auth.rs, alone and on what
-- `sign_dataproxy_token` signs.
use aos_server.Base.{
  ℕ, String, true, ◌≡◌, refl, ap, ◌∙◌, ◌⊎◌, inl, inr, Option, none, some, ◌==◌, Bool-cases, ok,
  message, IsOk, IsOk-mono, >>=-IsOk, eq_some_of_ok_or, ok_or,
}
use aos_server.Base.Map
use aos_server.DataProxy.Caching.{ProxyCache, PubKey}
use aos_server.DataProxy.Caching.Secrets.{get_pubkey}
use aos_server.DataProxy.Tokens.{
  ProxyAction, every_action, create_secrets, impersonate, fetch_info, dp_exchange, ProxyIntent,
  ProxyClaims, ProxyTokens, Verified, verified, by_action, by_intent, check_token,
}

module _ (h : ProxyTokens) (c : ProxyCache) (text : String) where
  -- An intent for everything, or one for this proxy to create secrets or to exchange data.
  abbrev pub IsForSelf : Option ProxyIntent → Type 0
  IsForSelf none = Unit
  IsForSelf (some it) =
      (it.action ≡ every_action)
      ⊎ (((it.action ≡ create_secrets) ⊎ (it.action ≡ dp_exchange))
          × ((it.target == h.self_id) ≡ true))

  -- The key id in the header names a cached key, with which the token is valid; its subject is the
  -- answer.
  abbrev pub IsTrusted : Verified → Type 0
  IsTrusted answer =
      (kid : String) × (serial : ℕ) × (claims : ProxyClaims) × (h.jwt.decode_header text
        ≡ ok (some kid))
      × (h.parse_i32 kid ≡ ok serial)
      × (Map.get serial c.pubkeys ≡ some answer.key)
      × (h.jwt.decode text answer.key ≡ ok claims)
      × (h.from_str claims.sub ≡ ok answer.id)
      × IsForSelf claims.it

  abbrev Speaks : ProxyClaims → PubKey → Option ProxyIntent → Verified → Type 0
  Speaks claims pk it answer =
      (answer.key ≡ pk) × (h.from_str claims.sub ≡ ok answer.id) × IsForSelf it

  verified-Speaks :
      (claims : ProxyClaims) (tid : Option String) (pk : PubKey) (it : Option ProxyIntent)
      → IsForSelf it
      → IsOk (Speaks claims pk it) (verified h claims tid pk)
  unfolding verified
  verified-Speaks claims tid pk it for_it =
      >>=-IsOk (Speaks claims pk it) (h.from_str claims.sub) _ (λ id e. (refl, e, for_it))

  by_action-Speaks :
      (action : ProxyAction) (it : ProxyIntent) (claims : ProxyClaims) (pk : PubKey)
      → it.action ≡ action
      → IsOk (Speaks claims pk (some it)) (by_action h action it claims pk)
  unfolding by_action
  by_action-Speaks every_action it claims pk e =
      verified-Speaks claims claims.tid pk (some it) (inl e)
  by_action-Speaks create_secrets it claims pk e = elim (Bool-cases (it.target == h.self_id)) [
    | inl own ↦ rw own (verified-Speaks claims claims.tid pk (some it) (inr (inl e, own)))
    | inr other ↦ rw other tt
  ]
  by_action-Speaks dp_exchange it claims pk e = elim (Bool-cases (it.target == h.self_id)) [
    | inl own ↦ rw own (verified-Speaks claims none pk (some it) (inr (inr e, own)))
    | inr other ↦ rw other tt
  ]
  by_action-Speaks impersonate it claims pk e = tt
  by_action-Speaks fetch_info it claims pk e = tt

  by_intent-Speaks :
      (it : Option ProxyIntent) (claims : ProxyClaims) (pk : PubKey)
      → IsOk (Speaks claims pk it) (by_intent h it claims pk)
  unfolding by_intent
  by_intent-Speaks none claims pk = verified-Speaks claims claims.tid pk none tt
  by_intent-Speaks (some it) claims pk = by_action-Speaks it.action it claims pk refl

  -- A token that is accepted names a key that the cache knows in its header, is valid with this key,
  -- and its subject is the answer. If it has an intent, this is for everything, or it is for this proxy
  -- to create secrets or to exchange data.
  pub check_token-IsTrusted : IsOk IsTrusted (check_token h c text)
  unfolding check_token get_pubkey
  check_token-IsTrusted = >>=-IsOk IsTrusted (h.jwt.decode_header text) _ (λ named e1.
      >>=-IsOk IsTrusted (ok_or named (message "Unspecified kid")) _ (λ kid e2.
        >>=-IsOk IsTrusted (h.parse_i32 kid) _ (λ serial e3.
          >>=-IsOk IsTrusted (get_pubkey serial c) _ (λ pk e4.
            >>=-IsOk IsTrusted (h.jwt.decode text pk) _ (λ claims e5.
              let named_kid : named ≡ some kid =
                eq_some_of_ok_or named (message "Unspecified kid") e2 in
              let cached : Map.get serial c.pubkeys ≡ some pk =
                eq_some_of_ok_or (Map.get serial c.pubkeys) (message "Pubkey not found") e4 in
              IsOk-mono (Speaks claims pk claims.it) IsTrusted (by_intent h claims.it claims pk)
                (λ answer (key, sub, for_it). (
                  kid,
                  serial,
                  claims,
                  e1 ∙ ap (ok) named_kid,
                  e3,
                  rw key cached,
                  rw key e5,
                  sub,
                  for_it,
                ))
                (by_intent-Speaks claims.it claims pk))))))
