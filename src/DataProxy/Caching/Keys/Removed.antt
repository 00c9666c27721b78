-- ===== src/DataProxy/Caching/Keys/Removed.antt =====
-- Access keys after `remove_user` and `upsert_user` of the data proxy.
use text.Mathlib.Text.{◌==◌ as str_eq}
use text.Mathlib.TextEquality.{eq_iff}
use aos_server.Base.{
  ==→eq, Bool-cases, String, ◌≡◌, refl, inl, inr, none, some, List, [], ◌∷◌, In, Option-cases,
  Result, ok, err, Error, ◌==◌,
}
use aos_server.Base.Map
use aos_server.Base.Map.{Map}
use aos_server.Base.Texts.{lookup, put, erase}
use aos_server.Base.Texts.Maps.{lookup-put, lookup-erase_each, erase_each}
use aos_server.ServerCache.{Ulid}
use aos_server.DataProxy.States.{AccessKeyPermissions}
use aos_server.DataProxy.Caching.{ProxyCache, ProxyUser}
use aos_server.DataProxy.Caching.Keys.{
  Queries, Stage, drop_keys, update_keys, upsert_user, user_of, compare_permissions, Permissions,
  GrpcUser, gone_tokens, replace_user, continue,
}

-- What holds of the cache if the call succeeds.
abbrev pub After : (ProxyCache → Type 0) → Stage → Type 0
After P (ok done, c) = P c
After P (err e, c) = Unit

continue-After :
    (P : ProxyCache → Type 0) (r : Result Error (Unit {0})) (c : ProxyCache)
    (next : ProxyCache → Stage)
    → After P (next c)
    → After P (continue r c next)
continue-After P (ok done) c next h = h
continue-After P (err e) c next h = tt

abbrev without_keys : List String → ProxyCache → ProxyCache
without_keys keys c = record c { access_keys = erase_each keys c.access_keys }

pub drop_keys-After :
    (P : ProxyCache → Type 0) (q : Queries) (keys : List String) (c : ProxyCache)
    (next : ProxyCache → Stage)
    → After P (next (without_keys keys c))
    → After P (drop_keys q keys c next)
unfolding drop_keys
drop_keys-After P q [] c next h = h
drop_keys-After P q (key ∷ keys) c next h =
    continue-After P (q.delete_key key) (record c { access_keys = erase key c.access_keys }) _
      (drop_keys-After P q keys (record c { access_keys = erase key c.access_keys }) next h)

finish-After :
    (P : ProxyCache → Type 0) (r : Result Error (Unit {0})) (c : ProxyCache) → P c → After P (r, c)
finish-After P (ok done) c h = h
finish-After P (err e) c h = tt

module _ (q : Queries) (key : String) where
  abbrev Unknown : ProxyCache → Type 0
  Unknown c = lookup key c.access_keys ≡ none

  -- An update changes only keys that are there.
  put-Unknown :
      (k : String) (old new : AccessKeyPermissions) (c : ProxyCache)
      → lookup k c.access_keys ≡ some old
      → Unknown c
      → Unknown (record c { access_keys = put k new c.access_keys })
  put-Unknown k old new c e unknown = elim (Bool-cases (str_eq k key)) [
    | inl same ↦
        let k_key : k ≡ key = (eq_iff k key).0 same in
        let known : lookup key c.access_keys ≡ some old = rw k_key at e in cc (known, unknown)
    | inr other ↦ rw (lookup-put k key new c.access_keys, other) unknown
  ]

  update_keys-Unknown :
      (updates : List (String × Permissions)) (c : ProxyCache) (next : ProxyCache → Stage)
      → ((c' : ProxyCache) → Unknown c' → After Unknown (next c'))
      → Unknown c
      → After Unknown (update_keys q updates c next)
  unfolding update_keys
  update_keys-Unknown [] c next h unknown = h c unknown
  update_keys-Unknown ((k, perms) ∷ updates) c next h unknown =
      elim (Option-cases (lookup k c.access_keys)) [
        | inl e ↦ rw (e, update_keys) (update_keys-Unknown updates c next h unknown)
        | inr (access, e) ↦
            let new : AccessKeyPermissions = record access { permissions = perms } in
            rw (e, update_keys)
              (continue-After Unknown (q.upsert_key k)
                (record c { access_keys = put k new c.access_keys }) _
                (update_keys-Unknown updates _ next h (put-Unknown k access new c e unknown)))
      ]

gone_tokens-In :
    (to_string : Ulid → String) (k : Ulid) (v : Permissions) (new old : Map Permissions)
    → Map.get k old ≡ some v
    → Map.get k new ≡ none
    → In (to_string k) (gone_tokens to_string new old)
unfolding gone_tokens Map.get
gone_tokens-In to_string k v new [] e gone = cc
gone_tokens-In to_string k v new ((j, w) ∷ old) e gone = elim (Bool-cases (j == k)) [
  | inl same ↦ let j_k : j ≡ k = ==→eq j k same in rw (j_k, gone) (inl refl)
  | inr other ↦
      let later : Map.get k old ≡ some v = rw other at e in
      let rest = gone_tokens-In to_string k v new old later gone in
      elim (Bool-cases (Map.contains_key j new)) [
        | inl kept ↦ rw kept rest
        | inr dropped ↦ rw dropped (inr rest)
      ]
]

module _ (to_string : Ulid → String) (from_str : String → Result Error Ulid) (q : Queries) where
  -- After a user was replaced by one without a token that the user had, the token is no access key.
  upsert_user-gone :
      (user : GrpcUser) (new old : ProxyUser) (keys : List String) (k : Ulid) (v : Permissions)
      (c : ProxyCache)
      → user_of from_str user ≡ ok new
      → Map.get new.user_id c.users ≡ some (old, keys)
      → Map.get k old.tokens ≡ some v
      → Map.get k new.tokens ≡ none
      → After
          (λ c'. lookup (to_string k) c'.access_keys ≡ none)
          (upsert_user to_string from_str q user c)
  unfolding upsert_user replace_user compare_permissions
  upsert_user-gone user new old keys k v c read e had gone =
      rw (read, e, replace_user)
        (drop_keys-After (Unknown q (to_string k)) q (gone_tokens to_string new.tokens old.tokens) _
          _
          (update_keys-Unknown q (to_string k) _ _ _
            (λ c' unknown. finish-After (Unknown q (to_string k)) q.write_user c' unknown)
            (lookup-erase_each (gone_tokens to_string new.tokens old.tokens) (to_string k) _
              (gone_tokens-In to_string k v new.tokens old.tokens had gone))))
