-- ===== src/DataProxy/Listing/Accounts.antt =====
-- What a page accounts for, and one round of the loop of `list_response`.
use text.Mathlib.Text.{◌==◌ as str_eq}
use aos_server.Base.{
  arith, ℕ, ◌+◌, ◌≤◌, String, true, false, ◌≡◌, refl, ◌⊎◌, inl, inr, Option, List, [], ◌∷◌, ◌++◌,
  In, In-append_left, In-append_right, length, All, Bool-cases, Result, ok, err, Error, IsOk,
  >>=-IsOk,
}
use aos_server.ServerCache.{Ulid}
use aos_server.DataProxy.Format.{ObjectLocation}
use aos_server.DataProxy.Objects.{ProxyObject, S3Error, no_such_key}
use aos_server.DataProxy.Caching.{ProxyCache}
use aos_server.DataProxy.Caching.Graph.{get_resource_cloned}
use aos_server.DataProxy.Access.{or_s3}
use aos_server.DataProxy.Listing.{
  Contents, contents_of, same_contents, enter_into, Entry, outside, common, candidate, Page,
  is_object, is_full, note_entry,
}
use aos_server.DataProxy.Listing.Sets.{
  All-mono, All-snoc, In-enter_into, enter_into-keeps, enter_into-All, length-enter_into,
  str_eq-IsExact, same_contents-IsExact,
}

or_s3-ok {ℓ} : {A : Type ℓ} (e : S3Error) (r : Result Error A) (a : A) → or_s3 e r ≡ ok a → r ≡ ok a
or_s3-ok e (ok b) a h = cc
or_s3-ok e (err f) a h = cc

module _ (c : ProxyCache) (sort : String → Entry) where
  -- The page shows an entry: a key as it is in the cache if it is an object's, and a common prefix for
  -- those that share it.
  abbrev pub ShownAs : Page → String → Ulid → Entry → Type 0
  ShownAs page path id outside = Unit
  ShownAs page path id (common p) = In p page.common_prefixes
  ShownAs page path id candidate =
      (o : ProxyObject) × (location : Option ObjectLocation) × (get_resource_cloned id false c
        ≡ ok (o, location))
      × ((is_object o.object_type ≡ false) ⊎ In (contents_of path o location) page.keys)

  abbrev pub Shows : Page → String × Ulid → Type 0
  Shows page (path, id) = ShownAs page path id (sort path)

  -- A key is an object of one of the entries, a common prefix that of one.
  abbrev pub IsKeyOf : List (String × Ulid) → Contents → Type 0
  IsKeyOf entries key =
      (path : String) × (id : Ulid) × In (path, id) entries
      × (sort path ≡ candidate)
      × (o : ProxyObject) × (location : Option ObjectLocation) × (get_resource_cloned id false c
          ≡ ok (o, location))
      × (is_object o.object_type ≡ true)
      × (key ≡ contents_of path o location)

  abbrev pub IsPrefixOf : List (String × Ulid) → String → Type 0
  IsPrefixOf entries p =
      (path : String) × (id : Ulid) × In (path, id) entries × (sort path ≡ common p)

  pub record IsAccount (max_keys : ℕ) (entries : List (String × Ulid)) (page : Page) : Type 0 where
    pub shown : All (Shows page) entries
    pub keys : All (IsKeyOf entries) page.keys
    pub prefixes : All (IsPrefixOf entries) page.common_prefixes
    pub fits : (length page.keys + length page.common_prefixes) ≤ max_keys

  -- A page that holds more shows what it showed.
  module _ (page next : Page) (keys : (k : Contents) → In k page.keys → In k next.keys)
      (prefixes : (p : String) → In p page.common_prefixes → In p next.common_prefixes) where
    ShownAs-mono :
        (path : String) (id : Ulid) (s : Entry) → ShownAs page path id s → ShownAs next path id s
    ShownAs-mono path id outside h = tt
    ShownAs-mono path id (common p) h = prefixes p h
    ShownAs-mono path id candidate (o, location, found, inl other) = (o, location, found, inl other)
    ShownAs-mono path id candidate (o, location, found, inr listed) =
        (o, location, found, inr (keys (contents_of path o location) listed))

    Shows-mono : (e : String × Ulid) → Shows page e → Shows next e
    Shows-mono (path, id) = ShownAs-mono path id (sort path)

  keys-more :
      (done : List (String × Ulid)) (e : String × Ulid) (keys : List Contents)
      → All (IsKeyOf done) keys
      → All (IsKeyOf (done ++ e ∷ [])) keys
  keys-more done e keys =
      All-mono (IsKeyOf done) (IsKeyOf (done ++ e ∷ [])) keys
        (λ k (path, id, within, sorted, o, location, found, object, same). (
          path,
          id,
          In-append_left (path, id) done (e ∷ []) within,
          sorted,
          o,
          location,
          found,
          object,
          same,
        ))

  prefixes-more :
      (done : List (String × Ulid)) (e : String × Ulid) (prefixes : List String)
      → All (IsPrefixOf done) prefixes
      → All (IsPrefixOf (done ++ e ∷ [])) prefixes
  prefixes-more done e prefixes =
      All-mono (IsPrefixOf done) (IsPrefixOf (done ++ e ∷ [])) prefixes
        (λ k (path, id, within, more).
          (path, id, In-append_left (path, id) done (e ∷ []) within, more))

  module _ (max_keys : ℕ) (done : List (String × Ulid)) (path : String) (id : Ulid)
      (page : Page) where
    -- The page after one more entry.
    abbrev pub Goes : Page → Type 0
    Goes next = (next.token ≡ page.token) × IsAccount max_keys (done ++ (path, id) ∷ []) next

    note_common :
        (p : String)
        → sort path ≡ common p
        → is_full max_keys page ≡ false
        → IsAccount max_keys done page
        → Goes (record page { common_prefixes = enter_into str_eq p page.common_prefixes })
    note_common p sorted room acc =
        let next = record page { common_prefixes = enter_into str_eq p page.common_prefixes } in
        (
          refl,
          record {
            shown =
                All-snoc (Shows next) (path, id) done
                  (All-mono (Shows page) (Shows next) done
                    (Shows-mono page next (λ k h. h) (λ q h. enter_into-keeps str_eq p q _ h))
                    acc.shown)
                  (rw sorted (In-enter_into str_eq str_eq-IsExact p page.common_prefixes));
            keys = keys-more done (path, id) page.keys acc.keys;
            prefixes =
                enter_into-All str_eq (IsPrefixOf (done ++ (path, id) ∷ [])) p page.common_prefixes
                  (prefixes-more done (path, id) page.common_prefixes acc.prefixes)
                  (path, id, In-append_right (path, id) done ((path, id) ∷ []) (inl refl), sorted);
            fits = ground (arith, room, acc.fits, length-enter_into str_eq p page.common_prefixes);
          },
        )

    module _ (o : ProxyObject) (location : Option ObjectLocation)
        (found : get_resource_cloned id false c ≡ ok (o, location)) where
      note_key :
          sort path ≡ candidate
          → is_full max_keys page ≡ false
          → is_object o.object_type ≡ true
          → IsAccount max_keys done page
          → Goes (record page {
            keys = enter_into same_contents (contents_of path o location) page.keys;
          })
      note_key sorted room object acc =
          let key = contents_of path o location in
          let next = record page { keys = enter_into same_contents key page.keys } in
          (
            refl,
            record {
              shown =
                  All-snoc (Shows next) (path, id) done
                    (All-mono (Shows page) (Shows next) done
                      (Shows-mono page next (λ k h. enter_into-keeps same_contents key k _ h)
                        (λ q h. h))
                      acc.shown)
                    (rw sorted (
                      o,
                      location,
                      found,
                      inr (In-enter_into same_contents same_contents-IsExact key page.keys),
                    ));
              keys =
                  enter_into-All same_contents (IsKeyOf (done ++ (path, id) ∷ [])) key page.keys
                    (keys-more done (path, id) page.keys acc.keys)
                    (
                      path,
                      id,
                      In-append_right (path, id) done ((path, id) ∷ []) (inl refl),
                      sorted,
                      o,
                      location,
                      found,
                      object,
                      refl,
                    );
              prefixes = prefixes-more done (path, id) page.common_prefixes acc.prefixes;
              fits = ground (arith, room, acc.fits, length-enter_into same_contents key page.keys);
            },
          )

    -- An entry that the page need not list.
    note_none : Shows page (path, id) → IsAccount max_keys done page → Goes page
    note_none shown acc = (
      refl,
      record {
        shown = All-snoc (Shows page) (path, id) done acc.shown shown;
        keys = keys-more done (path, id) page.keys acc.keys;
        prefixes = prefixes-more done (path, id) page.common_prefixes acc.prefixes;
        fits = acc.fits;
      },
    )

    pub note_entry-Goes :
        (s : Entry)
        → sort path ≡ s
        → is_full max_keys page ≡ false
        → IsAccount max_keys done page
        → IsOk Goes (note_entry c s path id page)
    unfolding note_entry
    note_entry-Goes outside sorted room acc = note_none (rw sorted tt) acc
    note_entry-Goes (common p) sorted room acc = note_common p sorted room acc
    note_entry-Goes candidate sorted room acc =
        >>=-IsOk Goes (or_s3 (no_such_key "No key found for path") (get_resource_cloned id false c))
          _
          (λ (o, location) given.
            let found : get_resource_cloned id false c ≡ ok (o, location) =
              or_s3-ok (no_such_key "No key found for path") _ (o, location) given in
            elim (Bool-cases (is_object o.object_type)) [
              | inl object ↦ rw object (note_key o location found sorted room object acc)
              | inr other ↦ rw other (note_none (rw sorted (o, location, found, inl other)) acc)
            ])
