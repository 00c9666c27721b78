-- ===== src/ServerCache/Holders/Held.antt =====
-- What `get_resource_permissions` lists for a resource is what the users hold on it.
use mathlib.Core.List.{append-nil, append_assoc}
use aos_server.Base.{
  ℕ, ◌≤◌, ◌≡◌, refl, sym, ap, ◌∙◌, subst, Bool, true, false, Option, none, some, ◌⊎◌, inl, inr,
  List, [], ◌∷◌, ◌++◌, ◌==◌, ==→eq, ==_refl, Bool-cases, Option-cases, In, ok, if◌then◌else◌,
}
use aos_server.Base.Map
use aos_server.Enums.{into_inner}
use aos_server.Auth.Contexts.{Grants, get_permissions}
use aos_server.ServerCache.{Ulid, User, Cache}
use aos_server.ServerCache.Subresources.Notes.{LiesUnder, IsDistinct}
use aos_server.ServerCache.Subresources.Found.{
  IsShallow, size, not_under_itself, get_subresources-LiesUnder,
}
use aos_server.ServerCache.Holders.{
  UserPermission, ResourcePerms, permission_of, push, each_perm, each_user, each_resource,
  get_resource_permissions,
}

-- What is listed for a resource; nothing for one without an entry.
abbrev listing : Option (List UserPermission) → List UserPermission
listing none = []
listing (some ps) = ps

abbrev pub permissions_of : Ulid → ResourcePerms → List UserPermission
permissions_of j perms = listing (Map.get j perms)

-- What a user holds on a resource, and what all users hold, in their order.
abbrev pub matching : Ulid → User → Grants → List UserPermission
matching j u [] = []
matching j u ((id, perm) ∷ granted) =
    if id == j then permission_of u perm ∷ matching j u granted else matching j u granted

abbrev pub held : Ulid → List User → List UserPermission
held j [] = []
held j (u ∷ us) = matching j u (Map.map_values into_inner u.attributes.permissions) ++ held j us

abbrev when : Bool → List UserPermission → List UserPermission
when true ps = ps
when false ps = []

push-insert :
    (id : Ulid) (p : UserPermission) (perms : ResourcePerms)
    → push id p perms ≡ Map.insert id (permissions_of id perms ++ p ∷ []) perms
push-insert id p perms = elim (Option-cases (Map.get id perms)) [
  | inl e ↦ rw (e, push)
  | inr (ps, e) ↦ rw (e, push)
]

permissions_of-push :
    (j id : Ulid) (p : UserPermission) (perms : ResourcePerms)
    → permissions_of j (push id p perms) ≡ permissions_of j perms ++ when (id == j) (p ∷ [])
permissions_of-push j id p perms =
    rw (push-insert id p perms, Map.get-insert id j (permissions_of id perms ++ p ∷ []) perms)
      (elim (Bool-cases (id == j)) [
        | inl same ↦ rw (same, ==→eq id j same)
        | inr other ↦ rw (other, append-nil)
      ])

append_none : (ps : List UserPermission) (b : Bool) → ps ++ when b [] ≡ ps
append_none ps true = append-nil ps
append_none ps false = append-nil ps

when-append : (b : Bool) (xs ys : List UserPermission) → when b xs ++ when b ys ≡ when b (xs ++ ys)
when-append true xs ys = refl
when-append false xs ys = refl

permissions_of-each_perm :
    (j id : Ulid) (u : User) (granted : Grants) (perms : ResourcePerms)
    → permissions_of j (each_perm id u granted perms)
      ≡ permissions_of j perms ++ when (id == j) (matching id u granted)
unfolding each_perm
permissions_of-each_perm j id u [] perms = sym (append_none (permissions_of j perms) (id == j))
permissions_of-each_perm j id u ((k, perm) ∷ granted) perms = elim (Bool-cases (k == id)) [
  | inl hit ↦ rw hit (
      permissions_of-each_perm j id u granted (push id (permission_of u perm) perms)
      ∙ ap (λ ps. ps ++ when (id == j) (matching id u granted))
          (permissions_of-push j id (permission_of u perm) perms)
      ∙ append_assoc (permissions_of j perms) (when (id == j) (permission_of u perm ∷ [])) _
      ∙ ap (λ ps. permissions_of j perms ++ ps)
          (when-append (id == j) (permission_of u perm ∷ []) (matching id u granted)))
  | inr miss ↦ rw miss (permissions_of-each_perm j id u granted perms)
]

each_user-held :
    (id : Ulid) (us : List User) (perms : ResourcePerms)
    → (perms' : ResourcePerms) × (each_user id us perms ≡ ok perms')
      × ((j : Ulid)
          → permissions_of j perms' ≡ permissions_of j perms ++ when (id == j) (held id us))
unfolding each_user get_permissions
each_user-held id [] perms =
    (perms, refl, λ j. sym (append_none (permissions_of j perms) (id == j)))
each_user-held id (u ∷ us) perms =
    let granted = Map.map_values into_inner u.attributes.permissions in
    let (perms', e, h) = each_user-held id us (each_perm id u granted perms) in
    (
      perms',
      e,
      λ j.
          h j
          ∙ ap (λ ps. ps ++ when (id == j) (held id us))
              (permissions_of-each_perm j id u granted perms)
          ∙ append_assoc (permissions_of j perms) (when (id == j) (matching id u granted)) _
          ∙ ap (λ ps. permissions_of j perms ++ ps)
              (when-append (id == j) (matching id u granted) (held id us)),
    )

each_resource-held :
    (ids : List Ulid) (us : List User) (perms : ResourcePerms)
    → IsDistinct ids
    → (perms' : ResourcePerms) × (each_resource ids us perms ≡ ok perms')
      × ((j : Ulid) → In j ids → permissions_of j perms' ≡ permissions_of j perms ++ held j us)
      × ((j : Ulid) → (In j ids → ⊥) → permissions_of j perms' ≡ permissions_of j perms)
unfolding each_resource
each_resource-held [] us perms distinct = (perms, refl, (λ j m. absurd m), (λ j m. refl))
each_resource-held (id ∷ ids) us perms (fresh, distinct) =
    let (one, e, h) = each_user-held id us perms in
    let (perms', e', inside, outside) = each_resource-held ids us one distinct in
    (
      perms',
      rw e e',
      (λ j m. elim m [
        | inl same ↦
            let this = h j in
            rw (outside j (λ k. fresh (subst (λ i. In i ids) same k)), this, same, ==_refl id) refl
        | inr later ↦ elim (Bool-cases (id == j)) [
          | inl hit ↦ absurd (fresh (subst (λ i. In i ids) (sym (==→eq id j hit)) later))
          | inr miss ↦ rw (inside j later, h j, miss, append-nil) refl
        ]
      ]),
      (λ j not_in. elim (Bool-cases (id == j)) [
        | inl hit ↦ absurd (not_in (inl (sym (==→eq id j hit))))
        | inr miss ↦ rw (outside j (λ k. not_in (inr k)), h j, miss, append-nil) refl
      ]),
    )

-- For a resource with what lies under it, where walks down from it are shorter than `n` steps and
-- the fuel is enough for them, everything that the users hold on these resources is listed under
-- each, once, and nothing is listed under any other.
pub get_resource_permissions-held :
    (c : Cache) (n fuel : ℕ) (id : Ulid)
    → IsShallow c n id
    → size c n id ≤ fuel
    → (perms : ResourcePerms) × (get_resource_permissions fuel c id true ≡ some (ok perms))
      × ((j : Ulid)
          → (j ≡ id) ⊎ LiesUnder c j id
          → permissions_of j perms ≡ held j (Map.values c.user_cache))
      × ((j : Ulid) → ((j ≡ id) ⊎ LiesUnder c j id → ⊥) → permissions_of j perms ≡ [])
unfolding get_resource_permissions Map.get
get_resource_permissions-held c n fuel id shallow enough =
    let (r, found, distinct, under) = get_subresources-LiesUnder c n fuel id shallow enough in
    let fresh : In id r → ⊥ = λ m. not_under_itself c n id shallow ((under id).0 m) in
    let (perms, e, inside, outside) =
      each_resource-held (id ∷ r) (Map.values c.user_cache) [] (fresh, distinct) in
    (
      perms,
      rw (found, get_resource_permissions) (ap some e),
      (λ j at. inside j (elim at [ inl same ↦ inl same | inr below ↦ inr ((under j).1 below) ])),
      (λ j off.
          outside j
            (λ m. off (elim m [ inl same ↦ inl same | inr listed ↦ inr ((under j).0 listed) ]))),
    )
