-- ===== src/ServerCache/Traverse/Verdict.antt =====
-- What `traverse_down` answers: a refusal means that a request is above the level of the and
-- for one request the answer is known in advance.
use aos_server.Base.{
  ℕ, ◌≤◌, ◌≡◌, ◌≢◌, refl, subst, Option, none, some, inl, inr, [], ◌∷◌, true, false, Bool-cases,
  arith, ◌==◌, if◌then◌else◌, leb, ==→eq,
}
use aos_server.Base.Map
use aos_server.Enums.{DbPermissionLevel, level, perm_gt}
use aos_server.ServerCache.{Ulid, Cache}
use aos_server.ServerCache.Traverse.{
  Requests, Traversal, covered, refused, exhausted, traverse_down,
}
use aos_server.ServerCache.Traverse.Reach.{IsUnder}
use aos_server.ServerCache.Traverse.Sound.{traverse_down-TraversalOk, TraversalOk, IsGrantedFrom}
use aos_server.ServerCache.Traverse.Complete.{Shrinks, traverse_down-exhausted}
use aos_server.ServerCache.Traverse.Induction.{TraversalHas, traverse_down-TraversalHas}

-- No request is above `perm`.
abbrev pub Fits : DbPermissionLevel → Requests → Type 0
Fits perm ctxs =
    (id : Ulid) (needed : DbPermissionLevel)
    → Map.get id ctxs ≡ some needed
    → level needed ≤ level perm

Fits-remove :
    (perm : DbPermissionLevel) (x : Ulid) (ctxs : Requests)
    → Fits perm ctxs
    → Fits perm (Map.remove x ctxs)
Fits-remove perm x ctxs h id needed e = elim (Bool-cases (x == id)) [
  | inl same ↦ cc (rw (Map.get-remove x id ctxs, same) at e)
  | inr other ↦ h id needed (rw (Map.get-remove x id ctxs, other) at e)
]

-- A walk refuses only if some request is above its level.
traverse_down-ne-refused :
    (fuel : ℕ) (c : Cache) (root : Ulid) (perm : DbPermissionLevel) (ctxs : Requests)
    → Fits perm ctxs
    → traverse_down fuel c root perm ctxs ≢ some refused
traverse_down-ne-refused fuel c root perm ctxs h e =
    let fails : (x : Ulid) (b : Requests) (got : DbPermissionLevel)
        → Fits perm b
        → Map.get x b ≡ some got
        → perm_gt got perm ≡ true
        → ⊥ =
      λ x b got f k above. ground (arith, f x got k) in
    let removes : (x : Ulid) (b : Requests)
        → Fits perm b
        → Map.is_empty (Map.remove x b) ≡ false
        → Fits perm (Map.remove x b) =
      λ x b f more. Fits-remove perm x b f in
    subst (TraversalHas perm (Fits perm) ⊥ fails removes) e
      (traverse_down-TraversalHas perm (Fits perm) ⊥ fails removes c fuel root ctxs h)

-- A walk that starts with requests never leaves an empty map: it returns `Ok(true)` instead.
pub traverse_down-exhausted_some :
    (fuel : ℕ) (c : Cache) (root : Ulid) (perm : DbPermissionLevel) (ctxs : Requests) {r : Requests}
    → Map.is_empty ctxs ≡ false
    → traverse_down fuel c root perm ctxs ≡ some (exhausted r)
    → Map.is_empty r ≡ false
traverse_down-exhausted_some fuel c root perm ctxs h e =
    let P : Requests → Type 0 = λ b. Map.is_empty b ≡ false in
    let fails : (x : Ulid) (b : Requests) (got : DbPermissionLevel)
        → P b
        → Map.get x b ≡ some got
        → perm_gt got perm ≡ true
        → Unit {0} =
      λ x b got f k above. tt in
    let removes : (x : Ulid) (b : Requests)
        → P b
        → Map.is_empty (Map.remove x b) ≡ false
        → P (Map.remove x b) =
      λ x b f more. more in
    subst (TraversalHas perm P (Unit {0}) fails removes) e
      (traverse_down-TraversalHas perm P (Unit {0}) fails removes c fuel root ctxs h)

abbrev pub single : Ulid → DbPermissionLevel → Requests
single id needed = (id, needed) ∷ []

-- A walk from `root` that ends answers a single request for a resource under `root` at once: it is
-- covered if the walk's level covers the level needed, and refused if it does not.
pub traverse_down-single :
    (fuel : ℕ) (c : Cache) (root id : Ulid) (perm needed : DbPermissionLevel)
    → IsUnder c id root
    → traverse_down fuel c root perm (single id needed) ≢ none
    → traverse_down fuel c root perm (single id needed)
      ≡ some (if leb (level needed) (level perm) then covered else refused)
traverse_down-single fuel c root id perm needed under ends =
    decide (traverse_down fuel c root perm (single id needed)) refl
  where
    asked : Map.get id (single id needed) ≡ some needed
    asked = ground (arith, Map.get_one id id needed)

    only : leb (level needed) (level perm) ≡ true → Fits perm (single id needed)
    only fits j other k = ground (arith, Map.get_one id j needed)

    nothing :
        (r : Requests)
        → Shrinks (single id needed) r
        → Map.get id r ≡ none
        → (j : Ulid) → Map.get j r ≡ none
    nothing r shrinks gone j = elim (Bool-cases (id == j)) [
      | inl same ↦ rw (← ==→eq id j same) gone
      | inr other ↦ shrinks j (ground (arith, Map.get_one id j needed))
    ]

    decide :
        (t : Option Traversal)
        → traverse_down fuel c root perm (single id needed) ≡ t
        → t ≡ some (if leb (level needed) (level perm) then covered else refused)
    decide none e = absurd (ends e)
    decide (some covered) e =
        let good =
          subst (TraversalOk (IsGrantedFrom c root perm) (single id needed)) e
            (traverse_down-TraversalOk c root perm fuel (single id needed)) in
        ground (arith, (good id needed asked).1)
    decide (some refused) e = elim (Bool-cases (leb (level needed) (level perm))) [
      | inl fits ↦
          absurd (traverse_down-ne-refused fuel c root perm (single id needed) (only fits) e)
      | inr above ↦ rw above
    ]
    decide (some (exhausted r)) e =
        let (shrinks, gone) = traverse_down-exhausted c perm fuel root (single id needed) e in
        cc (
          Map.is_empty_of_get r (nothing r shrinks (gone id under)),
          traverse_down-exhausted_some fuel c root perm (single id needed) refl e,
        )
