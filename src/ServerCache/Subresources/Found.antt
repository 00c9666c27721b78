-- ===== src/ServerCache/Subresources/Found.antt =====
-- `get_subresources` finds what lies under the resource, and nothing else.
use aos_server.Base.{
  ℕ, zero, suc, ◌+◌, ◌≤◌, ◌≡◌, ◌≢◌, ◌↔◌, refl, sym, ap, subst, Option, none, some, ◌⊎◌, inl, inr,
  List, [], ◌∷◌, Option-cases, In, arith,
}
use aos_server.ServerCache.{Ulid, Cache}
use aos_server.ServerCache.Objects.{get_object}
use aos_server.ServerCache.Subresources.{add, note_children, descend, get_subresources}
use aos_server.ServerCache.Subresources.Notes.{
  children_of, LiesUnder, child, deeper, IsDistinct, note_children-IsDistinct,
  In-note_children_queue, In-note_children_found,
}

abbrev total : (Ulid → ℕ) → List Ulid → ℕ
total w [] = 0
total w (x ∷ xs) = w x + total w xs

total_cong :
    (v w : Ulid → ℕ) (xs : List Ulid) → ((x : Ulid) → In x xs → v x ≡ w x) → total v xs ≡ total w xs
total_cong v w [] h = refl
total_cong v w (x ∷ xs) h = omega (arith, h x (inl refl), total_cong v w xs (λ y m. h y (inr m)))

total-note_children :
    (w : Ulid → ℕ) (cs queue found : List Ulid)
    → total w (note_children cs queue found).0 ≡ total w cs + total w queue
unfolding note_children
total-note_children w [] queue found = omega arith
total-note_children w (x ∷ cs) queue found =
    omega (arith, total-note_children w cs (x ∷ queue) (add x found))

module _ (c : Cache) where
  -- Walks down from the id are shorter than `n` steps.
  abbrev pub IsShallow : ℕ → Ulid → Type 0
  IsShallow zero x = ⊥
  IsShallow (suc n) x = (y : Ulid) → In y (children_of c x) → IsShallow n y

  -- The walks down from the id, of less than `n` steps.
  unfoldable pub size : ℕ → Ulid → ℕ
  size zero x = 0
  size (suc n) x = suc (total (size n) (children_of c x))

  IsShallow-suc : (n : ℕ) (x : Ulid) → IsShallow n x → IsShallow (suc n) x
  IsShallow-suc zero x h = absurd h
  IsShallow-suc (suc n) x h = λ y m. IsShallow-suc n y (h y m)

  lies_deeper : (n : ℕ) (d a : Ulid) → LiesUnder c d a → IsShallow (suc n) a → IsShallow n d
  lies_deeper n d a (child m) h = h d m
  lies_deeper n d a (deeper {b = b} m u) h = lies_deeper n d b u (IsShallow-suc n b (h b m))

  pub not_under_itself : (n : ℕ) (id : Ulid) → IsShallow n id → LiesUnder c id id → ⊥
  not_under_itself zero id h u = absurd h
  not_under_itself (suc n) id h u = not_under_itself n id (lies_deeper n id id u h) u

  size_stable : (n : ℕ) (x : Ulid) → IsShallow n x → size (suc n) x ≡ size n x
  unfolding size
  size_stable zero x h = absurd h
  size_stable (suc n) x h =
      ap (λ k. suc k)
        (total_cong (size (suc n)) (size n) (children_of c x) (λ y m. size_stable n y (h y m)))

  size_children :
      (n : ℕ) (x : Ulid) → IsShallow n x → size n x ≡ suc (total (size n) (children_of c x))
  unfolding size
  size_children zero x h = absurd h
  size_children (suc n) x h =
      ap (λ k. suc k)
        (total_cong (size n) (size (suc n)) (children_of c x)
          (λ y m. sym (size_stable n y (h y m))))

  descend-step :
      (fuel : ℕ) (x : Ulid) (queue found : List Ulid)
      → descend c (suc fuel) (x ∷ queue) found ≡ (
          let notes = note_children (children_of c x) queue found in descend c fuel notes.0 notes.1)
  unfolding descend note_children
  descend-step fuel x queue found = elim (Option-cases (get_object x c)) [
    | inl e ↦ rw (e, descend)
    | inr (o, e) ↦ rw (e, descend)
  ]

  abbrev Under : List Ulid → Ulid → Type 0
  Under queue id = (x : Ulid) × In x queue × LiesUnder c id x

  abbrev Collected : List Ulid → List Ulid → Option (List Ulid) → Type 0
  Collected queue found none = Unit
  Collected queue found (some r) =
      IsDistinct r × ((id : Ulid) → In id r ↔ (In id found ⊎ Under queue id))

  -- What one round leaves to the rest is what the round was to find.
  round_same :
      (x : Ulid) (queue found : List Ulid) (r : Option (List Ulid))
      → (let notes = note_children (children_of c x) queue found in Collected notes.0 notes.1 r)
      → Collected (x ∷ queue) found r
  round_same x queue found none h = tt
  round_same x queue found (some r) (distinct, h) = (distinct, λ id. (to id, from id))
    where
      cs : List Ulid
      cs = children_of c x

      to : (id : Ulid) → In id r → In id found ⊎ Under (x ∷ queue) id
      to id m = elim ((h id).0 m) [
        | inl k ↦ elim ((In-note_children_found id cs queue found).0 k) [
          | inl own ↦ inr (x, inl refl, child own)
          | inr before ↦ inl before
        ]
        | inr (y, k, under) ↦ elim ((In-note_children_queue y cs queue found).0 k) [
          | inl own ↦ inr (x, inl refl, deeper own under)
          | inr later ↦ inr (y, inr later, under)
        ]
      ]

      from_head : (id : Ulid) → LiesUnder c id x → In id r
      from_head id (child m) = (h id).1 (inl ((In-note_children_found id cs queue found).1 (inl m)))
      from_head id (deeper {b = y} m under) =
          (h id).1 (inr (y, (In-note_children_queue y cs queue found).1 (inl m), under))

      from : (id : Ulid) → In id found ⊎ Under (x ∷ queue) id → In id r
      from id (inl before) =
          (h id).1 (inl ((In-note_children_found id cs queue found).1 (inr before)))
      from id (inr (y, inl e, under)) = from_head id (subst (LiesUnder c id) e under)
      from id (inr (y, inr m, under)) =
          (h id).1 (inr (y, (In-note_children_queue y cs queue found).1 (inr m), under))

  descend-Collected :
      (fuel : ℕ) (queue found : List Ulid)
      → IsDistinct found
      → Collected queue found (descend c fuel queue found)
  unfolding descend
  descend-Collected fuel [] found distinct =
      (distinct, λ id. ((λ m. inl m), (λ h. elim h [ inl m ↦ m | inr (x, m, u) ↦ absurd m ])))
  descend-Collected zero (x ∷ queue) found distinct = tt
  descend-Collected (suc fuel) (x ∷ queue) found distinct =
      let notes = note_children (children_of c x) queue found in
      round_same x queue found (descend c (suc fuel) (x ∷ queue) found) (
        rw (descend-step fuel x queue found) (
          descend-Collected fuel notes.0 notes.1
            (note_children-IsDistinct (children_of c x) queue found distinct)))

  descend_ends :
      (n fuel : ℕ) (queue found : List Ulid)
      → ((x : Ulid) → In x queue → IsShallow n x)
      → total (size n) queue ≤ fuel
      → descend c fuel queue found ≢ none
  unfolding descend
  descend_ends n fuel [] found shallow enough = λ e. cc
  descend_ends n zero (x ∷ queue) found shallow enough =
      absurd (omega (arith, size_children n x (shallow x (inl refl))))
  descend_ends n (suc fuel) (x ∷ queue) found shallow enough =
      let cs = children_of c x in
      let notes = note_children cs queue found in
      rw (descend-step fuel x queue found) (
        descend_ends n fuel notes.0 notes.1
          (λ y m. elim ((In-note_children_queue y cs queue found).0 m) [
            | inl own ↦ below n (shallow x (inl refl)) y own
            | inr later ↦ shallow y (inr later)
          ])
          (omega (
            arith,
            size_children n x (shallow x (inl refl)),
            total-note_children (size n) cs queue found,
          )))
    where
      below : (m : ℕ) → IsShallow m x → (y : Ulid) → In y (children_of c x) → IsShallow m y
      below zero h y own = absurd h
      below (suc m) h y own = IsShallow-suc m y (h y own)

-- Where walks down from the root are shorter than `n` steps, fuel for as many rounds as there are
-- walks is enough, and the result lists each id that lies under the root once, and no other.
pub get_subresources-LiesUnder :
    (c : Cache) (n fuel : ℕ) (root : Ulid)
    → IsShallow c n root
    → size c n root ≤ fuel
    → (r : List Ulid) × (get_subresources fuel c root ≡ some r)
      × IsDistinct r
      × ((id : Ulid) → In id r ↔ LiesUnder c id root)
unfolding get_subresources
get_subresources-LiesUnder c n fuel root shallow enough =
    elim (Option-cases (descend c fuel (root ∷ []) [])) [
      | inl e ↦ absurd (
          descend_ends c n fuel (root ∷ []) []
            (λ x m. elim m [ inl e ↦ rw e shallow | inr k ↦ absurd k ]) (omega arith) e)
      | inr (r, e) ↦
          let (distinct, h) =
            subst (Collected c (root ∷ []) []) e (descend-Collected c fuel (root ∷ []) [] tt) in
          (
            r,
            e,
            distinct,
            λ id. (
              (λ m. elim ((h id).0 m) [
                | inl k ↦ absurd k
                | inr (x, k, under) ↦ elim k [
                  | inl same ↦ subst (LiesUnder c id) same under
                  | inr none_left ↦ absurd none_left
                ]
              ]),
              (λ under. (h id).1 (inr (root, inl refl, under))),
            ),
          )
    ]
