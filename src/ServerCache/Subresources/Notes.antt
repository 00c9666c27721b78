-- ===== src/ServerCache/Subresources/Notes.antt =====
-- The queue and the set that one round of `get_subresources` leaves.
use aos_server.Base.{
  ◌≡◌, ◌↔◌, sym, true, Option, none, some, ◌⊎◌, inl, inr, List, [], ◌∷◌, Bool-cases, In, ◌==◌,
  ==→eq, ==_refl, any,
}
use aos_server.ServerCache.{Ulid, ObjectWithRelations, Cache}
use aos_server.ServerCache.Objects.{get_object, get_children}
use aos_server.ServerCache.Subresources.{add, note_children}

abbrev pub listed : Option ObjectWithRelations → List Ulid
listed none = []
listed (some o) = get_children o

-- The children of an id; none for one that is not cached.
abbrev pub children_of : Cache → Ulid → List Ulid
children_of c id = listed (get_object id c)

-- A walk down of at least one step along `BELONGS_TO`, read from its top.
pub data LiesUnder (c : Cache) (d : Ulid) : Ulid → Type 0 where
  child : {a : Ulid} → In d (children_of c a) → LiesUnder c d a
  deeper : {a b : Ulid} → In b (children_of c a) → LiesUnder c d b → LiesUnder c d a

-- No id is listed twice.
abbrev pub IsDistinct : List Ulid → Type 0
IsDistinct [] = Unit
IsDistinct (x ∷ xs) = (In x xs → ⊥) × IsDistinct xs

any_of_In : (id : Ulid) (xs : List Ulid) → In id xs → any (λ x. x == id) xs ≡ true
any_of_In id [] m = absurd m
any_of_In id (x ∷ xs) (inl e) = rw (e, ==_refl x)
any_of_In id (x ∷ xs) (inr m) = elim (Bool-cases (x == id)) [
  | inl same ↦ rw same
  | inr other ↦ rw other (any_of_In id xs m)
]

In_of_any : (id : Ulid) (xs : List Ulid) → any (λ x. x == id) xs ≡ true → In id xs
In_of_any id [] h = cc
In_of_any id (x ∷ xs) h = elim (Bool-cases (x == id)) [
  | inl same ↦ inl (sym (==→eq x id same))
  | inr other ↦ inr (In_of_any id xs (rw other at h))
]

In-add : (y id : Ulid) (found : List Ulid) → In y (add id found) ↔ ((y ≡ id) ⊎ In y found)
In-add y id found = elim (Bool-cases (any (λ x. x == id) found)) [
  | inl known ↦
      rw known ((λ m. inr m), (λ h. elim h [ inl e ↦ rw e (In_of_any id found known) | inr m ↦ m ]))
  | inr fresh ↦ rw fresh ((λ m. m), (λ m. m))
]

pub add-IsDistinct : (id : Ulid) (found : List Ulid) → IsDistinct found → IsDistinct (add id found)
add-IsDistinct id found h = elim (Bool-cases (any (λ x. x == id) found)) [
  | inl known ↦ rw known h
  | inr fresh ↦ rw fresh ((λ m. cc (any_of_In id found m)), h)
]

pub note_children-IsDistinct :
    (cs queue found : List Ulid) → IsDistinct found → IsDistinct (note_children cs queue found).1
unfolding note_children
note_children-IsDistinct [] queue found h = h
note_children-IsDistinct (x ∷ cs) queue found h =
    note_children-IsDistinct cs (x ∷ queue) (add x found) (add-IsDistinct x found h)

pub In-note_children_queue :
    (y : Ulid) (cs queue found : List Ulid)
    → In y (note_children cs queue found).0 ↔ (In y cs ⊎ In y queue)
unfolding note_children
In-note_children_queue y [] queue found =
    ((λ m. inr m), (λ h. elim h [ inl m ↦ absurd m | inr m ↦ m ]))
In-note_children_queue y (x ∷ cs) queue found =
    let (to, from) = In-note_children_queue y cs (x ∷ queue) (add x found) in
    (
      (λ m. elim (to m) [
        | inl k ↦ inl (inr k)
        | inr k ↦ elim k [ inl e ↦ inl (inl e) | inr q ↦ inr q ]
      ]),
      (λ h. elim h [
        | inl k ↦ elim k [ inl e ↦ from (inr (inl e)) | inr m ↦ from (inl m) ]
        | inr q ↦ from (inr (inr q))
      ]),
    )

pub In-note_children_found :
    (y : Ulid) (cs queue found : List Ulid)
    → In y (note_children cs queue found).1 ↔ (In y cs ⊎ In y found)
unfolding note_children
In-note_children_found y [] queue found =
    ((λ m. inr m), (λ h. elim h [ inl m ↦ absurd m | inr m ↦ m ]))
In-note_children_found y (x ∷ cs) queue found =
    let (to, from) = In-note_children_found y cs (x ∷ queue) (add x found) in
    let (add_to, add_from) = In-add y x found in
    (
      (λ m. elim (to m) [
        | inl k ↦ inl (inr k)
        | inr k ↦ elim (add_to k) [ inl e ↦ inl (inl e) | inr q ↦ inr q ]
      ]),
      (λ h. elim h [
        | inl k ↦ elim k [ inl e ↦ from (inr (add_from (inl e))) | inr m ↦ from (inl m) ]
        | inr q ↦ from (inr (add_from (inr q)))
      ]),
    )
