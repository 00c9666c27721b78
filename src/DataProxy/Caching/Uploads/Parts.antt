-- ===== src/DataProxy/Caching/Uploads/Parts.antt =====
-- The order in which the parts of an upload are listed.
use mathlib.Core.List.{Perm}
use mathlib.Core.List.Perm
use native.Mathlib.Omega.{arith}
use aos_server.Base.{◌≤◌, String, inl, inr, List, [], ◌∷◌, Bool-cases, leb}
use aos_server.Base.Texts.{lookup}
use aos_server.DataProxy.Caching.{ProxyCache, UploadPart}
use aos_server.DataProxy.Caching.Uploads.{insert_part, sort_parts, get_parts, parts_of}

-- Part numbers never fall.
abbrev pub IsSorted : List UploadPart → Type 0
IsSorted [] = Unit
IsSorted (p ∷ []) = Unit
IsSorted (p ∷ q ∷ parts) = (p.part_number ≤ q.part_number) × IsSorted (q ∷ parts)

insert_part-IsSorted :
    (p : UploadPart) (parts : List UploadPart) → IsSorted parts → IsSorted (insert_part p parts)
unfolding insert_part
insert_part-IsSorted p [] h = tt
insert_part-IsSorted p (q ∷ []) h = ground arith
insert_part-IsSorted p (q ∷ r ∷ parts) h = ground (arith, insert_part-IsSorted p (r ∷ parts) h.1)

insert_part-perm :
    (p : UploadPart) (parts : List UploadPart) → Perm (insert_part p parts) (p ∷ parts)
unfolding insert_part
insert_part-perm p [] = Perm.refl _
insert_part-perm p (q ∷ parts) = elim (Bool-cases (leb p.part_number q.part_number)) [
  | inl e ↦ rw e (Perm.refl _)
  | inr e ↦ rw e (Perm.trans (Perm.cons q (insert_part-perm p parts)) (Perm.swap p q parts))
]

sort_parts-lem :
    (parts : List UploadPart) → IsSorted (sort_parts parts) × Perm (sort_parts parts) parts
unfolding sort_parts
sort_parts-lem [] = (tt, Perm.refl [])
sort_parts-lem (p ∷ parts) =
    let (sorted, perm) = sort_parts-lem parts in
    (
      insert_part-IsSorted p (sort_parts parts) sorted,
      Perm.trans (insert_part-perm p (sort_parts parts)) (Perm.cons p perm),
    )

-- The parts of an upload are listed by their numbers: all that are kept, each as often as it is kept.
get_parts-IsSorted :
    (upload_id : String) (c : ProxyCache)
    → IsSorted (get_parts upload_id c)
      × Perm (get_parts upload_id c) (parts_of (lookup upload_id c.multi_parts))
unfolding get_parts
get_parts-IsSorted upload_id c = sort_parts-lem (parts_of (lookup upload_id c.multi_parts))
