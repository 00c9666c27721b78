-- ===== src/DataProxy/Listing/Resumed.antt =====
-- A listing of a bucket that starts where another stopped (`get_path_range` of the data proxy).
use Prim.Native.String.{◌++◌ as ◌<>◌}
use text.Mathlib.Text.{◌==◌ as str_eq}
use text.Mathlib.TextEquality.{eq_iff}
use aos_server.Base.{
  String, Bool, true, false, ◌&&◌, ◌≡◌, refl, sym, ap, subst, ◌∙◌, inl, inr, List, [], ◌∷◌, ◌++◌,
  All, keep, map, Bool-cases, arith,
}
use aos_server.Base.Texts.Parts.{strip_prefix, text_leb}
use aos_server.Base.Texts.Order.{
  text_leb_refl, text_leb_total, text_leb_trans, text_leb_antisym, strip_prefix-between,
}
use aos_server.ServerCache.{Ulid}
use aos_server.DataProxy.Caching.{ProxyCache}
use aos_server.DataProxy.Listing.{insert_path, sort_paths, text_or_empty, get_path_range}
use aos_server.DataProxy.Listing.Sets.{All-mono}

abbrev PathEntry : Type 0
PathEntry = String × Ulid

-- No path occurs twice.
abbrev pub AreDistinct : List (String × Ulid) → Type 0
AreDistinct [] = Unit
AreDistinct (e ∷ rest) = All (λ (f : String × Ulid). str_eq e.0 f.0 ≡ false) rest × AreDistinct rest

-- Each path is below those behind it.
abbrev IsAscending : List PathEntry → Type 0
IsAscending [] = Unit
IsAscending (e ∷ rest) = All (λ (f : PathEntry). text_leb f.0 e.0 ≡ false) rest × IsAscending rest

insert_path-All :
    (P : PathEntry → Type 0) (e : PathEntry) (es : List PathEntry)
    → P e
    → All P es
    → All P (insert_path e es)
unfolding insert_path
insert_path-All P e [] p h = (p, tt)
insert_path-All P e (f ∷ rest) p (q, h) = elim (Bool-cases (text_leb e.0 f.0)) [
  | inl first ↦ rw first (p, (q, h))
  | inr later ↦ rw later (q, insert_path-All P e rest p h)
]

sort_paths-All : (P : PathEntry → Type 0) (es : List PathEntry) → All P es → All P (sort_paths es)
unfolding sort_paths
sort_paths-All P [] h = tt
sort_paths-All P (e ∷ rest) (p, h) =
    insert_path-All P e (sort_paths rest) p (sort_paths-All P rest h)

-- Of different texts, the one that is not above the other is below it.
below : (s t : String) → str_eq s t ≡ false → text_leb s t ≡ true → text_leb t s ≡ false
below s t other under = elim (Bool-cases (text_leb t s)) [
  | inl both ↦ cc ((eq_iff s t).1 (text_leb_antisym s t under both), other)
  | inr strict ↦ strict
]

insert_path-IsAscending :
    (e : PathEntry) (es : List PathEntry)
    → All (λ (f : PathEntry). str_eq e.0 f.0 ≡ false) es
    → IsAscending es
    → IsAscending (insert_path e es)
unfolding insert_path
insert_path-IsAscending e [] other asc = (tt, tt)
insert_path-IsAscending e (f ∷ rest) (other, others) (above, asc) =
    elim (Bool-cases (text_leb e.0 f.0)) [
      | inl first ↦ rw first (
        (
          below e.0 f.0 other first,
          All-mono (λ (g : PathEntry). text_leb g.0 f.0 ≡ false)
              (λ (g : PathEntry). text_leb g.0 e.0 ≡ false) rest
              (λ g over. elim (Bool-cases (text_leb g.0 e.0)) [
                | inl under ↦ cc (text_leb_trans g.0 e.0 f.0 under first, over)
                | inr strict ↦ strict
              ])
              above,
        ),
        (above, asc),
      )
      | inr later ↦ rw later (
        insert_path-All (λ (g : PathEntry). text_leb g.0 f.0 ≡ false) e rest later above,
        insert_path-IsAscending e rest others asc,
      )
    ]

sort_paths-IsAscending : (es : List PathEntry) → AreDistinct es → IsAscending (sort_paths es)
unfolding sort_paths
sort_paths-IsAscending [] h = tt
sort_paths-IsAscending (e ∷ rest) (other, h) =
    insert_path-IsAscending e (sort_paths rest)
      (sort_paths-All (λ (f : PathEntry). str_eq e.0 f.0 ≡ false) rest other)
      (sort_paths-IsAscending rest h)

keep-same :
    (p q : PathEntry → Bool) (es : List PathEntry) → All (λ e. p e ≡ q e) es → keep p es ≡ keep q es
keep-same p q [] h = refl
keep-same p q (e ∷ rest) (same, h) = rw (same, keep-same p q rest h) refl

All-keep :
    (P : PathEntry → Type 0) (p : PathEntry → Bool) (es : List PathEntry)
    → All P es
    → All P (keep p es)
All-keep P p [] h = tt
All-keep P p (e ∷ rest) (x, h) = elim (Bool-cases (p e)) [
  | inl kept ↦ rw kept (x, All-keep P p rest h)
  | inr dropped ↦ rw dropped (All-keep P p rest h)
]

All-middle :
    (P : PathEntry → Type 0) (xs : List PathEntry) (k : PathEntry) (ys : List PathEntry)
    → All P (xs ++ k ∷ ys)
    → P k
All-middle P [] k ys (p, h) = p
All-middle P (x ∷ xs) k ys (p, h) = All-middle P xs k ys h

keep-passes : (p : PathEntry → Bool) (es : List PathEntry) → All (λ e. p e ≡ true) (keep p es)
keep-passes p [] = tt
keep-passes p (e ∷ rest) = elim (Bool-cases (p e)) [
  | inl kept ↦ rw kept (kept, keep-passes p rest)
  | inr dropped ↦ rw dropped (keep-passes p rest)
]

abbrev between : String → String → PathEntry → Bool
between low high e = text_leb low e.0 && text_leb e.0 high

between-low :
    (low high : String) (e : PathEntry) → between low high e ≡ true → text_leb low e.0 ≡ true
between-low low high e h = ground arith

between-high :
    (low high : String) (e : PathEntry) → between low high e ≡ true → text_leb e.0 high ≡ true
between-high low high e h = ground arith

module _ (low high : String) (k : PathEntry) (passes : between low high k ≡ true) where
  -- Behind `k` the lower bound makes no difference.
  same_behind : (e : PathEntry) → text_leb e.0 k.0 ≡ false → between low high e ≡ between k.0 high e
  same_behind e strict =
      let over : text_leb k.0 e.0 ≡ true = text_leb_total e.0 k.0 strict in
      rw (over, text_leb_trans low k.0 e.0 (between-low low high k passes) over) refl

  -- What is dropped in front of `k` is dropped from `k` on too.
  dropped_before : (e : PathEntry) → between low high e ≡ false → between k.0 high e ≡ false
  dropped_before e out = elim (Bool-cases (text_leb k.0 e.0)) [
    | inl over ↦
        rw over (rw (text_leb_trans low k.0 e.0 (between-low low high k passes) over) at out)
    | inr under ↦ rw under refl
  ]

  first_kept :
      (rest back : List PathEntry)
      → All (λ (f : PathEntry). text_leb f.0 k.0 ≡ false) rest
      → keep (between low high) rest ≡ back
      → keep (between k.0 high) (k ∷ rest) ≡ k ∷ back
  first_kept rest back above split =
      rw (text_leb_refl k.0, between-high low high k passes)
        (ap (k ∷◌) (
          sym (
            keep-same (between low high) (between k.0 high) rest (
              All-mono (λ (f : PathEntry). text_leb f.0 k.0 ≡ false)
                (λ f. between low high f ≡ between k.0 high f) rest same_behind above))
          ∙ split))

  -- From `k` on, the same entries are kept.
  keep-from :
      (es front back : List PathEntry)
      → IsAscending es
      → keep (between low high) es ≡ front ++ k ∷ back
      → keep (between k.0 high) es ≡ k ∷ back
  keep-from [] [] back asc split = cc
  keep-from [] (f ∷ front) back asc split = cc
  keep-from (e ∷ rest) [] back (above, asc) split = elim (Bool-cases (between low high e)) [
    | inr out ↦ rw (dropped_before e out) (keep-from rest [] back asc (rw out at split))
    | inl kept ↦
        let split' : (e ∷ keep (between low high) rest) ≡ k ∷ back = rw kept at split in
        let same : e ≡ k = cc in
        let behind : keep (between low high) rest ≡ back = cc in
        subst (λ x. keep (between k.0 high) (x ∷ rest) ≡ k ∷ back) (sym same)
          (first_kept rest back
            (subst (λ x. All (λ (f : PathEntry). text_leb f.0 x.0 ≡ false) rest) same above) behind)
  ]
  keep-from (e ∷ rest) (f ∷ front) back (above, asc) split =
      elim (Bool-cases (between low high e)) [
        | inr out ↦
            rw (dropped_before e out) (keep-from rest (f ∷ front) back asc (rw out at split))
        | inl kept ↦
            let split' : (e ∷ keep (between low high) rest) ≡ f ∷ (front ++ k ∷ back) =
              rw kept at split in
            let behind : keep (between low high) rest ≡ front ++ k ∷ back = cc in
            let under : text_leb k.0 e.0 ≡ false =
              All-middle (λ (f : PathEntry). text_leb f.0 e.0 ≡ false) front k back
                (subst (All (λ (f : PathEntry). text_leb f.0 e.0 ≡ false)) behind (
                  All-keep (λ (f : PathEntry). text_leb f.0 e.0 ≡ false) (between low high) rest
                    above)) in
            rw under (keep-from rest front back asc behind)
      ]

-- Where a mapped list is split.
map-split :
    {A B : Type 0} (f : A → B) (xs : List A) (front : List B) (b : B) (back : List B)
    → map f xs ≡ front ++ b ∷ back
    → (fs : List A) × (x : A) × (bs : List A) × (xs ≡ fs ++ x ∷ bs) × (f x ≡ b) × (map f bs ≡ back)
map-split f [] [] b back e = cc
map-split f [] (c ∷ front) b back e = cc
map-split f (x ∷ xs) [] b back e = ([], x, xs, refl, cc, cc)
map-split f (x ∷ xs) (c ∷ front) b back e =
    let (fs, y, bs, split, here, behind) = map-split f xs front b back cc in
    (x ∷ fs, y, bs, rw split refl, here, behind)

-- If no path occurs twice, a listing that starts at the first path of what another listing of the
-- bucket left, as its token says, sees exactly what was left.
pub get_path_range-resumes :
    (bucket_name start_at path : String) (id : Ulid) (front back : List (String × Ulid))
    (c : ProxyCache)
    → AreDistinct c.paths
    → get_path_range bucket_name start_at c ≡ front ++ (path, id) ∷ back
    → get_path_range bucket_name path c ≡ (path, id) ∷ back
unfolding get_path_range
get_path_range-resumes bucket_name start_at path id front back c distinct split =
    let prefix = bucket_name <> "/" in
    let low = prefix <> start_at in
    let high = prefix <> "~" in
    let show : PathEntry → PathEntry = λ e. (text_or_empty (strip_prefix prefix e.0), e.1) in
    let sorted = sort_paths c.paths in
    let (fs, k, bs, kept, here, behind) =
      map-split show (keep (between low high) sorted) front (path, id) back split in
    let passes : between low high k ≡ true =
      All-middle (λ e. between low high e ≡ true) fs k bs
        (subst (All (λ e. between low high e ≡ true)) kept
          (keep-passes (between low high) sorted)) in
    let (rest, stripped, whole) =
      strip_prefix-between prefix start_at "~" k.0 (between-low low high k passes)
        (between-high low high k passes) in
    let named : rest ≡ path = ap (text_or_empty) (sym stripped) ∙ ap (λ e. e.0) here in
    let from : (prefix <> path) ≡ k.0 = ap (λ s. prefix <> s) (sym named) ∙ sym whole in
    subst (λ s. map show (keep (between s high) sorted) ≡ (path, id) ∷ back) (sym from)
      (rw (keep-from low high k passes sorted fs bs (sort_paths-IsAscending c.paths distinct) kept)
        (cc (here, behind)))
