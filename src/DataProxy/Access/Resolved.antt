-- ===== src/DataProxy/Access/Resolved.antt =====
-- What the states of a path's parts are, once a path is accepted.
use aos_server.Base.{
  arith, ℕ, suc, String, Bool, true, false, ◌≡◌, refl, ◌⊎◌, inl, inr, Option, none, some, List, [],
  ◌∷◌, length, Bool-cases, Result, ok, err, Error, IsOk, IsOk-at, >>=-IsOk, >>-IsOk,
}
use aos_server.DataProxy.Objects.{S3Error, internal_error, ProxyObject}
use aos_server.DataProxy.States.{
  ResourceState, found, missing, absent, ResourceStates, no_states, set_missing, set_found,
  validate, get_project, as_found, is_missing, acceptable, Generated, Planned, to_new_or_existing,
}
use aos_server.DataProxy.States.Plans.{AreTyped, IsPlan, to_new_or_existing-IsPlan}
use aos_server.DataProxy.Caching.{ProxyCache}
use aos_server.DataProxy.Caching.Paths.{get_full_resource_by_path}
use aos_server.DataProxy.Access.{
  or_s3, note_state, note_states, has_bucket, prefix_into_resource_states,
}

no_states-AreTyped : AreTyped no_states
no_states-AreTyped = record { project = tt; collection = tt; dataset = tt; object = tt }

set_missing-AreTyped :
    (idx len : ℕ) (name : String) (s : ResourceStates)
    → AreTyped s
    → IsOk AreTyped (set_missing idx len name s)
unfolding set_missing
set_missing-AreTyped idx len name s typed = ground arith

set_found-AreTyped : (o : ProxyObject) (s : ResourceStates) → AreTyped s → AreTyped (set_found o s)
unfolding set_found
set_found-AreTyped o s typed = ground arith

or_s3-IsOk {ℓ κ} :
    {A : Type ℓ} (P : A → Type κ) (e : S3Error) (r : Result Error A) → IsOk P r → IsOk P (or_s3 e r)
or_s3-IsOk P e (ok a) h = h
or_s3-IsOk P e (err failure) h = tt

note_state-AreTyped :
    (idx len : ℕ) (name : String) (o : Option ProxyObject) (s : ResourceStates)
    → AreTyped s
    → IsOk AreTyped (note_state idx len name o s)
note_state-AreTyped idx len name none s typed =
    or_s3-IsOk AreTyped (internal_error "Internal Error") (set_missing idx len name s)
      (set_missing-AreTyped idx len name s typed)
note_state-AreTyped idx len name (some o) s typed = set_found-AreTyped o s typed

note_states-AreTyped :
    (c : ProxyCache) (idx len : ℕ) (parts : List (String × String)) (s : ResourceStates)
    → AreTyped s
    → IsOk AreTyped (note_states c idx len parts s)
unfolding note_states
note_states-AreTyped c idx len [] s typed = typed
note_states-AreTyped c idx len ((prefix, name) ∷ parts) s typed =
    >>=-IsOk AreTyped (note_state idx len name (get_full_resource_by_path prefix c) s) _ (λ s' e.
      note_states-AreTyped c (suc idx) len parts s' (
        IsOk-at AreTyped _ s'
          (note_state-AreTyped idx len name (get_full_resource_by_path prefix c) s typed) e))

-- Below something missing nothing is found.
abbrev pub IsOrdered : ResourceStates → Type 0
IsOrdered s =
    ((is_missing s.collection ≡ false)
      ⊎ ((is_missing s.dataset ≡ true) × (is_missing s.object ≡ true)))
    × ((is_missing s.dataset ≡ false) ⊎ (is_missing s.object ≡ true))

acceptable-ordered :
    (p c d o : Bool)
    → acceptable p c d o ≡ true
    → ((c ≡ false) ⊎ ((d ≡ true) × (o ≡ true))) × ((d ≡ false) ⊎ (o ≡ true))
acceptable-ordered false true true true e = (inr (refl, refl), inr refl)
acceptable-ordered false false true true e = (inl refl, inr refl)
acceptable-ordered false false false o e = (inl refl, inl refl)
acceptable-ordered false true true false e = cc
acceptable-ordered false true false o e = cc
acceptable-ordered false false true false e = cc
acceptable-ordered true c d o e = cc

validate-IsOrdered :
    (s : ResourceStates) (e : S3Error) → or_s3 e (validate false s) ≡ ok tt → IsOrdered s
unfolding validate
validate-IsOrdered s e accepted =
    elim (Bool-cases (
      acceptable (is_missing s.project) (is_missing s.collection) (is_missing s.dataset)
        (is_missing s.object))) [
          | inl fits ↦
              acceptable-ordered (is_missing s.project) (is_missing s.collection)
                (is_missing s.dataset) (is_missing s.object) fits
          | inr unfit ↦ cc (rw unfit at accepted)
        ]

has_bucket-found :
    (s : ResourceStates)
    → has_bucket false s ≡ ok tt
    → (project : ProxyObject) × (s.project ≡ found project)
unfolding get_project as_found
has_bucket-found s e = by_state s.project refl
  where
    by_state :
        (state : ResourceState)
        → s.project ≡ state
        → (project : ProxyObject) × (s.project ≡ found project)
    by_state (found project) same = (project, same)
    by_state (missing name variant) same = cc (rw same at e)
    by_state absent same = cc (rw same at e)

-- If the states of a path's parts are accepted and no project may be created: the project was found,
-- nothing is found below something missing, and what is missing can be created, each new resource
-- under the nearest one above it.
pub prefix_into_resource_states-IsPlan :
    (prefixes : List (String × String)) (c : ProxyCache) (ids : Generated) (now : ℕ)
    → IsOk
        (λ s.
          (project : ProxyObject) × (p : Planned) × (s.project ≡ found project)
          × (to_new_or_existing ids now s ≡ ok p)
          × IsPlan s project p
          × IsOrdered s)
        (prefix_into_resource_states prefixes false c)
unfolding prefix_into_resource_states
prefix_into_resource_states-IsPlan prefixes c ids now =
    >>=-IsOk _ (note_states c 0 (length prefixes) prefixes no_states) _ (λ s e.
      let typed : AreTyped s =
        IsOk-at AreTyped _ s
          (note_states-AreTyped c 0 (length prefixes) prefixes no_states no_states-AreTyped) e in
      >>-IsOk _ (has_bucket false s) _ (λ e2.
        >>-IsOk _ (or_s3 (internal_error "Internal Error") (validate false s)) _ (λ e3.
          let (project, there) = has_bucket-found s e2 in
          let (p, made, plan) = to_new_or_existing-IsPlan ids now s project typed there in
          (project, p, there, made, plan, validate-IsOrdered s _ e3))))
