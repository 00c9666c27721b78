-- ===== src/ServerCache/Relations/Cycle.antt =====
-- The searches for projects from an object that counts as its own parent.
use text.Mathlib.Text.{◌==◌ as str_eq}
use aos_server.Base.{
  ℕ, zero, suc, ◌≡◌, refl, subst, true, false, Option, none, some, inl, inr, List, [], ◌∷◌, ◌++◌,
  Bool-cases, Option-cases, In, Result, ok, err, Error,
}
use aos_server.ServerCache.{Ulid, InternalRelation, ObjectWithRelations, Cache}
use aos_server.ServerCache.Objects.{belongs_to, get_object, get_parents}
use aos_server.ServerCache.Relations.{update_relations}
use aos_server.ServerCache.Relations.Ends.{Holds, IsBelow, update_relations-own_parent}
use aos_server.ServerCache.Upstream.{
  Node, Hierarchies, Outcome, node, is_project, and_then, each_parent, upstream_dfs_recursive,
  Search, push_parents, expand, resume, search_up, start, upstream_dfs_iterative,
}
use aos_server.ServerCache.Upstream.Recursive.{recursive-parents}

-- No list of hierarchies is returned.
abbrev pub Fails : Outcome → Type 0
Fails (some (ok hierarchies)) = ⊥
Fails _ = Unit

and_then-Fails : (o : Outcome) (next : Hierarchies → Outcome) → Fails o → Fails (and_then o next)
and_then-Fails none next h = tt
and_then-Fails (some (err e)) next h = tt
and_then-Fails (some (ok finished)) next h = absurd h

and_then-Fails_next :
    (o : Outcome) (next : Hierarchies → Outcome)
    → ((hs : Hierarchies) → Fails (next hs))
    → Fails (and_then o next)
and_then-Fails_next none next h = tt
and_then-Fails_next (some (err e)) next h = tt
and_then-Fails_next (some (ok finished)) next h = h finished

each_parent-Fails :
    (visit : Ulid → List Node → Hierarchies → Outcome) (id : Ulid) (ps : List Ulid)
    (path : List Node) (finished : Hierarchies)
    → ((hs : Hierarchies) → Fails (visit id path hs))
    → In id ps
    → Fails (each_parent visit ps path finished)
unfolding each_parent
each_parent-Fails visit id [] path finished h m = absurd m
each_parent-Fails visit id (p ∷ ps) path finished h (inl e) =
    and_then-Fails (visit p path finished) (λ hs. each_parent visit ps path hs)
      (subst (λ q. Fails (visit q path finished)) e (h finished))
each_parent-Fails visit id (p ∷ ps) path finished h (inr m) =
    and_then-Fails_next (visit p path finished) (λ hs. each_parent visit ps path hs)
      (λ hs. each_parent-Fails visit id ps path hs h m)

module _ (c : Cache) (id : Ulid) (o : ObjectWithRelations) (e : get_object id c ≡ some o)
    (below : IsBelow id o) where
  recursive-Fails :
      (fuel : ℕ) (path : List Node) (finished : Hierarchies)
      → Fails (upstream_dfs_recursive c fuel id path finished)
  unfolding upstream_dfs_recursive
  recursive-Fails zero path finished = tt
  recursive-Fails (suc fuel) path finished =
      rw (recursive-parents c fuel id path finished o e below.0) (
        each_parent-Fails (upstream_dfs_recursive c fuel) id (get_parents o) (path ++ node o ∷ [])
          finished (λ hs. recursive-Fails fuel (path ++ node o ∷ []) hs) below.1)

  abbrev Pushed : Option (List ObjectWithRelations) → Type 0
  Pushed none = Unit
  Pushed (some queue) = In o queue

  push_parents-keeps :
      (ps : List Ulid) (queue : List ObjectWithRelations)
      → In o queue
      → Pushed (push_parents c ps queue)
  unfolding push_parents
  push_parents-keeps [] queue m = m
  push_parents-keeps (p ∷ ps) queue m = elim (Option-cases (get_object p c)) [
    | inl absent ↦ rw (absent, push_parents) tt
    | inr (parent, found) ↦
        rw (found, push_parents) (push_parents-keeps ps (parent ∷ queue) (inr m))
  ]

  push_parents-adds :
      (ps : List Ulid) (queue : List ObjectWithRelations)
      → In id ps
      → Pushed (push_parents c ps queue)
  unfolding push_parents
  push_parents-adds [] queue m = absurd m
  push_parents-adds (p ∷ ps) queue (inl same) =
      let found : get_object p c ≡ some o = subst (λ q. get_object q c ≡ some o) same e in
      rw (found, push_parents) (push_parents-keeps ps (o ∷ queue) (inl refl))
  push_parents-adds (p ∷ ps) queue (inr m) = elim (Option-cases (get_object p c)) [
    | inl absent ↦ rw (absent, push_parents) tt
    | inr (parent, found) ↦ rw (found, push_parents) (push_parents-adds ps (parent ∷ queue) m)
  ]

  abbrev Queued : Result Error (List ObjectWithRelations × Search) → Type 0
  Queued (err m) = Unit
  Queued (ok (queue, s)) = In o queue

  expand-Queued :
      (front : ObjectWithRelations) (queue : List ObjectWithRelations) (s : Search)
      → In o (front ∷ queue)
      → Queued (expand c front queue s)
  unfolding expand
  expand-Queued front queue s m = elim (Bool-cases (is_project front)) [
    | inl top ↦ rw top (elim m [
      | inl same ↦ cc (subst (λ x. is_project x ≡ false) same below.0)
      | inr later ↦ later
    ])
    | inr low ↦ elim (Option-cases (push_parents c (get_parents front) queue)) [
      | inl none_pushed ↦ rw (low, none_pushed, expand) tt
      | inr (queue', pushes) ↦ rw (low, pushes, expand) (subst Pushed pushes (pushed m))
    ]
  ]
    where
      pushed : In o (front ∷ queue) → Pushed (push_parents c (get_parents front) queue)
      pushed (inl same) =
          subst (λ x. Pushed (push_parents c (get_parents x) queue)) same
            (push_parents-adds (get_parents o) queue below.1)
      pushed (inr later) = push_parents-keeps (get_parents front) queue later

  resume-Fails :
      (next : List ObjectWithRelations → Search → Outcome)
      (r : Result Error (List ObjectWithRelations × Search))
      → ((queue : List ObjectWithRelations) (s : Search) → In o queue → Fails (next queue s))
      → Queued r
      → Fails (resume next r)
  resume-Fails next (err m) h q = tt
  resume-Fails next (ok (queue, s)) h q = h queue s q

  search_up-Fails :
      (fuel : ℕ) (queue : List ObjectWithRelations) (s : Search)
      → In o queue
      → Fails (search_up c fuel queue s)
  unfolding search_up
  search_up-Fails fuel [] s m = absurd m
  search_up-Fails zero (front ∷ queue) s m = tt
  search_up-Fails (suc fuel) (front ∷ queue) s m =
      resume-Fails (search_up c fuel) (expand c front queue s) (search_up-Fails fuel)
        (expand-Queued front queue s m)

  iterative-Fails : (fuel : ℕ) → Fails (upstream_dfs_iterative c fuel id)
  unfolding upstream_dfs_iterative
  iterative-Fails fuel =
      rw (e, upstream_dfs_iterative) (search_up-Fails fuel (o ∷ []) start (inl refl))

-- Once a `BELONGS_TO` relation has been added whose target is cached and no project, neither search
-- returns hierarchies for the target, whatever the fuel.
pub update_relations-no_hierarchies :
    (r : InternalRelation) (rs : List InternalRelation) (c : Cache) (fuel : ℕ) (path : List Node)
    (finished : Hierarchies)
    → In r rs
    → str_eq r.relation_name belongs_to ≡ true
    → Holds (λ o. is_project o ≡ false) r.target_pid c
    → Fails (upstream_dfs_recursive (update_relations rs c) fuel r.target_pid path finished)
      × Fails (upstream_dfs_iterative (update_relations rs c) fuel r.target_pid)
update_relations-no_hierarchies r rs c fuel path finished m named low =
    let (o, e, below) = update_relations-own_parent r rs c m named low in
    (
      recursive-Fails (update_relations rs c) r.target_pid o e below fuel path finished,
      iterative-Fails (update_relations rs c) r.target_pid o e below fuel,
    )
