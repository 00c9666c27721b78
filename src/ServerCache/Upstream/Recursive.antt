-- ===== src/ServerCache/Upstream/Recursive.antt =====
-- The recursive search returns the paths of the reference.
use mathlib.Core.List.{append-nil, append_assoc, map-append}
use aos_server.Base.{
  ℕ, zero, suc, ◌≤◌, ◌≡◌, refl, sym, ap, ◌∙◌, true, false, some, inl, inr, List, [], ◌∷◌, ◌++◌, map,
  In, ok, arith,
}
use aos_server.ServerCache.{Ulid, ObjectWithRelations, Cache}
use aos_server.ServerCache.Objects.{get_object, get_parents}
use aos_server.ServerCache.Upstream.{
  Node, Hierarchies, Outcome, node, is_project, each_parent, upstream_dfs_recursive,
}
use aos_server.ServerCache.Upstream.Paths.{
  paths_all, through, paths_up, paths_up-project, paths_up-parents, IsRooted,
}

-- Every path behind a common beginning.
abbrev pub prefix : List Node → Hierarchies → Hierarchies
prefix path hs = map (λ h. path ++ h) hs

pub prefix-through :
    (path : List Node) (o : ObjectWithRelations) (hs : Hierarchies)
    → prefix (path ++ node o ∷ []) hs ≡ prefix path (through o hs)
prefix-through path o [] = refl
prefix-through path o (h ∷ hs) = cc (append_assoc path (node o ∷ []) h, prefix-through path o hs)

pub prefix-append :
    (path : List Node) (xs ys : Hierarchies)
    → prefix path (xs ++ ys) ≡ prefix path xs ++ prefix path ys
prefix-append path xs ys = map-append _ xs ys

each_parent-paths_all :
    (visit : Ulid → List Node → Hierarchies → Outcome) (paths : Ulid → Hierarchies) (ps : List Ulid)
    (path : List Node) (finished : Hierarchies)
    → ((p : Ulid) (finished' : Hierarchies)
        → In p ps
        → visit p path finished' ≡ some (ok (finished' ++ prefix path (paths p))))
    → each_parent visit ps path finished ≡ some (ok (finished ++ prefix path (paths_all paths ps)))
unfolding each_parent
each_parent-paths_all visit paths [] path finished h = rw append-nil
each_parent-paths_all visit paths (p ∷ ps) path finished h = rw (h p finished (inl refl)) (
    each_parent-paths_all visit paths ps path (finished ++ prefix path (paths p))
      (λ q f m. h q f (inr m))
    ∙ ap (λ hs. some (ok hs))
        (append_assoc finished (prefix path (paths p)) _
          ∙ ap (λ hs. finished ++ hs) (sym (prefix-append path (paths p) (paths_all paths ps)))))

module _ (c : Cache) where
  module _ (fuel : ℕ) (id : Ulid) (path : List Node) (finished : Hierarchies)
      (o : ObjectWithRelations) (e : get_object id c ≡ some o) where
    recursive-project :
        is_project o ≡ true
        → upstream_dfs_recursive c (suc fuel) id path finished
          ≡ some (ok (finished ++ (path ++ node o ∷ []) ∷ []))
    unfolding upstream_dfs_recursive
    recursive-project top = rw (e, upstream_dfs_recursive, top)

    pub recursive-parents :
        is_project o ≡ false
        → upstream_dfs_recursive c (suc fuel) id path finished
          ≡ each_parent
              (upstream_dfs_recursive c fuel)
              (get_parents o)
              (path ++ node o ∷ [])
              finished
    unfolding upstream_dfs_recursive
    recursive-parents low = rw (e, upstream_dfs_recursive, low)

  -- Where every walk up from an id ends in a project after at most `n` nodes, fuel for `n` calls is
  -- enough, and the search appends all paths from the id up to projects to what was finished.
  pub upstream_dfs_recursive-paths_up :
      (n fuel : ℕ) (id : Ulid) (path : List Node) (finished : Hierarchies)
      → IsRooted c n id
      → n ≤ fuel
      → upstream_dfs_recursive c fuel id path finished
        ≡ some (ok (finished ++ prefix path (paths_up c paths_all n id)))
  upstream_dfs_recursive-paths_up zero fuel id path finished h le = absurd h
  upstream_dfs_recursive-paths_up (suc n) zero id path finished h le = absurd (omega arith)
  upstream_dfs_recursive-paths_up (suc n) (suc fuel) id path finished (o, e, inl top) le =
      rw
        (recursive-project fuel id path finished o e top, paths_up-project c paths_all n id o e top)
  upstream_dfs_recursive-paths_up (suc n) (suc fuel) id path finished
        (o, e, inr (low, some_parent, up)) le =
      rw
        (
          recursive-parents fuel id path finished o e low,
          paths_up-parents c paths_all n id o e low,
          ← prefix-through path o (paths_all (paths_up c paths_all n) (get_parents o)),
        )
        (each_parent-paths_all (upstream_dfs_recursive c fuel) (paths_up c paths_all n)
          (get_parents o) (path ++ node o ∷ []) finished
          (λ p f m.
            upstream_dfs_recursive-paths_up n fuel p (path ++ node o ∷ []) f (up p m)
              (omega arith)))
