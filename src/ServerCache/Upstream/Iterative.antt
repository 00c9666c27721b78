-- ===== src/ServerCache/Upstream/Iterative.antt =====
-- The iterative search, with its stack of splits, returns the paths of the reference too, those of
-- an object's last parent first.
use mathlib.Core.List.{append_assoc}
use aos_server.Base.{
  ℕ, zero, suc, ◌+◌, ◌-◌, ◌≤◌, ◌≡◌, ◌≢◌, refl, sym, ap, ◌∙◌, subst, true, false, some, ◌⊎◌, inl,
  inr, List, [], ◌∷◌, ◌++◌, In, ok, length, replicate, arith,
}
use aos_server.ServerCache.{Ulid, ObjectWithRelations, Cache}
use aos_server.ServerCache.Objects.{get_object, get_parents}
use aos_server.ServerCache.Upstream.{
  Node, Hierarchies, node, is_project, push_parents, pop_split, search_up, upstream_dfs_iterative,
}
use aos_server.ServerCache.Upstream.Paths.{
  paths_back, paths_up, paths_up-project, paths_up-parents, IsRooted,
}
use aos_server.ServerCache.Upstream.Recursive.{prefix, prefix-through, prefix-append}
use aos_server.ServerCache.Upstream.Splits.{
  state, IsReady, IsReady-longer, truncate_all, replicate-cons, rounds, rounds_all, rounds-suc,
  search_up-cut, search_up-suc, expand-project, expand-parents,
}

module _ (c : Cache) where
  -- What one object in front of the queue comes to, for all states that are ready for it.
  abbrev Clears : ℕ → Ulid → Type 0
  Clears n id =
      (o : ObjectWithRelations)
      → get_object id c ≡ some o
      → (all fuel : ℕ) (splits : List ℕ) (current : List Node) (finished : Hierarchies)
        (queue : List ObjectWithRelations)
      → all ≡ rounds c n id + fuel
      → IsReady splits current queue
      → search_up c all (o ∷ queue) (state splits current finished)
        ≡ search_up c fuel queue (
            pop_split
              (state splits current (finished ++ prefix current (paths_up c paths_back n id))))

  -- The parents of an object, pushed in front of a queue, with a split for each but one.
  parents_clear :
      (n : ℕ) (p : Ulid) (ps : List Ulid) (all fuel : ℕ) (splits : List ℕ) (current : List Node)
      (finished : Hierarchies) (queue : List ObjectWithRelations)
      → ((q : Ulid) → In q (p ∷ ps) → (o : ObjectWithRelations) × (get_object q c ≡ some o))
      → ((q : Ulid) → In q (p ∷ ps) → Clears n q)
      → all ≡ rounds_all (rounds c n) (p ∷ ps) + fuel
      → IsReady splits current queue
      → (pushed : List ObjectWithRelations) × (push_parents c (p ∷ ps) queue ≡ some pushed)
        × (search_up c all pushed
              (state (replicate (length ps) (length current) ++ splits) current finished)
            ≡ search_up c fuel queue (
                pop_split (
                  state splits current
                    (finished ++ prefix current (paths_back (paths_up c paths_back n) (p ∷ ps))))))
  unfolding push_parents
  parents_clear n p [] all fuel splits current finished queue cached clears count ready =
      let (o, e) = cached p (inl refl) in
      (
        o ∷ queue,
        rw (e, push_parents),
        clears p (inl refl) o e all fuel splits current finished queue (omega arith) ready,
      )
  parents_clear n p (p' ∷ ps) all fuel splits current finished queue cached clears count ready =
      let (o, e) = cached p (inl refl) in
      let paths = paths_up c paths_back n in
      let later = paths_back paths (p' ∷ ps) in
      let (pushed, pushes, runs) =
        parents_clear n p' ps all (rounds c n p + fuel) (length current ∷ splits) current finished
          (o ∷ queue) (λ q m. cached q (inr m)) (λ q m. clears q (inr m)) (omega arith)
          (omega arith) in
      let last =
        clears p (inl refl) o e (rounds c n p + fuel) fuel splits current
          (finished ++ prefix current later) queue refl ready in
      (
        pushed,
        rw (e, push_parents) pushes,
        ap (λ l. search_up c all pushed (state l current finished))
              (replicate-cons (length ps) (length current) splits)
            ∙ runs
            ∙ ap
                (λ l.
                  search_up c (rounds c n p + fuel) (o ∷ queue)
                    (state splits l (finished ++ prefix current later)))
                (truncate_all current)
            ∙ last
            ∙ ap (λ hs. search_up c fuel queue (pop_split (state splits current hs)))
                (append_assoc finished (prefix current later) (prefix current (paths p))
                  ∙ ap (λ hs. finished ++ hs) (sym (prefix-append current later (paths p)))),
      )

  parents_clear_list :
      (n : ℕ) (ps : List Ulid) (all fuel : ℕ) (splits : List ℕ) (current : List Node)
      (finished : Hierarchies) (queue : List ObjectWithRelations)
      → ps ≢ []
      → ((q : Ulid) → In q ps → IsRooted c n q)
      → ((q : Ulid) → In q ps → Clears n q)
      → all ≡ rounds_all (rounds c n) ps + fuel
      → IsReady splits current queue
      → (pushed : List ObjectWithRelations) × (push_parents c ps queue ≡ some pushed)
        × (search_up c all pushed
              (state (replicate (length ps - 1) (length current) ++ splits) current finished)
            ≡ search_up c fuel queue (
                pop_split (
                  state splits current
                    (finished ++ prefix current (paths_back (paths_up c paths_back n) ps)))))
  parents_clear_list n [] all fuel splits current finished queue some_parent up clears count ready =
      absurd (some_parent refl)
  parents_clear_list n (p ∷ ps) all fuel splits current finished queue some_parent up clears count
        ready =
      let fewer : length (p ∷ ps) - 1 ≡ length ps = omega arith in
      rw fewer (
        parents_clear n p ps all fuel splits current finished queue (λ q m. is_cached n q (up q m))
          clears count ready)
    where
      is_cached :
          (m : ℕ) (q : Ulid)
          → IsRooted c m q
          → (o : ObjectWithRelations) × (get_object q c ≡ some o)
      is_cached zero q h = absurd h
      is_cached (suc m) q h = (h.0, h.1)

  abbrev Rest : ℕ → ObjectWithRelations → Type 0
  Rest n o =
      (is_project o ≡ true)
      ⊎ (is_project o ≡ false)
        × (get_parents o ≢ [])
        × ((p : Ulid) → In p (get_parents o) → IsRooted c n p)

  clears : (n : ℕ) (id : Ulid) → IsRooted c n id → Clears n id
  clears zero id h o e all fuel splits current finished queue count ready = absurd h
  clears (suc n) id h o e zero fuel splits current finished queue count ready =
      absurd (omega (arith, rounds-suc c n id o e))
  clears (suc n) id (o', e', h) o e (suc all) fuel splits current finished queue count ready =
      let same : o' ≡ o = cc in
      let size = rounds-suc c n id o e in
      let path = current ++ node o ∷ [] in
      rw (search_up-suc c all o queue (state splits current finished))
        (elim (subst (Rest n) same h) [
          | inl top ↦
              let count' : all ≡ fuel = omega (arith, rw top at size) in
              rw (expand-project c o queue splits current finished top, count')
                (search_up-cut c fuel splits current (node o ∷ []) (finished ++ path ∷ []) queue
                    ready
                  ∙ after (sym (ap (prefix current) (paths_up-project c paths_back n id o e top))))
          | inr (low, some_parent, up) ↦
              let above = paths_back (paths_up c paths_back n) (get_parents o) in
              let (pushed, pushes, runs) =
                parents_clear_list n (get_parents o) all fuel splits path finished queue some_parent
                  up (λ q m. clears n q (up q m)) (omega (arith, rw low at size))
                  (IsReady-longer splits current (node o ∷ []) queue ready) in
              rw (expand-parents c o queue splits current finished low pushes) (
                runs
                ∙ search_up-cut c fuel splits current (node o ∷ []) (finished ++ prefix path above)
                    queue ready
                ∙ after (
                    prefix-through current o above
                    ∙ sym (ap (prefix current) (paths_up-parents c paths_back n id o e low))))
        ])
    where
      after :
          {hs hs' : Hierarchies}
          → hs ≡ hs'
          → search_up c fuel queue (pop_split (state splits current (finished ++ hs)))
            ≡ search_up c fuel queue (pop_split (state splits current (finished ++ hs')))
      after = ap (λ hs. search_up c fuel queue (pop_split (state splits current (finished ++ hs))))

  -- Where every walk up from an object ends in a project, the search ends after as many rounds as
  -- there are nodes on the walks, and returns all paths from the object up to projects, those of an
  -- object's last parent first.
  pub upstream_dfs_iterative-paths_up :
      (n fuel : ℕ) (root : Ulid)
      → IsRooted c n root
      → rounds c n root ≤ fuel
      → upstream_dfs_iterative c fuel root ≡ some (ok (paths_up c paths_back n root))
  unfolding upstream_dfs_iterative search_up
  upstream_dfs_iterative-paths_up zero fuel root h le = absurd h
  upstream_dfs_iterative-paths_up (suc n) fuel root (o, e, h) le =
      let spare : fuel ≡ rounds c (suc n) root + (fuel - rounds c (suc n) root) = omega arith in
      rw (e, upstream_dfs_iterative)
        (clears (suc n) root (o, e, h) o e fuel (fuel - rounds c (suc n) root) [] [] [] [] spare
            refl
          ∙ ended (fuel - rounds c (suc n) root) (prefix [] (paths_up c paths_back (suc n) root))
          ∙ ap (λ hs. some (ok hs)) (prefix-nil (paths_up c paths_back (suc n) root)))
    where
      ended :
          (left : ℕ) (hs : Hierarchies)
          → search_up c left [] (pop_split (state [] [] hs)) ≡ some (ok hs)
      ended left hs = refl

      prefix-nil : (hs : Hierarchies) → prefix [] hs ≡ hs
      prefix-nil [] = refl
      prefix-nil (h ∷ hs) = ap (λ l. h ∷ l) (prefix-nil hs)
