-- ===== src/ServerCache/Upstream/Paths.antt =====
-- The reference for both searches: all paths from an object up to projects.
use aos_server.Base.{
  ℕ, zero, suc, ◌≡◌, ◌≢◌, true, false, none, some, ◌⊎◌, List, [], ◌∷◌, ◌++◌, map, In, if◌then◌else◌,
}
use aos_server.ServerCache.{Ulid, ObjectWithRelations, Cache}
use aos_server.ServerCache.Objects.{get_object, get_parents}
use aos_server.ServerCache.Upstream.{Hierarchies, node, is_project}

-- The paths of a list of parents, one after the other; `paths` gives those of one.
abbrev pub paths_all : (Ulid → Hierarchies) → List Ulid → Hierarchies
paths_all paths [] = []
paths_all paths (p ∷ ps) = paths p ++ paths_all paths ps

-- The same, the last parent first.
abbrev pub paths_back : (Ulid → Hierarchies) → List Ulid → Hierarchies
paths_back paths [] = []
paths_back paths (p ∷ ps) = paths_back paths ps ++ paths p

-- An object's own node in front of the paths of its parents.
abbrev pub through : ObjectWithRelations → Hierarchies → Hierarchies
through o above = map (λ path. node o ∷ path) above

module _ (c : Cache) where
  -- All paths of at most `n` nodes from an id up to projects. The order of the parents is `join`'s.
  unfoldable pub paths_up :
      ((Ulid → Hierarchies) → List Ulid → Hierarchies) → ℕ → Ulid → Hierarchies
  paths_up join zero id = []
  paths_up join (suc n) id = elim (get_object id c) [
    | none ↦ []
    | some o ↦
        if is_project o
        then (node o ∷ []) ∷ []
        else through o (join (paths_up join n) (get_parents o))
  ]

  -- Every walk up from the id meets cached objects only, and ends in a project after at most `n`
  -- nodes.
  abbrev pub IsRooted : ℕ → Ulid → Type 0
  IsRooted zero id = ⊥
  IsRooted (suc n) id =
      (o : ObjectWithRelations) × (get_object id c ≡ some o)
      × ((is_project o ≡ true)
          ⊎ (is_project o ≡ false)
            × (get_parents o ≢ [])
            × ((p : Ulid) → In p (get_parents o) → IsRooted n p))

module _ (c : Cache) (join : (Ulid → Hierarchies) → List Ulid → Hierarchies) (n : ℕ) (id : Ulid)
    (o : ObjectWithRelations) (e : get_object id c ≡ some o) where
  pub paths_up-project : is_project o ≡ true → paths_up c join (suc n) id ≡ (node o ∷ []) ∷ []
  unfolding paths_up
  paths_up-project top = rw (e, paths_up, top)

  pub paths_up-parents :
      is_project o ≡ false
      → paths_up c join (suc n) id ≡ through o (join (paths_up c join n) (get_parents o))
  unfolding paths_up
  paths_up-parents low = rw (e, paths_up, low)
