-- ===== src/ServerCache/Upstream/Splits.antt =====
-- Lemmas on single rounds of the iterative search and on its stack of splits.
use aos_server.Base.{
  ℕ, zero, suc, ◌+◌, ◌-◌, ◌≤◌, ◌≡◌, refl, ap, true, false, Option, none, some, List, [], ◌∷◌, ◌++◌,
  ok, length, replicate, if◌then◌else◌, arith,
}
use aos_server.ServerCache.{Ulid, ObjectWithRelations, Cache}
use aos_server.ServerCache.Objects.{get_object, get_parents}
use aos_server.ServerCache.Upstream.{
  Node, Hierarchies, node, is_project, Search, truncate, push_parents, pop_split, expand, resume,
  search_up,
}

abbrev pub state : List ℕ → List Node → Hierarchies → Search
state splits current finished = record {
  split_indexes = splits;
  current = current;
  finished = finished;
}

-- A split is left for each object in the queue, and the next one lies within the current path.
abbrev pub IsReady : List ℕ → List Node → List ObjectWithRelations → Type 0
IsReady [] current queue = queue ≡ []
IsReady (i ∷ splits) current queue = i ≤ length current

truncate_le : (i : ℕ) (xs ys : List Node) → i ≤ length xs → truncate i (xs ++ ys) ≡ truncate i xs
truncate_le zero xs ys h = refl
truncate_le (suc i) [] ys h = absurd (omega arith)
truncate_le (suc i) (x ∷ xs) ys h = ap (λ l. x ∷ l) (truncate_le i xs ys (omega arith))

pub truncate_all : (xs : List Node) → truncate (length xs) xs ≡ xs
truncate_all [] = refl
truncate_all (x ∷ xs) = ap (λ l. x ∷ l) (truncate_all xs)

pub IsReady-longer :
    (splits : List ℕ) (current more : List Node) (queue : List ObjectWithRelations)
    → IsReady splits current queue
    → IsReady splits (current ++ more) queue
IsReady-longer [] current more queue ready = ready
IsReady-longer (i ∷ splits) current more queue ready =
    let longer = length_le current more in omega arith
  where
    length_le : (xs ys : List Node) → length xs ≤ length (xs ++ ys)
    length_le [] ys = omega arith
    length_le (x ∷ xs) ys = let le = length_le xs ys in omega arith

pub replicate-cons :
    (k i : ℕ) (splits : List ℕ) → replicate (suc k) i ++ splits ≡ replicate k i ++ i ∷ splits
replicate-cons zero i splits = refl
replicate-cons (suc k) i splits = ap (λ l. i ∷ l) (replicate-cons k i splits)

-- How many rounds an id takes, where walks up have at most `n` nodes.
abbrev pub rounds_all : (Ulid → ℕ) → List Ulid → ℕ
rounds_all w [] = 0
rounds_all w (p ∷ ps) = w p + rounds_all w ps

abbrev rounds_of : (Ulid → ℕ) → Option ObjectWithRelations → ℕ
rounds_of w none = 1
rounds_of w (some o) = suc (if is_project o then 0 else rounds_all w (get_parents o))

module _ (c : Cache) where
  unfoldable pub rounds : ℕ → Ulid → ℕ
  rounds zero id = 1
  rounds (suc n) id = rounds_of (rounds n) (get_object id c)

  -- What the extension of the current path leaves behind is cut off, or never read.
  pub search_up-cut :
      (fuel : ℕ) (splits : List ℕ) (current more : List Node) (finished : Hierarchies)
      (queue : List ObjectWithRelations)
      → IsReady splits current queue
      → search_up c fuel queue (pop_split (state splits (current ++ more) finished))
        ≡ search_up c fuel queue (pop_split (state splits current finished))
  unfolding search_up
  search_up-cut fuel [] current more finished queue ready = rw ready refl
  search_up-cut fuel (i ∷ splits) current more finished queue ready =
      rw (truncate_le i current more ready)

  pub search_up-suc :
      (fuel : ℕ) (o : ObjectWithRelations) (queue : List ObjectWithRelations) (s : Search)
      → search_up c (suc fuel) (o ∷ queue) s ≡ resume (search_up c fuel) (expand c o queue s)
  unfolding search_up
  search_up-suc fuel o queue s = refl

  pub expand-project :
      (o : ObjectWithRelations) (queue : List ObjectWithRelations) (splits : List ℕ)
      (current : List Node) (finished : Hierarchies)
      → is_project o ≡ true
      → expand c o queue (state splits current finished)
        ≡ ok (
          queue,
          pop_split
              (state splits (current ++ node o ∷ []) (finished ++ (current ++ node o ∷ []) ∷ [])),
        )
  unfolding expand
  expand-project o queue splits current finished top = rw top

  pub expand-parents :
      (o : ObjectWithRelations) (queue : List ObjectWithRelations) (splits : List ℕ)
      (current : List Node) (finished : Hierarchies) {pushed : List ObjectWithRelations}
      → is_project o ≡ false
      → push_parents c (get_parents o) queue ≡ some pushed
      → expand c o queue (state splits current finished)
        ≡ ok (
          pushed,
          state
              (replicate (length (get_parents o) - 1) (length (current ++ node o ∷ [])) ++ splits)
              (current ++ node o ∷ [])
              finished,
        )
  unfolding expand
  expand-parents o queue splits current finished low e = rw (low, e, expand)

  pub rounds-suc :
      (n : ℕ) (id : Ulid) (o : ObjectWithRelations)
      → get_object id c ≡ some o
      → rounds (suc n) id ≡ suc (if is_project o then 0 else rounds_all (rounds n) (get_parents o))
  unfolding rounds
  rounds-suc n id o e = rw (e, rounds)
