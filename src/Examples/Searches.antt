-- ===== src/Examples/Searches.antt =====
-- The searches through the hierarchy of the small instance.
use aos_server.Base.{
  ℕ, ◌≡◌, refl, some, inl, inr, List, [], ◌∷◌, ◌++◌, ◌⊎◌, ◌↔◌, In, ok, arith, true, false,
}
use aos_server.Base.Map
use aos_server.Enums.{ObjectType, ObjectMapping}
use aos_server.ServerCache.Objects.{get_object, get_parents, get_children}
use aos_server.ServerCache.Relations.{update_relations}
use aos_server.ServerCache.Relations.Ends.{Holds}
use aos_server.ServerCache.Relations.Cycle.{Fails, update_relations-no_hierarchies}
use aos_server.ServerCache.Upstream.{
  node, is_project, upstream_dfs_recursive, upstream_dfs_iterative,
}
use aos_server.ServerCache.Upstream.Paths.{paths_all, paths_back, paths_up, IsRooted}
use aos_server.ServerCache.Upstream.Recursive.{prefix, upstream_dfs_recursive-paths_up}
use aos_server.ServerCache.Upstream.Splits.{rounds}
use aos_server.ServerCache.Upstream.Iterative.{upstream_dfs_iterative-paths_up}
use aos_server.ServerCache.Subresources.{get_subresources}
use aos_server.ServerCache.Subresources.Notes.{LiesUnder, IsDistinct}
use aos_server.ServerCache.Subresources.Found.{IsShallow, size, get_subresources-LiesUnder}
use aos_server.ServerCache.Holders.{get_resource_permissions, ResourcePerms}
use aos_server.ServerCache.Holders.Held.{permissions_of, held, get_resource_permissions-held}
use aos_server.ServerCache.Hierarchy.{get_hierarchy}
use aos_server.ServerCache.Hierarchy.Children.{
  StartsAt, self_described, get_hierarchy-self_described,
}
use aos_server.Examples.World.{world, one_two, resource_one, resource_two}

one-IsRooted : IsRooted world 1 1
unfolding get_object Map.get
one-IsRooted = (resource_one, refl, inl refl)

two-IsRooted : IsRooted world 2 2
unfolding get_object Map.get get_parents
two-IsRooted = (
  resource_two,
  refl,
  inr (refl, (λ e. cc), λ p m. elim m [ inl e ↦ rw e one-IsRooted | inr f ↦ absurd f ]),
)

upstream_dfs_recursive-paths_up_example :
    upstream_dfs_recursive world 2 2 [] []
    ≡ some (ok ([] ++ prefix [] (paths_up world paths_all 2 2)))
upstream_dfs_recursive-paths_up_example =
    upstream_dfs_recursive-paths_up world 2 2 2 [] [] two-IsRooted (omega arith)

paths_of_two :
    paths_up world paths_all 2 2 ≡ (ObjectMapping.collection 2 ∷ ObjectMapping.project 1 ∷ []) ∷ []
unfolding paths_up get_object Map.get get_parents node
paths_of_two = refl

rounds_of_two : rounds world 2 2 ≡ 2
unfolding rounds get_object Map.get get_parents
rounds_of_two = refl

upstream_dfs_iterative-paths_up_example :
    upstream_dfs_iterative world 2 2 ≡ some (ok (paths_up world paths_back 2 2))
upstream_dfs_iterative-paths_up_example =
    upstream_dfs_iterative-paths_up world 2 2 2 two-IsRooted (omega (arith, rounds_of_two))

two_is_low : Holds (λ o. is_project o ≡ false) 2 world
unfolding get_object Map.get
two_is_low = (resource_two, refl, refl)

update_relations-no_hierarchies_example :
    Fails (upstream_dfs_recursive (update_relations (one_two ∷ []) world) 5 2 [] [])
    × Fails (upstream_dfs_iterative (update_relations (one_two ∷ []) world) 5 2)
update_relations-no_hierarchies_example =
    update_relations-no_hierarchies one_two (one_two ∷ []) world 5 [] [] (inl refl) refl two_is_low

three-IsShallow : IsShallow world 2 3
unfolding get_object Map.get get_children
three-IsShallow = λ y m. elim m [ inl e ↦ rw e (λ z k. absurd k) | inr f ↦ absurd f ]

three_size : size world 2 3 ≡ 2
unfolding size get_object Map.get get_children
three_size = refl

get_subresources-LiesUnder_example :
    (r : List ℕ) × (get_subresources 2 world 3 ≡ some r)
    × IsDistinct r
    × ((id : ℕ) → In id r ↔ LiesUnder world id 3)
get_subresources-LiesUnder_example =
    get_subresources-LiesUnder world 2 2 3 three-IsShallow (omega (arith, three_size))

get_resource_permissions-held_example :
    (perms : ResourcePerms) × (get_resource_permissions 2 world 3 true ≡ some (ok perms))
    × ((j : ℕ)
        → (j ≡ 3) ⊎ LiesUnder world j 3
        → permissions_of j perms ≡ held j (Map.values world.user_cache))
    × ((j : ℕ) → ((j ≡ 3) ⊎ LiesUnder world j 3 → ⊥) → permissions_of j perms ≡ [])
get_resource_permissions-held_example =
    get_resource_permissions-held world 2 2 3 three-IsShallow (omega (arith, three_size))

two_cached : get_object 2 world ≡ some resource_two
unfolding get_object Map.get
two_cached = refl

two_starts : StartsAt 2 resource_two
two_starts r m = elim m [ inl e ↦ rw e refl | inr f ↦ absurd f ]

get_hierarchy-self_described_example :
    get_hierarchy 2 world ≡ self_described world resource_two ObjectType.collection
get_hierarchy-self_described_example =
    get_hierarchy-self_described 2 world resource_two two_cached two_starts
