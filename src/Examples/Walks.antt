-- ===== src/Examples/Walks.antt =====
-- `traverse_down` in the small instance.
use aos_server.Base.{
  ℕ, ◌<◌, ◌≡◌, ◌≢◌, refl, none, some, inl, inr, ◌⊎◌, Bool-cases, In, arith, ◌==◌, subst,
}
use aos_server.Base.Map
use aos_server.Enums.{DbPermissionLevel, level}
use aos_server.ServerCache.{ObjectWithRelations}
use aos_server.ServerCache.Objects.{
  get_object, get_permission_children, get_children, deleted_targets,
}
use aos_server.ServerCache.Traverse.{covered, exhausted, walk, scan, strike, traverse_down}
use aos_server.ServerCache.Traverse.Reach.{IsChild, IsUnder, child, deeper}
use aos_server.ServerCache.Traverse.Sound.{IsGrantedFrom, TraversalOk, traverse_down-TraversalOk}
use aos_server.ServerCache.Traverse.Complete.{Shrinks, traverse_down-exhausted}
use aos_server.ServerCache.Traverse.Fuel.{IsLayered, height, tree_size, traverse_down_ends}
use aos_server.ServerCache.Traverse.Verdict.{Fits, single}
use aos_server.Examples.World.{world, resource_one, resource_two, resource_three, resource_four}

abbrev read : DbPermissionLevel
read = DbPermissionLevel.read

one_over_two : IsChild world 1 2
unfolding get_object Map.get get_permission_children get_children deleted_targets
one_over_two = record { object = resource_one; cached = refl; listed = inl refl }

two_over_three : IsChild world 2 3
unfolding get_object Map.get get_permission_children get_children deleted_targets
two_over_three = record { object = resource_two; cached = refl; listed = inl refl }

three_over_four : IsChild world 3 4
unfolding get_object Map.get get_permission_children get_children deleted_targets
three_over_four = record { object = resource_three; cached = refl; listed = inl refl }

pub four-IsUnder_one : IsUnder world 4 1
four-IsUnder_one = deeper one_over_two (deeper two_over_three (child three_over_four))

walk_from_one : traverse_down 4 world 1 read (single 4 read) ≡ some covered
unfolding traverse_down walk scan strike get_object Map.get Map.remove get_permission_children
    get_children deleted_targets level
walk_from_one = refl

walk_to_nowhere : traverse_down 4 world 1 read (single 8 read) ≡ some (exhausted (single 8 read))
unfolding traverse_down walk scan strike get_object Map.get Map.remove get_permission_children
    get_children deleted_targets level
walk_to_nowhere = refl

traverse_down-TraversalOk_example :
    TraversalOk
      (IsGrantedFrom world 1 read)
      (single 4 read)
      (traverse_down 4 world 1 read (single 4 read))
traverse_down-TraversalOk_example = traverse_down-TraversalOk world 1 read 4 (single 4 read)

traverse_down-exhausted_example :
    Shrinks (single 8 read) (single 8 read)
    × ((id : ℕ) → IsUnder world id 1 → Map.get id (single 8 read) ≡ none)
traverse_down-exhausted_example =
    traverse_down-exhausted world read 4 1 (single 8 read) walk_to_nowhere

read-Fits : Fits read (single 4 read)
unfolding Map.get level
read-Fits id needed e = ground arith

pub walk_ends : traverse_down 4 world 1 read (single 4 read) ≢ none
walk_ends e = cc walk_from_one

-- The cached resources of the instance.
pub world_cases :
    (a : ℕ) (o : ObjectWithRelations)
    → get_object a world ≡ some o
    → ((a ≡ 1) × (o ≡ resource_one))
      ⊎ ((a ≡ 2) × (o ≡ resource_two))
      ⊎ ((a ≡ 3) × (o ≡ resource_three))
      ⊎ ((a ≡ 4) × (o ≡ resource_four))
unfolding get_object Map.get
world_cases a o e = elim (Bool-cases (1 == a)) [
  | inl one ↦ inl (ground arith, cc (rw one at e))
  | inr not_one ↦ elim (Bool-cases (2 == a)) [
    | inl two ↦ inr (inl (ground arith, cc (rw (not_one, two) at e)))
    | inr not_two ↦ elim (Bool-cases (3 == a)) [
      | inl three ↦ inr (inr (inl (ground arith, cc (rw (not_one, not_two, three) at e))))
      | inr not_three ↦ elim (Bool-cases (4 == a)) [
        | inl four ↦
            inr (inr (inr (ground arith, cc (rw (not_one, not_two, not_three, four) at e))))
        | inr none_left ↦ cc (rw (not_one, not_two, not_three, none_left) at e)
      ]
    ]
  ]
]

pub world-IsLayered : IsLayered world
unfolding get_object Map.get get_permission_children get_children deleted_targets
world-IsLayered a b k = elim (world_cases a k.object k.cached) [
  | inl (e, o) ↦ under_one e (subst (λ x. In b (get_permission_children x)) o k.listed)
  | inr (inl (e, o)) ↦ under_two e (subst (λ x. In b (get_permission_children x)) o k.listed)
  | inr (inr (inl (e, o))) ↦
      under_three e (subst (λ x. In b (get_permission_children x)) o k.listed)
  | inr (inr (inr (e, o))) ↦ absurd (subst (λ x. In b (get_permission_children x)) o k.listed)
]
  where
    under_one : a ≡ 1 → (b ≡ 2) ⊎ ⊥ → height world b < height world a
    under_one e (inl f) = rw (e, f) (omega arith)
    under_one e (inr none_left) = absurd none_left

    under_two : a ≡ 2 → (b ≡ 3) ⊎ ⊥ → height world b < height world a
    under_two e (inl f) = rw (e, f) (omega arith)
    under_two e (inr none_left) = absurd none_left

    under_three : a ≡ 3 → (b ≡ 4) ⊎ ⊥ → height world b < height world a
    under_three e (inl f) = rw (e, f) (omega arith)
    under_three e (inr none_left) = absurd none_left

pub tree_size_four : tree_size world 4 1 ≡ 4
unfolding tree_size get_object Map.get get_permission_children get_children deleted_targets
tree_size_four = refl

traverse_down_ends_example : traverse_down 4 world 1 read (single 4 read) ≢ none
traverse_down_ends_example =
    traverse_down_ends world 1 read (single 4 read) 4 world-IsLayered
      (omega (arith, tree_size_four))
