-- ===== src/Examples/Decisions.antt =====
-- The decisions on requests in the small instance.
use aos_server.Base.{ℕ, ◌≡◌, ◌≢◌, refl, true, false, none, some, [], ◌∷◌, arith, leb}
use aos_server.Base.Map
use aos_server.Enums.{DbPermissionLevel, level}
use aos_server.Auth.Contexts.{resource, not_activated, registered_ctx, Grants, res_ctx}
use aos_server.ServerCache.{User}
use aos_server.ServerCache.Users.{get_user}
use aos_server.ServerCache.Permissions.{check_permissions_with_contexts}
use aos_server.ServerCache.Permissions.Decide.{first_holder_decides}
use aos_server.ServerCache.Permissions.Answers.{check_permissions_ends}
use aos_server.Examples.World.{world, user_nine}
use aos_server.Examples.Walks.{four-IsUnder_one, world-IsLayered, tree_size_four, walk_ends}

abbrev read : DbPermissionLevel
read = DbPermissionLevel.read

abbrev write : DbPermissionLevel
write = DbPermissionLevel.write

-- User 9 holds a permission to read project 1.
abbrev pub held : Grants
held = (1, read) ∷ []

pub user_known : get_user 9 world ≡ some user_nine
unfolding get_user Map.get
user_known = refl

first_holder_decides_example :
    check_permissions_with_contexts 4 world (res_ctx 4 read true ∷ []) ((1, read) ∷ []) true 9
    ≡ some (leb (level read) (level read))
first_holder_decides_example =
    first_holder_decides 4 world user_nine 9 1 4 read read true true [] user_known refl refl
      (omega arith) four-IsUnder_one walk_ends

not_resource : (id : ℕ) (perm : DbPermissionLevel) → registered_ctx.variant ≢ resource id perm
unfolding registered_ctx
not_resource id perm e = cc

not_started : (res_ctx 4 read true).variant ≢ not_activated
unfolding res_ctx
not_started e = cc

unknown : (u : User) → get_user 8 world ≡ some u → u.active ≡ false
unfolding get_user Map.get
unknown u e = cc

check_permissions_ends_example :
    check_permissions_with_contexts 4 world (res_ctx 4 read true ∷ []) held true 9 ≢ none
check_permissions_ends_example =
    check_permissions_ends 4 world world-IsLayered (res_ctx 4 read true ∷ []) held true 9
      (omega (arith, tree_size_four), tt)
