-- ===== src/DataProxy/Access/Answers.antt =====
-- What the S3 services take out of the answer (`ObjectsState` of components/data_proxy/src/structs.rs),
-- and the tests of an access key of auth/auth_helpers.rs.
use aos_server.Base.{List, [], ◌∷◌, Option, Result, ok, err, ◌>>=◌, if◌then◌else◌}
use aos_server.Base.Map
use aos_server.Enums.{DbPermissionLevel}
use aos_server.ServerCache.{Ulid}
use aos_server.DataProxy.Format.{ObjectLocation}
use aos_server.DataProxy.Objects.{S3Error, invalid_request, access_denied, ProxyObject}
use aos_server.DataProxy.States.{
  ResourceStates, AccessKeyPermissions, Slice, at_least, as_slice, require_object,
}
use aos_server.DataProxy.Access.{ObjectsState, regular, objects, bundle}

unfoldable pub extract_object : ObjectsState → Result S3Error (ProxyObject × Option ObjectLocation)
unfolding require_object
extract_object (regular states location) = do o ← require_object states; ok (o, location)
extract_object (objects o filename) = err (invalid_request "Object not found")
extract_object (bundle b filename) = err (invalid_request "Object not found")

unfoldable pub try_slice : ObjectsState → Result S3Error Slice
unfolding as_slice
try_slice (regular states location) = ok (as_slice states)
try_slice (objects o filename) = err (invalid_request "Object not found")
try_slice (bundle b filename) = err (invalid_request "Object not found")

unfoldable pub require_regular :
    ObjectsState → Result S3Error (ResourceStates × Option ObjectLocation)
require_regular (regular states location) = ok (states, location)
require_regular (objects o filename) = err (invalid_request "Object not found")
require_regular (bundle b filename) = err (invalid_request "Object not found")

-- `check_permissions` and `check_multi_permissions` of auth_helpers.rs.
unfoldable pub check_key_permissions :
    AccessKeyPermissions → Ulid → DbPermissionLevel → Result S3Error (Unit {0})
check_key_permissions key resource_id perm =
    if at_least perm (Map.get resource_id key.permissions)
    then ok tt
    else err (access_denied "Access Denied")

unfoldable pub check_multi_permissions :
    AccessKeyPermissions → List ProxyObject → DbPermissionLevel → Result S3Error (Unit {0})
check_multi_permissions key [] perm = err (access_denied "Access Denied")
check_multi_permissions key (o ∷ rest) perm =
    let later = check_multi_permissions key rest perm in
    if at_least perm (Map.get o.id key.permissions) then ok tt else later
