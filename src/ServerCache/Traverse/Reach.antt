-- ===== src/ServerCache/Traverse/Reach.antt =====
-- The resources that lie under another one in the cached hierarchy.
use aos_server.Base.{◌≡◌, some, In}
use aos_server.ServerCache.{Ulid, ObjectWithRelations, Cache}
use aos_server.ServerCache.Objects.{get_object, get_permission_children}

-- `b` is a permission child of the cached object `a`.
pub record IsChild (c : Cache) (a b : Ulid) : Type 0 where
  pub object : ObjectWithRelations
  pub cached : get_object a c ≡ some object
  pub listed : In b (get_permission_children object)

-- A walk down of any length; none at all for `here`.
pub data Reaches (c : Cache) (a : Ulid) : Ulid → Type 0 where
  here : Reaches c a a
  down : {b d : Ulid} → Reaches c a b → IsChild c b d → Reaches c a d

-- A walk down of at least one step, read from its top.
pub data IsUnder (c : Cache) (d : Ulid) : Ulid → Type 0 where
  child : {a : Ulid} → IsChild c a d → IsUnder c d a
  deeper : {a b : Ulid} → IsChild c a b → IsUnder c d b → IsUnder c d a

pub Reaches-trans : {c : Cache} {a b d : Ulid} → Reaches c a b → Reaches c b d → Reaches c a d
Reaches-trans r here = r
Reaches-trans r (down s k) = down (Reaches-trans r s) k

-- What lies under `a` is reached from it.
pub Reaches-of_IsUnder : {c : Cache} {d a : Ulid} → IsUnder c d a → Reaches c a d
Reaches-of_IsUnder (child k) = down here k
Reaches-of_IsUnder (deeper k u) = Reaches-trans (down here k) (Reaches-of_IsUnder u)

snoc : {c : Cache} {b d a : Ulid} → IsUnder c b a → IsChild c b d → IsUnder c d a
snoc (child k) j = deeper k (child j)
snoc (deeper k u) j = deeper k (snoc u j)

-- One step down, and then any walk, is a walk of at least one step.
pub IsUnder-of_Reaches : {c : Cache} {a b d : Ulid} → Reaches c a b → IsChild c b d → IsUnder c d a
IsUnder-of_Reaches here k = child k
IsUnder-of_Reaches (down r j) k = snoc (IsUnder-of_Reaches r j) k
