-- ===== src/Enums/RoundTrip.antt =====
-- The conversions of the enums undo one another, exactly where they can.
use text.Mathlib.TextEquality.{eq_iff}
use aos_server.Base.{
  ℕ, String, ◌≡◌, refl, ◌≢◌, ◌↔◌, ◌⊎◌, inl, inr, Result, ok, err, Error, message, arith, leb, In,
}
use aos_server.Enums.{ObjectStatus, ObjectMapping, DbPermissionLevel, level, perm_ge, status_labels}
use aos_server.Enums.Codes.{
  data_class_of_i32, data_class_to_i32, object_status_to_i32, object_status_of_i32,
  object_status_of_label, algorithm_of_i32, algorithm_to_i32, object_type_to_i32,
  object_type_of_i32, permission_of_i32, permission_to_i32, endpoint_status_of_i32,
  endpoint_status_to_i32, feature_of_i32, feature_to_i32, endpoint_variant_to_i32,
  endpoint_variant_of_i32,
}
use aos_server.Enums.Api.{
  data_class_of_api, data_class_to_api, object_type_to_api, object_type_of_api, permission_to_api,
  permission_of_api, notification_of_api, notification_to_api, mapping_of_resource_id,
  resource_id_of_mapping,
}

-- A partial bijection with codes: `of` reads back what `to` writes, and reads nothing else.
abbrev IsCodec : {A B : Type 0} → (A → B) → (B → Result Error A) → Type 0
IsCodec {A} {B} to of = ((x : A) → of (to x) ≡ ok x) × ((c : B) (x : A) → of c ≡ ok x → to x ≡ c)

module _ where
  data_class-IsCodec : IsCodec data_class_to_i32 data_class_of_i32
  unfolding data_class_to_i32 data_class_of_i32
  data_class-IsCodec = (λ x. ground arith, λ c x h. ground arith)

  object_status-IsCodec : IsCodec object_status_to_i32 object_status_of_i32
  unfolding object_status_to_i32 object_status_of_i32
  object_status-IsCodec = (λ x. ground arith, λ c x h. ground arith)

  object_type-IsCodec : IsCodec object_type_to_i32 object_type_of_i32
  unfolding object_type_to_i32 object_type_of_i32
  object_type-IsCodec = (λ x. ground arith, λ c x h. ground arith)

  permission-IsCodec : IsCodec permission_to_i32 permission_of_i32
  unfolding permission_to_i32 permission_of_i32
  permission-IsCodec = (λ x. ground arith, λ c x h. ground arith)

  endpoint_status-IsCodec : IsCodec endpoint_status_to_i32 endpoint_status_of_i32
  unfolding endpoint_status_to_i32 endpoint_status_of_i32
  endpoint_status-IsCodec = (λ x. ground arith, λ c x h. ground arith)

-- The `i32` codes of data classes, object statuses, object types, permission levels, endpoint
-- statuses, proxy features, endpoint variants and hash algorithms are partial bijections: each
-- value is read back from its code, and a code that reads as a value is that value's code.
i32_codecs :
    IsCodec data_class_to_i32 data_class_of_i32
    × IsCodec object_status_to_i32 object_status_of_i32
    × IsCodec object_type_to_i32 object_type_of_i32
    × IsCodec permission_to_i32 permission_of_i32
    × IsCodec endpoint_status_to_i32 endpoint_status_of_i32
    × IsCodec feature_to_i32 feature_of_i32
    × IsCodec endpoint_variant_to_i32 endpoint_variant_of_i32
    × IsCodec algorithm_to_i32 algorithm_of_i32
unfolding feature_to_i32 feature_of_i32 endpoint_variant_to_i32 endpoint_variant_of_i32
    algorithm_to_i32 algorithm_of_i32
i32_codecs = (
  data_class-IsCodec,
  object_status-IsCodec,
  object_type-IsCodec,
  permission-IsCodec,
  endpoint_status-IsCodec,
  (λ x. ground arith, λ c x h. ground arith),
  (λ x. ground arith, λ c x h. ground arith),
  (λ x. ground arith, λ c x h. ground arith),
)

-- The interface's enums for data classes, resource variants and personal notifications are in
-- partial bijection with the database's: only the interface's `Unspecified` has no counterpart.
api_codecs :
    IsCodec data_class_to_api data_class_of_api
    × IsCodec object_type_to_api object_type_of_api
    × IsCodec notification_to_api notification_of_api
unfolding data_class_to_api data_class_of_api object_type_to_api object_type_of_api
    notification_to_api notification_of_api
api_codecs = (
  (λ x. ground arith, λ c x h. ground arith),
  (λ x. ground arith, λ c x h. ground arith),
  (λ x. ground arith, λ c x h. ground arith),
)

-- A permission level survives the way through the interface unless it is `DENY`, which comes back
-- as an error; and the codes for `i32` are ordered as the levels are.
permission-round_trip :
    (p q : DbPermissionLevel)
    → ((p ≢ DbPermissionLevel.deny) ↔ (permission_of_api (permission_to_api p) ≡ ok p))
      × (perm_ge p q ≡ leb (permission_to_i32 q) (permission_to_i32 p))
unfolding permission_of_api permission_to_api permission_to_i32 level
permission-round_trip p q = ((λ h. ground arith, λ h e. ground arith), ground arith)

-- Every label of the Postgres enum `ObjectStatus` is read back as a status, but for `UNAVAILABLE`,
-- which is refused.
object_status_of_label-labels :
    (l : String)
    → In l status_labels
    → (l ≡ "UNAVAILABLE") × (object_status_of_label l ≡ err (message "Unknown type"))
      ⊎ (l ≢ "UNAVAILABLE") × ((s : ObjectStatus) × (object_status_of_label l ≡ ok s))
unfolding object_status_of_label
object_status_of_label-labels l (inl e) =
    rw e
      (inr (ground (arith, eq_iff "INITIALIZING" "UNAVAILABLE"), (ObjectStatus.initializing, refl)))
object_status_of_label-labels l (inr (inl e)) =
    rw e (inr (ground (arith, eq_iff "VALIDATING" "UNAVAILABLE"), (ObjectStatus.validating, refl)))
object_status_of_label-labels l (inr (inr (inl e))) =
    rw e (inr (ground (arith, eq_iff "AVAILABLE" "UNAVAILABLE"), (ObjectStatus.available, refl)))
object_status_of_label-labels l (inr (inr (inr (inl e)))) = rw e (inl (refl, refl))
object_status_of_label-labels l (inr (inr (inr (inr (inl e))))) =
    rw e (inr (ground (arith, eq_iff "ERROR" "UNAVAILABLE"), (ObjectStatus.error, refl)))
object_status_of_label-labels l (inr (inr (inr (inr (inr (inl e)))))) =
    rw e (inr (ground (arith, eq_iff "DELETED" "UNAVAILABLE"), (ObjectStatus.deleted, refl)))
object_status_of_label-labels l (inr (inr (inr (inr (inr (inr h)))))) = absurd h

-- If `from_str` reads back the ids that `to_string` writes, then an object mapping is read back
-- from the resource id that it is written as.
mapping_of_resource_id-resource_id_of_mapping :
    (from_str : String → Result Error ℕ) (to_string : ℕ → String) (m : ObjectMapping ℕ)
    → ((id : ℕ) → from_str (to_string id) ≡ ok id)
    → mapping_of_resource_id from_str (resource_id_of_mapping to_string m) ≡ ok m
unfolding mapping_of_resource_id resource_id_of_mapping
mapping_of_resource_id-resource_id_of_mapping from_str to_string (ObjectMapping.project id) h =
    rw (h id)
mapping_of_resource_id-resource_id_of_mapping from_str to_string (ObjectMapping.collection id) h =
    rw (h id)
mapping_of_resource_id-resource_id_of_mapping from_str to_string (ObjectMapping.dataset id) h =
    rw (h id)
mapping_of_resource_id-resource_id_of_mapping from_str to_string (ObjectMapping.object id) h =
    rw (h id)
