-- ===== src/Api/Model.antt =====
-- The statuses that pkg/feature/api answers, and the request that creates a feature.
use bucketeer.Prelude.{ℤ, String, List, Option}
use bucketeer.Feature.Model.{Variation}

-- `localizedError(status…, locale)` for each status.
pub data ApiError : Type 0 where
  missing_command missing_id invalid_id missing_name missing_feature_variations : ApiError
  missing_feature_tags missing_default_on_variation invalid_default_on_variation : ApiError
  missing_default_off_variation invalid_default_off_variation : ApiError
  missing_rule_id incorrect_uuid_format missing_rule_strategy unknown_strategy : ApiError
  missing_fixed_strategy missing_rollout_strategy missing_variation_id : ApiError
  different_variations_size incorrect_variation_weight exceeded_max_variation_weight : ApiError
  invalid_prerequisite invalid_variation_id cycle_exists internal : ApiError
  invalid_changing_variation invalid_archive : ApiError

-- The fields of CreateFeatureCommand that are checked; an index is a message that may be missing.
pub record CreateFeature : Type 0 where
  pub id : String
  pub name : String
  pub variations : List Variation
  pub tags : List String
  pub on_index : Option ℤ
  pub off_index : Option ℤ
