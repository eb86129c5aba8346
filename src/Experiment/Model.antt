-- ===== src/Experiment/Model.antt =====
-- The message of proto/experiment/experiment.proto with the errors of
-- pkg/experiment/domain/experiment.go.
use bucketeer.Prelude.{ℕ, ℤ, String, List, Bool}
use bucketeer.Feature.Model.{Variation}

pub data Status : Type 0 where
  waiting running stopped force_stopped : Status
  unknown : ℕ → Status

pub record Experiment : Type 0 where
  pub id : String
  pub goal_id : String
  pub feature_id : String
  pub feature_version : ℤ
  pub variations : List Variation
  pub start_at : ℤ
  pub stop_at : ℤ
  pub stopped : Bool
  pub stopped_at : ℤ
  pub created_at : ℤ
  pub updated_at : ℤ
  pub deleted : Bool
  pub goal_ids : List String
  pub name : String
  pub description : String
  pub base_variation_id : String
  pub status : Status
  pub maintainer : String
  pub archived : Bool

pub data ExperimentError : Type 0 where
  before_start before_stop status_invalid already_stopped : ExperimentError
  start_is_after_stop stop_is_before_start stop_is_before_now : ExperimentError
  uuid_error : ExperimentError
