-- ===== src/Evaluation/Model.antt =====
-- The messages of proto/feature and proto/user that evaluation reads and answers with.
use bucketeer.Prelude.{ℤ, ℕ, String, List, Bool}
use bucketeer.Feature.Model.{Variation}

-- `Data` is a map from attribute names to texts.
pub record User : Type 0 where
  pub id : String
  pub data_of : List (String × String)

pub data SegmentUserState : Type 0 where
  included excluded : SegmentUserState
  unknown : ℕ → SegmentUserState

pub record SegmentUser : Type 0 where
  pub id : String
  pub segment_id : String
  pub user_id : String
  pub state : SegmentUserState
  pub deleted : Bool

pub data ReasonType : Type 0 where
  target rule default client off_variation prerequisite : ReasonType

pub record Reason : Type 0 where
  pub type : ReasonType
  pub rule_id : String

pub record Evaluation : Type 0 where
  pub id : String
  pub feature_id : String
  pub feature_version : ℤ
  pub user_id : String
  pub variation_id : String
  pub variation : Variation
  pub reason : Reason
  pub variation_value : String

pub record UserEvaluations : Type 0 where
  pub id : String
  pub evaluations : List Evaluation
  pub created_at : ℤ
