-- ===== src/Segment/Model.antt =====
-- The message Segment of proto/feature/segment.proto.
use bucketeer.Prelude.{ℕ, ℤ, String, List, Bool}
use bucketeer.Feature.Model.{Rule}

pub data Status : Type 0 where
  initial uploading succeeded failed_upload : Status
  unknown : ℕ → Status

pub record Segment : Type 0 where
  pub id : String
  pub name : String
  pub description : String
  pub rules : List Rule
  pub created_at : ℤ
  pub updated_at : ℤ
  pub version : ℤ
  pub deleted : Bool
  pub included_user_count : ℤ
  pub excluded_user_count : ℤ
  pub status : Status
  pub is_in_use_status : Bool
