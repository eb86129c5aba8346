-- ===== src/AutoOps/Model.antt =====
-- The messages of proto/autoops/auto_ops_rule.proto and clause.proto. A clause holds a
-- google.protobuf.Any, whose marshalling is code of another library: a parameter.
use bucketeer.Prelude.{ℕ, ℤ, String, List, Bool, Option}

pub data OpsType : Type 0 where
  enable_feature disable_feature : OpsType
  unknown : ℕ → OpsType

pub data RateOperator : Type 0 where
  greater_or_equal less_or_equal : RateOperator
  unknown : ℕ → RateOperator

pub data ConditionOperator : Type 0 where
  equal not_equal more_than more_than_or_equal less_than less_than_or_equal : ConditionOperator
  unknown : ℕ → ConditionOperator

pub record OpsEventRateClause (Float : Type 0) : Type 0 where
  pub variation_id : String
  pub goal_id : String
  pub min_count : ℤ
  pub threshold_rate : Float
  pub operator : RateOperator

pub record DatetimeClause : Type 0 where
  pub time : ℤ

pub record Condition : Type 0 where
  pub filter : String
  pub value : String
  pub operator : ConditionOperator

pub record WebhookClause : Type 0 where
  pub webhook_id : String
  pub conditions : List Condition

pub record Clause (Any : Type 0) : Type 0 where
  pub id : String
  pub clause : Any

pub record AutoOpsRule (Any : Type 0) : Type 0 where
  pub id : String
  pub feature_id : String
  pub ops_type : OpsType
  pub clauses : List (Clause Any)
  pub triggered_at : ℤ
  pub created_at : ℤ
  pub updated_at : ℤ
  pub deleted : Bool

pub data AutoOpsError : Type 0 where
  clause_not_found clause_empty uuid_error marshal_error : AutoOpsError

-- What `ptypes.Is` and `ptypes.UnmarshalAny` find: a message of the type, one of another type, or
-- an error.
pub data Unmarshaled (A : Type 0) : Type 0 where
  message : A → Unmarshaled A
  other_type unmarshal_error : Unmarshaled A

-- A type of message in an Any; `none` is the error of `ptypes.MarshalAny`.
pub record Packing (Any A : Type 0) : Type 0 where
  pub marshal : A → Option Any
  pub unmarshal : Any → Unmarshaled A

pub record Packings (Any Float : Type 0) : Type 0 where
  pub rate : Packing Any (OpsEventRateClause Float)
  pub datetime : Packing Any DatetimeClause
  pub webhook : Packing Any WebhookClause
