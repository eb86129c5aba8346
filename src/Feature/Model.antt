-- ===== src/Feature/Model.antt =====
-- The messages of proto/feature/*.proto that pkg/feature/domain works on, and its errors.
-- A pointer to a message that the code may find nil is an `Option`. Enumerations are open, as in
-- proto3: `unknown n` is a number with no name. int32 and int64 fields are integers.
use bucketeer.Prelude.{ℤ, ℕ, String, Bool, List, Option}

pub data Error : Type 0 where
  clause_not_found default_strategy_not_found clause_already_exists : Error
  rule_must_have_at_least_one_clause clause_must_have_at_least_one_value : Error
  rule_already_exists rule_not_found target_not_found value_not_found : Error
  variation_in_use variation_not_found variation_type_unmatched : Error
  tags_must_have_at_least_one_tag unsupported_strategy feature_not_found : Error
  prerequisite_variation_not_found cycle_exists prerequisite_not_found : Error
  already_enabled already_disabled last_used_info_not_found : Error
  -- Errors of the packages that the code calls (uuid, strconv).
  uuid_error parse_error : Error

pub data VariationType : Type 0 where
  string boolean number json : VariationType
  unknown : ℕ → VariationType

pub record Variation : Type 0 where
  pub id : String
  pub value : String
  pub name : String
  pub description : String

pub record Target : Type 0 where
  pub variation : String
  pub users : List String

pub record FixedStrategy : Type 0 where
  pub variation : String

pub record RolloutVariation : Type 0 where
  pub variation : String
  pub weight : ℤ

pub record RolloutStrategy : Type 0 where
  pub variations : List RolloutVariation

pub data StrategyType : Type 0 where
  fixed rollout : StrategyType
  unknown : ℕ → StrategyType

pub record Strategy : Type 0 where
  pub type : StrategyType
  pub fixed_strategy : Option FixedStrategy
  pub rollout_strategy : Option RolloutStrategy

pub data Operator : Type 0 where
  equals in_values ends_with starts_with segment greater greater_or_equal : Operator
  less less_or_equal before after : Operator
  unknown : ℕ → Operator

pub record Clause : Type 0 where
  pub id : String
  pub attribute : String
  pub operator : Operator
  pub values : List String

pub record Rule : Type 0 where
  pub id : String
  pub strategy : Option Strategy
  pub clauses : List Clause

pub record Prerequisite : Type 0 where
  pub feature_id : String
  pub variation_id : String

pub record FeatureLastUsedInfo : Type 0 where
  pub feature_id : String
  pub version : ℤ
  pub last_used_at : ℤ
  pub created_at : ℤ
  pub client_oldest_version : String
  pub client_latest_version : String

pub record Feature : Type 0 where
  pub id : String
  pub name : String
  pub description : String
  pub enabled : Bool
  pub deleted : Bool
  pub evaluation_undelayable : Bool
  pub ttl : ℤ
  pub version : ℤ
  pub created_at : ℤ
  pub updated_at : ℤ
  pub variations : List Variation
  pub targets : List Target
  pub rules : List Rule
  pub default_strategy : Option Strategy
  pub off_variation : String
  pub tags : List String
  pub last_used_info : Option FeatureLastUsedInfo
  pub maintainer : String
  pub variation_type : VariationType
  pub archived : Bool
  pub prerequisites : List Prerequisite
  pub sampling_seed : String
