-- ===== src/Tests/Samples.antt =====
-- Features, users and outside functions that the runs use.
use Prim.Native.Nat.{ℕ, zero, suc}
use bucketeer.Prelude.{
  ℤ, pos, negsuc, ◌+ℤ◌, ltb_ℤ, leb_ℤ, String, true, false, List, [], ◌∷◌, Option, none, some, leb,
  ltb,
}
use bucketeer.Feature.Model.{
  VariationType, Variation, Strategy, StrategyType, RolloutStrategy, Rule, Operator, Prerequisite,
  Feature,
}
use bucketeer.Feature.Variations.{Parsers}
use bucketeer.Evaluation.Model.{User}
use bucketeer.Evaluation.External.{External}
use bucketeer.Command.Model.{EventBody, Handler, World}

abbrev pub on : Variation
on = record { id = "A"; value = "true"; name = "on"; description = "" }

abbrev pub off : Variation
off = record { id = "B"; value = "false"; name = "off"; description = "" }

abbrev pub fixed_on : Option Strategy
fixed_on = some (record {
  type = StrategyType.fixed;
  fixed_strategy = some (record { variation = "A" });
  rollout_strategy = none;
})

abbrev pub all_on : RolloutStrategy
all_on = record {
  variations =
      record { variation = "A"; weight = pos 100000 }
      ∷ record { variation = "B"; weight = pos 0 }
      ∷ [];
}

abbrev pub beta_strategy : Strategy
beta_strategy = record {
  type = StrategyType.rollout;
  fixed_strategy = none;
  rollout_strategy = some all_on;
}

abbrev pub beta_rule : Rule
beta_rule = record {
  id = "r";
  strategy = some beta_strategy;
  clauses =
      record { id = "c"; attribute = "plan"; operator = Operator.equals; values = "beta" ∷ [] }
      ∷ [];
}

abbrev pub toggle_with : String → List Rule → List Prerequisite → Feature
toggle_with id rules prerequisites = record {
  id = id;
  name = "toggle";
  description = "";
  enabled = true;
  deleted = false;
  evaluation_undelayable = false;
  ttl = pos 0;
  version = pos 1;
  created_at = pos 1;
  updated_at = pos 1;
  variations = on ∷ off ∷ [];
  targets =
      record { variation = "A"; users = "u" ∷ [] } ∷ record { variation = "B"; users = [] } ∷ [];
  rules = rules;
  default_strategy = fixed_on;
  off_variation = "B";
  tags = "web" ∷ [];
  last_used_info = none;
  maintainer = "m";
  variation_type = VariationType.boolean;
  archived = false;
  prerequisites = prerequisites;
  sampling_seed = "";
}

abbrev pub toggle : Feature
toggle = toggle_with "f" (beta_rule ∷ []) []

abbrev pub needs_toggle : Feature
needs_toggle = toggle_with "g" [] (record { feature_id = "f"; variation_id = "A" } ∷ [])

abbrev pub parsers : Parsers
parsers = record { is_float = λ _. true; is_json_object = λ _. true }

abbrev pub digit : ℕ → String
digit zero = "i0"
digit (suc zero) = "i1"
digit (suc (suc n)) = "i"

abbrev pub world : World EventBody
world = record {
  new_event = λ id version body. some body;
  new_uuid = λ n. some (digit n);
  trim_space = λ s. s;
}

abbrev pub handler : Handler EventBody
handler = record { feature = toggle; events = [] }

abbrev pub beta_user : User
beta_user = record { id = "w"; data_of = ("plan", "beta") ∷ [] }

-- Integers in place of floats; a quotient keeps its sign only.
abbrev pub sign : ℤ → ℤ
sign (pos zero) = pos 0
sign (pos (suc n)) = pos 1
sign (negsuc n) = negsuc 0

abbrev pub external : External
external = record {
  Float64 = ℤ;
  parse_float = λ s. none;
  float64 = λ i. i;
  add = λ a b. a +ℤ b;
  div = λ a b. sign a;
  float_lt = ltb_ℤ;
  float_le = leb_ℤ;
  Semver = ℕ;
  parse_semver = λ s. none;
  semver_gt = λ a b. ltb b a;
  semver_gte = λ a b. leb b a;
  semver_lt = λ a b. ltb a b;
  semver_lte = λ a b. leb a b;
  md5_hex = λ s. s;
  parse_hex = λ s. some 0;
  fnv64a = λ s. s;
  format_int = λ i. "0";
}
