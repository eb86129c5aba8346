-- ===== src/Tests/AutoOperations.antt =====
-- Automatic operations: a rule with a clause of two types, and a deletion.
use bucketeer.Prelude.{
  ap, ℕ, zero, suc, sym, ◌∙◌, arith, pos, String, [], ◌∷◌, true, false, some, ◌==◌, ◌≡◌, refl,
  contains, Returns,
}
use bucketeer.Feature.WellFormed.{Unique}
use bucketeer.AutoOps.Model.{
  OpsType, RateOperator, OpsEventRateClause, DatetimeClause, WebhookClause, Clause, AutoOpsRule,
  Unmarshaled, message, other_type, Packings,
}
use bucketeer.AutoOps.Operations.{
  edited, delete_clause, new_auto_ops_rule, extract_rates, extract_rates_from, insert,
}
use bucketeer.Segment.Fresh.{Distinct}
use bucketeer.AutoOps.Deletion.{without, delete_clause-without}
use bucketeer.AutoOps.Extraction.{PackingLaws, GivesBack, new_auto_ops_rule-GivesBack}

-- Packed messages that keep their type.
pub data Packed : Type 0 where
  of_rate : OpsEventRateClause ℕ → Packed
  of_datetime : DatetimeClause → Packed
  of_webhook : WebhookClause → Packed

abbrev to_rate : Packed → Unmarshaled (OpsEventRateClause ℕ)
to_rate (of_rate c) = message c
to_rate (of_datetime c) = other_type
to_rate (of_webhook c) = other_type

abbrev to_datetime : Packed → Unmarshaled DatetimeClause
to_datetime (of_rate c) = other_type
to_datetime (of_datetime c) = message c
to_datetime (of_webhook c) = other_type

abbrev to_webhook : Packed → Unmarshaled WebhookClause
to_webhook (of_rate c) = other_type
to_webhook (of_datetime c) = other_type
to_webhook (of_webhook c) = message c

abbrev pub packings : Packings Packed ℕ
packings = record {
  rate = record { marshal = λ c. some (of_rate c); unmarshal = to_rate };
  datetime = record { marshal = λ c. some (of_datetime c); unmarshal = to_datetime };
  webhook = record { marshal = λ c. some (of_webhook c); unmarshal = to_webhook };
}

some_eq : {A : Type 0} {x y : A} → some x ≡ some y → y ≡ x
some_eq e = cc

packings-laws : PackingLaws packings
packings-laws = record {
  rate = λ c a e. rw (some_eq e) refl;
  datetime = λ c a e. rw (some_eq e) refl;
  webhook = λ c a e. rw (some_eq e) refl;
  rate_datetime = λ c a e. rw (some_eq e) refl;
  rate_webhook = λ c a e. rw (some_eq e) refl;
  datetime_rate = λ c a e. rw (some_eq e) refl;
  datetime_webhook = λ c a e. rw (some_eq e) refl;
  webhook_rate = λ c a e. rw (some_eq e) refl;
  webhook_datetime = λ c a e. rw (some_eq e) refl;
}

abbrev at_noon : DatetimeClause
at_noon = record { time = pos 12 }

abbrev on_alert : WebhookClause
on_alert = record { webhook_id = "w"; conditions = [] }

-- A source of ids, each with one dash more than the one before.
abbrev dashes : ℕ → String
dashes zero = ""
dashes (suc n) = String.◌∷◌ "-" (dashes n)

dashes-injective : (i j : ℕ) → dashes i ≡ dashes j → i ≡ j
dashes-injective zero zero e = refl
dashes-injective zero (suc j) e = cc
dashes-injective (suc i) zero e = cc
dashes-injective (suc i) (suc j) e = ap suc (dashes-injective i j (cc))

ids-Distinct : Distinct (λ n. some (dashes n))
ids-Distinct i j id e f = dashes-injective i j (sym (some_eq e) ∙ some_eq f)

abbrev at_half : OpsEventRateClause ℕ
at_half = record {
  variation_id = "A";
  goal_id = "g";
  min_count = pos 10;
  threshold_rate = 50;
  operator = RateOperator.greater_or_equal;
}

new_auto_ops_rule-GivesBack_example :
    Returns (GivesBack packings (at_half ∷ []) (at_noon ∷ []) (on_alert ∷ [])) (
      new_auto_ops_rule packings
        (λ n. some (dashes n))
        "f"
        OpsType.enable_feature
        (at_half ∷ [])
        (at_noon ∷ [])
        (on_alert ∷ [])
        (pos 1))
new_auto_ops_rule-GivesBack_example =
    new_auto_ops_rule-GivesBack packings packings-laws (λ n. some (dashes n)) (pos 1)
      (λ n. (dashes n, refl)) ids-Distinct (λ c. (of_rate c, refl)) (λ c. (of_datetime c, refl))
      (λ c. (of_webhook c, refl)) "f" OpsType.enable_feature (at_half ∷ []) (at_noon ∷ [])
      (on_alert ∷ []) (omega arith)

-- A later rate clause takes the place of an earlier one with its id.
rate_replaced :
    extract_rates packings.rate (
      record { id = "c"; clause = of_rate at_half }
      ∷ record { id = "c"; clause = of_rate (record at_half { min_count = pos 20 }) }
      ∷ [])
    ≡ some (("c", record at_half { min_count = pos 20 }) ∷ [])
unfolding extract_rates extract_rates_from insert ◌==◌
rate_replaced = refl

abbrev clause_at : String → Clause Packed
clause_at id = record { id = id; clause = of_datetime at_noon }

abbrev pub two_clauses : AutoOpsRule Packed
two_clauses = record {
  id = "a";
  feature_id = "f";
  ops_type = OpsType.enable_feature;
  clauses = clause_at "c" ∷ clause_at "d" ∷ [];
  triggered_at = pos 5;
  created_at = pos 1;
  updated_at = pos 5;
  deleted = false;
}

two_clauses-Unique : Unique ("c" ∷ "d" ∷ [])
unfolding ◌==◌ contains
two_clauses-Unique = (refl, (refl, tt))

c_there : contains "c" ("c" ∷ "d" ∷ []) ≡ true
unfolding ◌==◌ contains
c_there = refl

delete_clause-without_example :
    delete_clause "c" (pos 9) two_clauses
    ≡ edited (record two_clauses {
      clauses = without "c" two_clauses.clauses;
      updated_at = pos 9;
      triggered_at = pos 0;
    })
delete_clause-without_example =
    delete_clause-without "c" (pos 9) two_clauses two_clauses-Unique c_there (omega arith)
