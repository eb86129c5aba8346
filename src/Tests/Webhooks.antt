-- ===== src/Tests/Webhooks.antt =====
-- A webhook's conditions on a payload with one string and one number.
use bucketeer.Prelude.{
  ℕ, String, List, [], ◌∷◌, true, Option, none, some, ltb, leb, eqb, ◌==◌, ◌≡◌, refl, ok, panic,
  Safe, if◌then◌else◌,
}
use bucketeer.AutoOps.Model.{equal, more_than, WebhookClause}
use bucketeer.AutoOps.Webhook
use bucketeer.AutoOps.Webhook.{
  Value, nil, number, text, Libraries, evaluate_clause, text_lt, codes_lt,
}
use bucketeer.AutoOps.Webhook.Guarded.{AllPlain, Conjunction, evaluate_clause-Conjunction}

abbrev payload : String → Option (List (Option (Value ℕ)))
payload filter =
    if filter == ".level"
    then some (some (text "error") ∷ [])
    else if filter == ".count"
    then some (some nil ∷ some (number 5) ∷ [])
    else some []

abbrev document : String → Option (Value ℕ)
document value =
    if value == "'error'"
    then some (text "error")
    else if value == "3"
    then some (number 3)
    else if value == "null"
    then some nil
    else none

abbrev libraries : Libraries ℕ
libraries = record {
  query = payload;
  unmarshal = document;
  format = λ n. "";
  parse = λ s. none;
  float_lt = ltb;
  float_le = leb;
  float_eq = eqb;
  other_eq = eqb;
}

abbrev on_errors : WebhookClause
on_errors = record {
  webhook_id = "w";
  conditions =
      record { filter = ".level"; value = "'error'"; operator = equal }
      ∷ record { filter = ".count"; value = "3"; operator = more_than }
      ∷ [];
}

on_errors-AllPlain : AllPlain libraries on_errors.conditions
unfolding ◌==◌
on_errors-AllPlain = (tt, (tt, tt))

evaluate_clause-Conjunction_example :
    Safe (Conjunction libraries on_errors.conditions) (evaluate_clause libraries on_errors)
evaluate_clause-Conjunction_example =
    evaluate_clause-Conjunction libraries on_errors on_errors-AllPlain

on_errors_hold : evaluate_clause libraries on_errors ≡ ok true
unfolding evaluate_clause Webhook.evaluate_conditions Webhook.evaluate_condition
    Webhook.filter_webhook_payload Webhook.only_result Webhook.collect Webhook.evaluate_filtered
    Webhook.compare_specified Webhook.convert_type Webhook.apply_operator Webhook.values_equal
    Webhook.ordered ◌==◌
on_errors_hold = refl

-- A condition whose value is null panics on any result.
null_panics :
    evaluate_clause libraries (record {
      webhook_id = "w";
      conditions = record { filter = ".level"; value = "null"; operator = equal } ∷ [];
    })
    ≡ panic
unfolding evaluate_clause Webhook.evaluate_conditions Webhook.evaluate_condition
    Webhook.filter_webhook_payload Webhook.only_result Webhook.collect Webhook.evaluate_filtered
    Webhook.compare_specified Webhook.convert_type ◌==◌
null_panics = refl
