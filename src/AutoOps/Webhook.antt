-- ===== src/AutoOps/Webhook.antt =====
-- The evaluation of the conditions of a webhook: pkg/autoops/webhookhandler/evaluation.go. The
-- queries of gojq, encoding/json and the floats are parameters.
pub mod Guarded
use bucketeer.Prelude.{
  ℕ, String, List, [], ◌∷◌, ◌++◌, Bool, true, false, not, ◌&&◌, ◌||◌, Option, none, some, ltb, eqb,
  ◌==◌, if◌then◌else◌, Result, ok, err, panic, ◌>>=◌,
}
use bucketeer.Api.Identifiers.{char_codes}
use bucketeer.AutoOps.Model.{
  Condition, ConditionOperator, equal, not_equal, more_than, more_than_or_equal, less_than,
  less_than_or_equal, WebhookClause,
}

-- A dynamic value: nil, the types that a JSON document has, and the others of gojq.
pub data Value (Float : Type 0) : Type 0 where
  nil : Value Float
  boolean : Bool → Value Float
  number : Float → Value Float
  text : String → Value Float
  array object other_type : ℕ → Value Float

pub data WebhookError : Type 0 where
  no_conditions filter_failed multiple_values value_invalid conversion_failed : WebhookError
  unsupported_type not_ordered unknown_operator : WebhookError

-- The results of a query in turn; `none` is an error among them.
pub record Libraries (Float : Type 0) : Type 0 where
  pub query : String → Option (List (Option (Value Float)))
  pub unmarshal : String → Option (Value Float)
  pub format : Float → String
  pub parse : String → Option Float
  pub float_lt : Float → Float → Bool
  pub float_le : Float → Float → Bool
  pub float_eq : Float → Float → Bool
  pub other_eq : ℕ → ℕ → Bool

-- The order of strings is that of their characters.
unfoldable pub codes_lt : List ℕ → List ℕ → Bool
codes_lt xs [] = false
codes_lt [] (y ∷ ys) = true
codes_lt (x ∷ xs) (y ∷ ys) = ltb x y || eqb x y && codes_lt xs ys

unfoldable pub text_lt : String → String → Bool
text_lt s t = codes_lt (char_codes s) (char_codes t)

module _ {Float : Type 0} where
  -- The loop over the results: nil is passed over, and an error ends it.
  unfoldable pub collect : List (Option (Value Float)) → Option (List (Value Float))
  collect [] = some []
  collect (none ∷ vs) = none
  collect (some nil ∷ vs) = collect vs
  collect (some v ∷ vs) = elim (collect vs) [ none ↦ none | some ws ↦ some (v ∷ ws) ]

  unfoldable pub only_result : Option (List (Value Float)) → Result WebhookError (Value Float)
  only_result none = err filter_failed
  only_result (some []) = ok nil
  only_result (some (v ∷ [])) = ok v
  only_result (some (v ∷ w ∷ ws)) = err multiple_values

module _ {Float : Type 0} (lib : Libraries Float) where
  unfoldable pub filter_webhook_payload : String → Result WebhookError (Value Float)
  filter_webhook_payload filter = elim (lib.query filter) [
    | none ↦ err filter_failed
    | some vs ↦ only_result (collect vs)
  ]

  -- To the type of the first value, which is one of a JSON document. The type of nil has no kind:
  -- the method is called on nil.
  unfoldable pub convert_type : Value Float → Value Float → Result WebhookError (Value Float)
  convert_type nil v = panic
  convert_type (boolean b) (boolean c) = ok (boolean c)
  convert_type (boolean b) v = err unsupported_type
  convert_type (number x) (number y) = ok (number y)
  convert_type (number x) (text s) = elim (lib.parse s) [
    | none ↦ err conversion_failed
    | some y ↦ ok (number y)
  ]
  convert_type (number x) v = err conversion_failed
  convert_type (text s) (text t) = ok (text t)
  convert_type (text s) (number y) = ok (text (lib.format y))
  convert_type (text s) v = err conversion_failed
  convert_type (array m) (array n) = ok (array n)
  convert_type (array m) v = err unsupported_type
  convert_type (object m) (object n) = ok (object n)
  convert_type (object m) v = err unsupported_type
  convert_type (other_type m) v = err unsupported_type

  -- `==` of two dynamic values panics on slices and maps.
  unfoldable pub values_equal : Value Float → Value Float → Result WebhookError Bool
  values_equal nil nil = ok true
  values_equal (boolean true) (boolean c) = ok c
  values_equal (boolean false) (boolean c) = ok (not c)
  values_equal (number x) (number y) = ok (lib.float_eq x y)
  values_equal (text s) (text t) = ok (s == t)
  values_equal (array m) (array n) = panic
  values_equal (object m) (object n) = panic
  values_equal (other_type m) (other_type n) = ok (lib.other_eq m n)
  values_equal v w = ok false

  -- An order on the numbers or on the strings.
  unfoldable pub ordered :
      (Float → Float → Bool)
      → (String → String → Bool)
      → Value Float
      → Value Float
      → Result WebhookError Bool
  ordered floats texts (number x) (number y) = ok (floats x y)
  ordered floats texts (text s) (text t) = ok (texts s t)
  ordered floats texts v w = err not_ordered

  unfoldable pub apply_operator :
      ConditionOperator → (specified filtered : Value Float) → Result WebhookError Bool
  apply_operator equal v w = values_equal v w
  apply_operator not_equal v w = values_equal v w >>= λ b. ok (not b)
  apply_operator more_than v w = ordered lib.float_lt text_lt v w
  apply_operator more_than_or_equal v w = ordered lib.float_le (λ s t. not (text_lt t s)) v w
  apply_operator less_than v w = ordered (λ x y. lib.float_lt y x) (λ s t. text_lt t s) v w
  apply_operator less_than_or_equal v w =
      ordered (λ x y. lib.float_le y x) (λ s t. not (text_lt s t)) v w
  apply_operator (ConditionOperator.unknown n) v w = err unknown_operator

  -- The condition on a result that is not nil, given what `json.Unmarshal` answers.
  unfoldable pub compare_specified :
      ConditionOperator → Option (Value Float) → Value Float → Result WebhookError Bool
  compare_specified operator none filtered = err value_invalid
  compare_specified operator (some specified) filtered = do
    converted ← convert_type specified filtered
    apply_operator operator specified converted

  unfoldable pub evaluate_filtered : Condition → Value Float → Result WebhookError Bool
  evaluate_filtered c nil = ok false
  evaluate_filtered c v = compare_specified c.operator (lib.unmarshal c.value) v

  unfoldable pub evaluate_condition : Condition → Result WebhookError Bool
  evaluate_condition c = filter_webhook_payload c.filter >>= evaluate_filtered c

  -- The loop over the conditions: it ends with the first that fails or does not hold.
  unfoldable pub evaluate_conditions : List Condition → Result WebhookError Bool
  evaluate_conditions [] = ok true
  evaluate_conditions (c ∷ cs) = do
    b ← evaluate_condition c
    let rest = evaluate_conditions cs
    if b then rest else ok false

  unfoldable pub evaluate_clause : WebhookClause → Result WebhookError Bool
  evaluate_clause clause = elim clause.conditions [
    | [] ↦ err no_conditions
    | c ∷ cs ↦ evaluate_conditions (c ∷ cs)
  ]
