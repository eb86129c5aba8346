-- ===== src/AutoOps/Webhook/Guarded.antt =====
-- The conditions of a webhook in pkg/autoops/webhookhandler/evaluation.go hold together, and do not
-- panic on plain values.
use bucketeer.Prelude.{
  String, List, [], ◌∷◌, Bool, true, false, Option, none, some, ◌≡◌, refl, if◌then◌else◌, All,
  Result, ok, err, panic, ◌>>=◌, Safe, Safe-bind,
}
use bucketeer.AutoOps.Model.{
  Condition, ConditionOperator, equal, not_equal, more_than, more_than_or_equal, less_than,
  less_than_or_equal, WebhookClause,
}
use bucketeer.AutoOps.Webhook.{
  Value, nil, boolean, number, text, array, object, other_type, WebhookError, Libraries, collect,
  only_result, filter_webhook_payload, convert_type, values_equal, ordered, apply_operator,
  compare_specified, evaluate_filtered, evaluate_condition, evaluate_conditions, evaluate_clause,
}

module _ {Float : Type 0} where
  -- A Boolean, a number or a string, if it is a value at all.
  abbrev pub Plain : Option (Value Float) → Type 0
  Plain none = Unit
  Plain (some (boolean b)) = Unit
  Plain (some (number x)) = Unit
  Plain (some (text s)) = Unit
  Plain (some nil) = ⊥
  Plain (some (array n)) = ⊥
  Plain (some (object n)) = ⊥
  Plain (some (other_type n)) = ⊥

  abbrev SameKind : Value Float → Value Float → Type 0
  SameKind (boolean b) (boolean c) = Unit
  SameKind (number x) (number y) = Unit
  SameKind (text s) (text t) = Unit
  SameKind v w = ⊥

  only_result-Safe : (r : Option (List (Value Float))) → Safe (λ _. Unit) (only_result r)
  unfolding only_result
  only_result-Safe none = tt
  only_result-Safe (some []) = tt
  only_result-Safe (some (v ∷ [])) = tt
  only_result-Safe (some (v ∷ w ∷ ws)) = tt

module _ {Float : Type 0} (lib : Libraries Float) where
  filter-Safe : (f : String) → Safe (λ _. Unit) (filter_webhook_payload lib f)
  unfolding filter_webhook_payload
  filter-Safe f = by_query (lib.query f)
    where
      by_query :
          (m : Option (List (Option (Value Float))))
          → Safe
              (λ _. Unit)
              (elim m [
                | none ↦ err WebhookError.filter_failed
                | some vs ↦ only_result (collect vs)
              ])
      by_query none = tt
      by_query (some vs) = only_result-Safe (collect vs)

  convert_type-Safe :
      (v w : Value Float) → Plain (some v) → Safe (SameKind v) (convert_type lib v w)
  unfolding convert_type
  convert_type-Safe (boolean b) (boolean c) h = tt
  convert_type-Safe (boolean b) v h = tt
  convert_type-Safe (number x) (number y) h = tt
  convert_type-Safe (number x) (text s) h = by_number (lib.parse s)
    where
      by_number :
          (m : Option Float)
          → Safe
              (SameKind (number x))
              (elim m [ none ↦ err WebhookError.conversion_failed | some y ↦ ok (number y) ])
      by_number none = tt
      by_number (some y) = tt
  convert_type-Safe (number x) v h = tt
  convert_type-Safe (text s) (text t) h = tt
  convert_type-Safe (text s) (number y) h = tt
  convert_type-Safe (text s) v h = tt
  convert_type-Safe v w h = absurd h

  values_equal-Safe : (v w : Value Float) → SameKind v w → Safe (λ _. Unit) (values_equal lib v w)
  unfolding values_equal
  values_equal-Safe (boolean true) (boolean c) h = tt
  values_equal-Safe (boolean false) (boolean c) h = tt
  values_equal-Safe (number x) (number y) h = tt
  values_equal-Safe (text s) (text t) h = tt
  values_equal-Safe v w h = absurd h

  ordered-Safe :
      (floats : Float → Float → Bool) (texts : String → String → Bool) (v w : Value Float)
      → Safe (λ _. Unit) (ordered lib floats texts v w)
  unfolding ordered
  ordered-Safe floats texts (number x) (number y) = tt
  ordered-Safe floats texts (text s) (text t) = tt
  ordered-Safe floats texts v w = tt

  apply_operator-Safe :
      (operator : ConditionOperator) (v w : Value Float)
      → SameKind v w
      → Safe (λ _. Unit) (apply_operator lib operator v w)
  unfolding apply_operator
  apply_operator-Safe equal v w h = values_equal-Safe v w h
  apply_operator-Safe not_equal v w h =
      Safe-bind (λ _. Unit) (λ _. Unit) (values_equal lib v w) _ (values_equal-Safe v w h)
        (λ _ _. tt)
  apply_operator-Safe more_than v w h = ordered-Safe _ _ v w
  apply_operator-Safe more_than_or_equal v w h = ordered-Safe _ _ v w
  apply_operator-Safe less_than v w h = ordered-Safe _ _ v w
  apply_operator-Safe less_than_or_equal v w h = ordered-Safe _ _ v w
  apply_operator-Safe (ConditionOperator.unknown n) v w h = tt

  compare_specified-Safe :
      (operator : ConditionOperator) (specified : Option (Value Float)) (w : Value Float)
      → Plain specified
      → Safe (λ _. Unit) (compare_specified lib operator specified w)
  unfolding compare_specified
  compare_specified-Safe operator none w h = tt
  compare_specified-Safe operator (some v) w h =
      Safe-bind (SameKind v) (λ _. Unit) (convert_type lib v w) _ (convert_type-Safe v w h)
        (λ x k. apply_operator-Safe operator v x k)

  evaluate_filtered-Safe :
      (c : Condition) (v : Value Float)
      → Plain (lib.unmarshal c.value)
      → Safe (λ _. Unit) (evaluate_filtered lib c v)
  unfolding evaluate_filtered
  evaluate_filtered-Safe c nil h = tt
  evaluate_filtered-Safe c v h = compare_specified-Safe c.operator (lib.unmarshal c.value) v h

  evaluate_condition-Safe :
      (c : Condition) → Plain (lib.unmarshal c.value) → Safe (λ _. Unit) (evaluate_condition lib c)
  unfolding evaluate_condition
  evaluate_condition-Safe c h =
      Safe-bind (λ _. Unit) (λ _. Unit) (filter_webhook_payload lib c.filter) _
        (filter-Safe c.filter) (λ v _. evaluate_filtered-Safe c v h)

  abbrev pub AllHold : List Condition → Type 0
  AllHold cs = All (λ c. evaluate_condition lib c ≡ ok true) cs

  -- The answer is whether all the conditions hold.
  abbrev pub Conjunction : List Condition → Bool → Type 0
  Conjunction cs b = (b ≡ true → AllHold cs) × (AllHold cs → b ≡ true)

  abbrev pub AllPlain : List Condition → Type 0
  AllPlain cs = All (λ c. Plain (lib.unmarshal c.value)) cs

  step-Conjunction :
      (c : Condition) (cs : List Condition) (m rest : Result WebhookError Bool)
      → evaluate_condition lib c ≡ m
      → Safe (λ _. Unit) m
      → Safe (Conjunction cs) rest
      → Safe (Conjunction (c ∷ cs)) (m >>= λ b. if b then rest else ok false)
  step-Conjunction c cs (ok true) (ok b) e s (f, g) = (λ h. (e, f h), λ (h, k). g k)
  step-Conjunction c cs (ok true) (err x) e s k = tt
  step-Conjunction c cs (ok true) panic e s k = k
  step-Conjunction c cs (ok false) rest e s k = (λ h. cc, λ (h, l). cc)
  step-Conjunction c cs (err x) rest e s k = tt
  step-Conjunction c cs panic rest e s k = s

  evaluate_conditions-Conjunction :
      (cs : List Condition) → AllPlain cs → Safe (Conjunction cs) (evaluate_conditions lib cs)
  unfolding evaluate_conditions
  evaluate_conditions-Conjunction [] h = (λ _. tt, λ _. refl)
  evaluate_conditions-Conjunction (c ∷ cs) (h, k) =
      step-Conjunction c cs (evaluate_condition lib c) (evaluate_conditions lib cs) refl
        (evaluate_condition-Safe c h) (evaluate_conditions-Conjunction cs k)

  -- Where the value of every condition is a Boolean, a number or a string, or no JSON at all, the
  -- evaluation of a clause does not panic, and an answer without an error is true exactly where every
  -- condition alone is evaluated to true.
  pub evaluate_clause-Conjunction :
      (clause : WebhookClause)
      → AllPlain clause.conditions
      → Safe (Conjunction clause.conditions) (evaluate_clause lib clause)
  unfolding evaluate_clause
  evaluate_clause-Conjunction clause h = by_conditions clause.conditions h
    where
      by_conditions :
          (cs : List Condition)
          → AllPlain cs
          → Safe (Conjunction cs) (elim cs [
            | [] ↦ err WebhookError.no_conditions
            | c ∷ rest ↦ evaluate_conditions lib (c ∷ rest)
          ])
      by_conditions [] k = tt
      by_conditions (c ∷ rest) k = evaluate_conditions-Conjunction (c ∷ rest) k
