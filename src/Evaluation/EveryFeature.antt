-- ===== src/Evaluation/EveryFeature.antt =====
-- `EvaluateFeatures` of pkg/feature/domain/evaluation.go on consistent features.
use mathlib.Core.List.{Memᴰ, append_assoc, append-nil}
use bucketeer.Prelude.{
  ℕ, ℤ, String, Bool, true, false, not, List, [], ◌∷◌, ◌++◌, map, Option, is_some, ◌≡◌, ◌∙◌, sym,
  refl, ap, if◌then◌else◌, ◌==◌, contains, contains-append, arith, All, All-map, map-append_one,
  Safe-ok, Returns, Returns-map, Returns-ok, ok, if_ind,
}
use bucketeer.Feature.Model.{Feature, Variation}
use bucketeer.Feature.WellFormed.{WellFormed}
use bucketeer.Evaluation.Model.{User, SegmentUser, Evaluation, UserEvaluations, Reason}
use bucketeer.Evaluation.External.{External}
use bucketeer.Evaluation.Rollout.{FloatLaws}
use bucketeer.Evaluation.Assign.{flag_at}
use bucketeer.Evaluation.Assignment.{AllCovered, assign_user_total}
use bucketeer.Evaluation.Order.{topological_sort}
use bucketeer.Evaluation.Order.Placed.{Ordered}
use bucketeer.Evaluation.Order.Total.{IsSortOf, topological_sort-IsSortOf}
use bucketeer.Evaluation.Order.Acyclic.{Ranked, Closed, topological_sort-total}
use bucketeer.Evaluation.Evaluate.{
  user_evaluations_id, evaluate_sorted, evaluate_features, new_evaluation, collect_segment_users,
  list_segment_ids,
}

-- The ids of the features that carry a tag.
abbrev pub tagged_ids : String → List Feature → List String
tagged_ids tag [] = []
tagged_ids tag (f ∷ fs) =
    if contains tag f.tags then f.id ∷ tagged_ids tag fs else tagged_ids tag fs

abbrev pub evaluated_id : Evaluation → String
evaluated_id e = e.feature_id

abbrev keep : Bool → Evaluation → List Evaluation → List Evaluation
keep tagged e acc = if not tagged then acc else acc ++ e ∷ []

keep-Answers :
    (tagged : Bool) (e : Evaluation) (acc : List Evaluation) (ids : List String)
    (es : List Evaluation)
    → map evaluated_id es ≡ map evaluated_id (keep tagged e acc) ++ ids
    → map evaluated_id es ≡ map evaluated_id acc ++ (if tagged then e.feature_id ∷ ids else ids)
keep-Answers true e acc ids es same =
    same
    ∙ ap (λ l. l ++ ids) (map-append_one evaluated_id acc e)
    ∙ append_assoc (map evaluated_id acc) (e.feature_id ∷ []) ids
keep-Answers false e acc ids es same = same

-- Every feature of `seen` has been given a variation.
abbrev Flagged : List String → List (String × String) → Type 0
Flagged seen flags = (id : String) → contains id seen ≡ true → is_some (flag_at id flags) ≡ true

Flagged-append :
    (seen : List String) (flags : List (String × String)) (id v : String)
    → Flagged seen flags
    → Flagged (seen ++ id ∷ []) ((id, v) ∷ flags)
unfolding flag_at contains
Flagged-append seen flags id v h j e =
    if_ind (λ (o : Option String). is_some o ≡ true) (id == j) (λ _. refl)
      (λ other. let c = contains-append j seen (id ∷ []) in h j (ground (arith, e, other)))

module _ (x : External) (laws : FloatLaws x) (user : User) (m : List (String × List SegmentUser))
    (tag : String) where
  -- The evaluations of the features `fs`, behind those that are there.
  abbrev Answers : List Evaluation → List Feature → List Evaluation → Type 0
  Answers acc fs es = map evaluated_id es ≡ map evaluated_id acc ++ tagged_ids tag fs

  -- A consistent feature whose rollouts reach the user's bucket.
  abbrev pub Assignable : Feature → Type 0
  Assignable f = WellFormed f × AllCovered x laws f user

  evaluate_sorted-Returns :
      (seen : List String) (fs : List Feature) (flags : List (String × String))
      (acc : List Evaluation)
      → Ordered seen fs
      → Flagged seen flags
      → All Assignable fs
      → Returns (Answers acc fs) (evaluate_sorted x fs user m tag flags acc)
  unfolding evaluate_sorted new_evaluation
  evaluate_sorted-Returns seen [] flags acc o h a = sym (append-nil (map evaluated_id acc))
  evaluate_sorted-Returns seen (f ∷ fs) flags acc o h a =
      let us = collect_segment_users (list_segment_ids f.rules []) m in
      let (given, is, own) =
        assign_user_total x laws f user us flags a.0.0
          (All-map _ _ f.prerequisites (λ p e. h p.feature_id e) o.0) a.0.1 in
      rw is (
        rest given.0 given.1 (
          evaluate_sorted-Returns (seen ++ f.id ∷ []) fs _ _ o.1
            (Flagged-append seen flags f.id given.1.id h) a.1))
    where
      rest :
          (reason : Reason) (v : Variation)
          → let acc' = keep (contains tag f.tags) (new_evaluation x f user reason v) acc in
            let run = evaluate_sorted x fs user m tag ((f.id, v.id) ∷ flags) acc' in
            Returns (Answers acc' fs) run → Returns (Answers acc (f ∷ fs)) run
      rest reason v r =
          Returns-map _ _ _
            (λ es.
              keep-Answers (contains tag f.tags) (new_evaluation x f user reason v) acc
                (tagged_ids tag fs) es)
            r

  -- For floats that obey `FloatLaws`, and features without a cycle whose prerequisites are all
  -- among them, each consistent and with rollouts that reach the user's bucket, `EvaluateFeatures`
  -- succeeds. It answers one evaluation for each feature placed that carries the tag, in an order
  -- that puts prerequisites first.
  pub evaluate_features-total :
      (rank : String → ℕ) (fs : List Feature) (now : ℤ)
      → Ranked rank fs
      → Closed fs
      → ((f : Feature) → Memᴰ f fs → Assignable f)
      → (sorted : List Feature) × IsSortOf fs sorted
        × ((answer : UserEvaluations) × (evaluate_features x fs user m tag now ≡ ok answer)
            × (map evaluated_id answer.evaluations ≡ tagged_ids tag sorted))
  unfolding evaluate_features contains
  evaluate_features-total rank fs now ranked closed assignable =
      let (sorted, is) = topological_sort-total rank fs ranked closed in
      let order =
        Safe-ok (IsSortOf fs) (topological_sort fs) sorted (topological_sort-IsSortOf fs) is in
      let (es, evaluated, same) =
        Returns-ok (Answers [] sorted) (evaluate_sorted x sorted user m tag [] []) (
          evaluate_sorted-Returns [] sorted [] [] order.ordered (λ id e. cc)
            (All-map _ _ sorted assignable order.given)) in
      (
        sorted,
        order,
        (
          record {
            id = user_evaluations_id x user.id user.data_of fs;
            evaluations = es;
            created_at = now;
          },
          rw (is, evaluated) refl,
          same,
        ),
      )
