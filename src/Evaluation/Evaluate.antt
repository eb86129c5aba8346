-- ===== src/Evaluation/Evaluate.antt =====
-- `EvaluateFeatures` of pkg/feature/domain/evaluation.go, `ListSegmentIDs` of feature.go, and the
-- digest of user_evaluations.go. The code also clears the name and the description of a variation
-- inside the feature that it was given; here that shows in the evaluation only.
use Prim.Native.String.{◌++◌ as str_append}
use bucketeer.Prelude.{
  ℤ, String, Bool, true, false, not, List, [], ◌∷◌, ◌++◌, map, if◌then◌else◌, ◌==◌, contains,
  Result, ok, ◌>>=◌,
}
use bucketeer.Feature.Model.{Error, Variation, Clause, Operator, Rule, Feature}
use bucketeer.Evaluation.Model.{User, SegmentUser, Reason, Evaluation, UserEvaluations}
use bucketeer.Evaluation.External.{External}
use bucketeer.Evaluation.Clause.{str_lt}
use bucketeer.Evaluation.Rule.{text_at}
use bucketeer.Evaluation.Assign.{assign_user}
use bucketeer.Evaluation.Order.{topological_sort}

abbrev is_segment : Operator → Bool
is_segment Operator.segment = true
is_segment _ = false

-- The texts that are not in the set yet are added to it.
unfoldable pub add_all : List String → List String → List String
add_all [] ids = ids
add_all (v ∷ vs) ids = add_all vs (if contains v ids then ids else ids ++ v ∷ [])

unfoldable pub clause_segments : List Clause → List String → List String
clause_segments [] ids = ids
clause_segments (c ∷ cs) ids =
    clause_segments cs (if is_segment c.operator then add_all c.values ids else ids)

-- The code collects a map, whose order is random; here the ids stand in the order of the rules.
unfoldable pub list_segment_ids : List Rule → List String → List String
list_segment_ids [] ids = ids
list_segment_ids (r ∷ rs) ids = list_segment_ids rs (clause_segments r.clauses ids)

-- `mapSegmentUsers[id]`: no users for a missing key.
unfoldable pub segment_users_at : String → List (String × List SegmentUser) → List SegmentUser
segment_users_at k [] = []
segment_users_at k ((j, us) ∷ m) = if j == k then us else segment_users_at k m

unfoldable pub collect_segment_users :
    List String → List (String × List SegmentUser) → List SegmentUser
collect_segment_users [] m = []
collect_segment_users (id ∷ ids) m = segment_users_at id m ++ collect_segment_users ids m

-- `sort.SliceStable` by a text key, and `sort.Strings`.
unfoldable pub insert_by : {A : Type 0} → (A → String) → A → List A → List A
insert_by key a [] = a ∷ []
insert_by key a (b ∷ bs) = if str_lt (key b) (key a) then b ∷ insert_by key a bs else a ∷ b ∷ bs

unfoldable pub sort_by : {A : Type 0} → (A → String) → List A → List A
sort_by key [] = []
sort_by key (a ∷ as') = insert_by key a (sort_by key as')

abbrev join_all : List String → String
join_all [] = ""
join_all (s ∷ ss) = str_append s (join_all ss)

module _ (x : External) where
  open x use {fnv64a, format_int}

  -- `fmt.Sprintf("%s:%d:%s", …)`.
  unfoldable pub evaluation_id : String → ℤ → String → String
  evaluation_id feature_id version user_id =
      join_all (feature_id ∷ ":" ∷ format_int version ∷ ":" ∷ user_id ∷ [])

  -- The sum of the user's id, the metadata by key, and the features by id with their versions.
  unfoldable pub user_evaluations_id : String → List (String × String) → List Feature → String
  user_evaluations_id user_id metadata features =
      let keys = sort_by (λ k. k) (map (λ (kv : String × String). kv.0) metadata) in
      let data_text = join_all (map (λ k. join_all (k ∷ ":" ∷ text_at k metadata ∷ [])) keys) in
      let features_text = join_all (
        map (λ (f : Feature). join_all (f.id ∷ ":" ∷ format_int f.version ∷ []))
          (sort_by (λ (f : Feature). f.id) features)) in
      fnv64a (join_all (user_id ∷ data_text ∷ features_text ∷ []))

  unfoldable pub new_evaluation : Feature → User → Reason → Variation → Evaluation
  new_evaluation f user reason variation = record {
    id = evaluation_id f.id f.version user.id;
    feature_id = f.id;
    feature_version = f.version;
    user_id = user.id;
    variation_id = variation.id;
    variation = record variation { name = ""; description = "" };
    reason = reason;
    variation_value = variation.value;
  }

  -- The loop over the sorted features: `flags` are the variations given so far.
  unfoldable pub evaluate_sorted :
      List Feature
      → User
      → List (String × List SegmentUser)
      → String
      → List (String × String)
      → List Evaluation
      → Result Error (List Evaluation)
  evaluate_sorted [] user m tag flags acc = ok acc
  evaluate_sorted (f ∷ fs) user m tag flags acc =
      assign_user x f user (collect_segment_users (list_segment_ids f.rules []) m) flags
      >>= λ (reason, variation). evaluate_sorted fs user m tag ((f.id, variation.id) ∷ flags) (
          if not (contains tag f.tags)
          then acc
          else acc ++ new_evaluation f user reason variation ∷ [])

  unfoldable pub evaluate_features :
      List Feature
      → User
      → List (String × List SegmentUser)
      → String
      → ℤ
      → Result Error UserEvaluations
  evaluate_features fs user m tag now = do
    sorted ← topological_sort fs
    evaluations ← evaluate_sorted sorted user m tag [] []
    ok (record {
      id = user_evaluations_id user.id user.data_of fs;
      evaluations = evaluations;
      created_at = now;
    })
