-- ===== src/Feature/Prerequisites.antt =====
-- The operations of pkg/feature/domain/feature.go on prerequisites.
use bucketeer.Prelude.{ℤ, String, [], ◌∷◌, ◌++◌, erase_at, set, read, ok, ◌>>=◌}
use bucketeer.Feature.Model.{Feature}
use bucketeer.Feature.Lookup.{Outcome, find_prerequisite}

unfoldable pub add_prerequisite : String → String → ℤ → Feature → Outcome
add_prerequisite f_id variation_id now f = ok (record f {
  prerequisites = f.prerequisites ++ record { feature_id = f_id; variation_id = variation_id } ∷ [];
  updated_at = now;
})

unfoldable pub change_prerequisite_variation : String → String → ℤ → Feature → Outcome
change_prerequisite_variation f_id variation_id now f = do
  idx ← find_prerequisite f_id f
  p ← read f.prerequisites idx
  ok (record f {
    prerequisites = set f.prerequisites idx (record p { variation_id = variation_id });
    updated_at = now;
  })

unfoldable pub remove_prerequisite : String → ℤ → Feature → Outcome
remove_prerequisite f_id now f = do
  idx ← find_prerequisite f_id f
  ok (record f { prerequisites = erase_at f.prerequisites idx; updated_at = now })
