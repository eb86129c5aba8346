-- ===== src/Evaluation/Order.antt =====
-- `TopologicalSort` of pkg/feature/domain/evaluation.go: prerequisites before what needs them.
-- The recursive closure `sort` takes fuel, one unit for each nested call; `panic` stands for fuel
-- that ran out.
pub mod Marks
pub mod Placed
pub mod Total
pub mod Acyclic
use bucketeer.Prelude.{
  ℕ, zero, suc, String, Bool, true, false, List, [], ◌∷◌, ◌++◌, Option, none, some, if◌then◌else◌,
  ◌==◌, length, or_err, Result, ok, err, panic, ◌>>=◌,
}
use bucketeer.Feature.Model.{Error, cycle_exists, feature_not_found, Prerequisite, Feature}

pub data Mark : Type 0 where
  unvisited temporary permanently : Mark

-- The variables of the closure: `marks` (a missing key is `unvisited`) and `sortedFeatures`.
pub record Sorting : Type 0 where
  pub marks : String → Mark
  pub sorted : List Feature

abbrev pub set_mark : String → Mark → (String → Mark) → String → Mark
set_mark id m marks j = if j == id then m else marks j

-- `mapFeatures[id]`: a later feature with the same id replaces an earlier one.
unfoldable pub feature_at : String → List Feature → Option Feature
feature_at id [] = none
feature_at id (f ∷ fs) = elim (feature_at id fs) [
  | some g ↦ some g
  | none ↦ if f.id == id then some f else none
]

abbrev pub Step : Type 0
Step = Feature → Sorting → Result Error Sorting

-- The loop over the prerequisites of one feature; `sort` is the recursive call.
unfoldable pub sort_prerequisites :
    List Feature → Step → List Prerequisite → Sorting → Result Error Sorting
sort_prerequisites fs sort [] st = ok st
sort_prerequisites fs sort (p ∷ ps) st = do
  pf ← or_err (feature_at p.feature_id fs) feature_not_found
  st' ← sort pf st
  sort_prerequisites fs sort ps st'

abbrev pub enter : Feature → Sorting → Sorting
enter f st = record st { marks = set_mark f.id temporary st.marks }

abbrev pub leave : Feature → Sorting → Sorting
leave f st = record { marks = set_mark f.id permanently st.marks; sorted = st.sorted ++ f ∷ [] }

-- One call of the closure, by the mark of its feature.
unfoldable pub sort_marked : List Feature → Step → Mark → Step
sort_marked fs sort permanently f st = ok st
sort_marked fs sort temporary f st = err cycle_exists
sort_marked fs sort unvisited f st = do
  st' ← sort_prerequisites fs sort f.prerequisites (enter f st)
  ok (leave f st')

unfoldable pub sort : ℕ → List Feature → Step
sort zero fs f st = panic
sort (suc n) fs f st = sort_marked fs (sort n fs) (st.marks f.id) f st

abbrev pub is_unvisited : Mark → Bool
is_unvisited unvisited = true
is_unvisited temporary = false
is_unvisited permanently = false

-- The loop over all features.
unfoldable pub sort_all : ℕ → List Feature → List Feature → Sorting → Result Error Sorting
sort_all n fs [] st = ok st
sort_all n fs (f ∷ rest) st =
    (if is_unvisited (st.marks f.id) then sort n fs f st else ok st) >>= λ st'.
    sort_all n fs rest st'

abbrev pub start : Sorting
start = record { marks = λ _. unvisited; sorted = [] }

unfoldable pub topological_sort : List Feature → Result Error (List Feature)
topological_sort features = do
  st ← sort_all (suc (length features)) features features start
  ok st.sorted
