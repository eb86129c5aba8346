-- ===== src/Api/Admitted.antt =====
-- What the checks of pkg/feature/api/validation.go give the commands that they let through.
use bucketeer.Prelude.{
  ℕ, zero, suc, Bool, true, false, List, [], ◌∷◌, ◌++◌, none, some, ◌≡◌, refl, Safe, Safe-bind,
  Safe-map, guard_trivial, get_elem?, set, index_by, err, panic, guard, is_some, not, ◌==◌, ok,
  ◌>>=◌,
}
use bucketeer.Feature.Model.{Prerequisite, Feature}
use bucketeer.Feature.Lookup.{prerequisite_feature}
use bucketeer.Feature.WellFormed.{WellFormed}
use bucketeer.Feature.WellFormed.Rules.{Complete}
use bucketeer.Evaluation.Order.{topological_sort}
use bucketeer.Evaluation.Order.Total.{IsSortOf, topological_sort-IsSortOf}
use bucketeer.Command.Model.{Command}
use bucketeer.Command.Consistency.{Admissible}
use bucketeer.Api.Model.{missing_rule_id, invalid_prerequisite}
use bucketeer.Api.Validation.{
  Checked, validate_fixed, validate_rollout, validate_strategy, validate_rule,
  validate_variation_id, sort_status, validate_add_prerequisite, validate_targeting,
}
use bucketeer.Api.Checks.{
  validate_fixed-Safe, validate_rollout-Safe, validate_strategy-Safe, after_guard,
  validate_rule-Safe, validate_variation_id-Safe, sort_status-Safe,
}

-- The target at the position `i` is consistent.
abbrev pub Target : ℕ → List Feature → Type 0
Target i fs = (f : Feature) × (get_elem? fs i ≡ some f) × WellFormed f

set_target :
    (fs : List Feature) (i : ℕ) (f g : Feature)
    → get_elem? fs i ≡ some f
    → WellFormed g
    → Target i (set fs i g)
set_target [] i f g e w = cc
set_target (x ∷ fs) zero f g e w = (g, refl, w)
set_target (x ∷ fs) (suc i) f g e w = set_target fs i f g e w

validate_add_prerequisite-Safe :
    (fs : List Feature) (i : ℕ) (q : Prerequisite)
    → Target i fs
    → Safe (Target i) (validate_add_prerequisite fs i (some q))
unfolding validate_add_prerequisite
validate_add_prerequisite-Safe fs i q (f, at, w) =
    let fs' : List Feature = set fs i (record f { prerequisites = f.prerequisites ++ q ∷ [] }) in
    rw at (
      Safe-bind _ (Target i) (guard (not (f.id == q.feature_id)) invalid_prerequisite) _
        (guard_trivial _ invalid_prerequisite)
        λ _ _.
          Safe-bind _ (Target i)
            (guard (not (is_some (index_by prerequisite_feature q.feature_id f.prerequisites)))
              invalid_prerequisite)
            _ (guard_trivial _ invalid_prerequisite)
            λ _ _.
              Safe-bind _ (Target i) (validate_variation_id fs q) _
                (validate_variation_id-Safe fs q)
                λ _ _.
                  Safe-bind _ (Target i) (sort_status (topological_sort fs')) _
                    (sort_status-Safe (IsSortOf fs') (topological_sort fs')
                      (topological_sort-IsSortOf fs'))
                    λ _ _.
                      set_target fs i f (record f { prerequisites = f.prerequisites ++ q ∷ [] }) at
                        w)

-- The commands whose messages are there, but for those on clauses and on the default strategy: what
-- these name is not looked for when the request is checked.
abbrev pub is_checked : Command → Bool
is_checked (Command.add_rule none) = false
is_checked (Command.change_default_strategy s) = false
is_checked (Command.add_clause rule_id c) = false
is_checked (Command.delete_clause rule_id id) = false
is_checked (Command.change_clause_attribute rule_id id attribute) = false
is_checked (Command.change_clause_operator rule_id id operator) = false
is_checked (Command.add_clause_value rule_id id value) = false
is_checked (Command.remove_clause_value rule_id id value) = false
is_checked (Command.add_prerequisite none) = false
is_checked (Command.change_prerequisite_variation none) = false
is_checked _ = true

abbrev pub Always : Command → Type 0
Always c = (f : Feature) → Admissible f c

-- What a check gives: the command is admissible for every feature, and the target is consistent.
abbrev pub Lets : ℕ → Command → List Feature → Type 0
Lets i c fs = Always c × Target i fs

lets :
    (P : Type 0) (c : Command) (i : ℕ) (fs : List Feature) (m : Checked)
    → (P → Always c)
    → Target i fs
    → Safe (λ _. P) m
    → Safe (Lets i c) (m >>= λ _. ok fs)
lets P c i fs (ok a) k t h = (k h, t)
lets P c i fs (err e) k t h = tt
lets P c i fs panic k t h = h

-- For a command whose messages are there, and that neither names or adds a clause nor changes the
-- default strategy: checking it against features whose target is consistent does not panic. If it
-- passes it is admissible for every feature, and the target stays consistent.
pub validate_targeting-Safe :
    (c : Command) (fs : List Feature) (i : ℕ)
    → is_checked c ≡ true
    → Target i fs
    → Safe (Lets i c) (validate_targeting fs i c)
unfolding validate_targeting
validate_targeting-Safe (Command.add_rule none) fs i e t = cc
validate_targeting-Safe (Command.add_rule (some r)) fs i e (f, at, w) = rw at (
    lets (Complete r.strategy) (Command.add_rule (some r)) i fs
      (validate_rule f.variations (some r)) (λ h g. h) (f, at, w)
      (validate_rule-Safe f.variations r))
validate_targeting-Safe (Command.change_rule_strategy rule_id s) fs i e (f, at, w) = rw at (
    lets (Complete s) (Command.change_rule_strategy rule_id s) i fs _ (λ h g. h) (f, at, w)
      (after_guard _ (not (rule_id == "")) missing_rule_id (validate_strategy f.variations s)
        (validate_strategy-Safe f.variations s)))
validate_targeting-Safe (Command.change_fixed_strategy rule_id s) fs i e t =
    lets (is_some s ≡ true) (Command.change_fixed_strategy rule_id s) i fs _ (λ h g. h) t
      (after_guard _ (not (rule_id == "")) missing_rule_id (validate_fixed s)
        (validate_fixed-Safe s))
validate_targeting-Safe (Command.change_rollout_strategy rule_id s) fs i e (f, at, w) = rw at (
    lets (is_some s ≡ true) (Command.change_rollout_strategy rule_id s) i fs _ (λ h g. h) (f, at, w)
      (after_guard _ (not (rule_id == "")) missing_rule_id (validate_rollout f.variations s)
        (validate_rollout-Safe f.variations s)))
validate_targeting-Safe (Command.change_default_strategy s) fs i e t = cc
validate_targeting-Safe (Command.add_clause rule_id c) fs i e t = cc
validate_targeting-Safe (Command.delete_clause rule_id id) fs i e t = cc
validate_targeting-Safe (Command.change_clause_attribute rule_id id attribute) fs i e t = cc
validate_targeting-Safe (Command.change_clause_operator rule_id id operator) fs i e t = cc
validate_targeting-Safe (Command.add_clause_value rule_id id value) fs i e t = cc
validate_targeting-Safe (Command.remove_clause_value rule_id id value) fs i e t = cc
validate_targeting-Safe (Command.add_prerequisite none) fs i e t = cc
validate_targeting-Safe (Command.add_prerequisite (some q)) fs i e t =
    Safe-map (Target i) (Lets i (Command.add_prerequisite (some q)))
      (validate_add_prerequisite fs i (some q)) (λ fs' t'. (λ g. tt, t'))
      (validate_add_prerequisite-Safe fs i q t)
validate_targeting-Safe (Command.change_prerequisite_variation none) fs i e t = cc
validate_targeting-Safe (Command.change_prerequisite_variation (some q)) fs i e t =
    lets (Unit {0}) (Command.change_prerequisite_variation (some q)) i fs
      (validate_variation_id fs q) (λ h g. tt) t (validate_variation_id-Safe fs q)
validate_targeting-Safe _ fs i e t = (λ g. tt, t)
