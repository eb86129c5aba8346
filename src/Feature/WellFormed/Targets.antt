-- ===== src/Feature/WellFormed/Targets.antt =====
-- The operations of Feature/Targets on consistent features (pkg/feature/domain/feature.go).
use bucketeer.Prelude.{
  ℤ, ℕ, String, List, [], ◌∷◌, ◌++◌, ◌≡◌, ◌∙◌, refl, some, get_elem?, contains, erase_at, Safe,
  Safe-bind, if_ind, or_err-Safe, read, map-set, All-set, All-get_elem?, set,
}
use bucketeer.Feature.Model.{Feature, Target, target_not_found, value_not_found}
use bucketeer.Feature.Lookup.{find_target, index, target_variation}
use bucketeer.Feature.Targets.{add_user_to_variation, remove_user_from_variation}
use bucketeer.Feature.WellFormed.{
  WellFormed, Unique, UniqueUsers, Unique-append, Unique-erase_at, read-Safe,
}

-- A target whose users change keeps its variation.
set_users-WellFormed :
    (f : Feature) (now : ℤ) (i : ℕ) (t : Target) (users : List String)
    → WellFormed f
    → get_elem? f.targets i ≡ some t
    → Unique users
    → WellFormed
        (record f { targets = set f.targets i (record t { users = users }); updated_at = now })
set_users-WellFormed f now i t users w at u = record {
  aligned = map-set target_variation f.targets i t (record t { users = users }) at refl ∙ w.aligned;
  off_known = w.off_known;
  default_serves = w.default_serves;
  rules_serve = w.rules_serve;
  rules_unique = w.rules_unique;
  users_unique = All-set UniqueUsers f.targets i (record t { users = users }) w.users_unique u;
}

pub add_user_to_variation-WellFormed :
    (variation user : String) (now : ℤ) (f : Feature)
    → WellFormed f
    → Safe WellFormed (add_user_to_variation variation user now f)
unfolding add_user_to_variation find_target
add_user_to_variation-WellFormed variation user now f w =
    Safe-bind _ WellFormed (find_target variation f) _ (or_err-Safe _ target_not_found) λ i found.
      Safe-bind _ WellFormed (read f.targets i) _
        (read-Safe target_variation variation f.targets i found)
        λ t at.
          if_ind (Safe WellFormed) (contains user t.users) (λ _. w)
            λ new. set_users-WellFormed f now i t (t.users ++ user ∷ []) w at.0 (
              Unique-append t.users user
                (All-get_elem? UniqueUsers f.targets i t w.users_unique at.0) new)

pub remove_user_from_variation-WellFormed :
    (variation user : String) (now : ℤ) (f : Feature)
    → WellFormed f
    → Safe WellFormed (remove_user_from_variation variation user now f)
unfolding remove_user_from_variation find_target index
remove_user_from_variation-WellFormed variation user now f w =
    Safe-bind _ WellFormed (find_target variation f) _ (or_err-Safe _ target_not_found) λ i found.
      Safe-bind _ WellFormed (read f.targets i) _
        (read-Safe target_variation variation f.targets i found)
        λ t at. Safe-bind _ WellFormed (index user t.users) _ (or_err-Safe _ value_not_found) λ j _.
          set_users-WellFormed f now i t (erase_at t.users j) w at.0 (
            Unique-erase_at t.users j (All-get_elem? UniqueUsers f.targets i t w.users_unique at.0))
