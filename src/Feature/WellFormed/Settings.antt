-- ===== src/Feature/WellFormed/Settings.antt =====
-- The operations of Feature/Settings and Feature/Prerequisites on consistent features (pkg/feature/domain/feature.go).
use bucketeer.Prelude.{
  ℤ, String, Safe, Safe-bind, or_err-Safe, guard_trivial, if_ind, Option, none, some, not, contains,
  guard, leb, length, read,
}
use bucketeer.Feature.Model.{
  Feature, tags_must_have_at_least_one_tag, value_not_found, prerequisite_not_found,
}
use bucketeer.Feature.Lookup.{find_variation, find_prerequisite, index, prerequisite_feature}
use bucketeer.Feature.Settings.{
  change_off_variation, add_tag, remove_tag, enable, disable, reset_sampling_seed,
}
use bucketeer.Feature.Prerequisites.{change_prerequisite_variation, remove_prerequisite}
use bucketeer.Feature.WellFormed.{WellFormed, find_variation-Safe, read-Safe}

pub change_off_variation-WellFormed :
    (id : String) (now : ℤ) (f : Feature)
    → WellFormed f
    → Safe WellFormed (change_off_variation id now f)
unfolding change_off_variation
change_off_variation-WellFormed id now f w =
    Safe-bind _ WellFormed (find_variation id f.variations) _ (find_variation-Safe id f.variations)
      (λ x h. record {
        aligned = w.aligned;
        off_known = h.1;
        default_serves = w.default_serves;
        rules_serve = w.rules_serve;
        rules_unique = w.rules_unique;
        users_unique = w.users_unique;
      })

pub enable-WellFormed : (now : ℤ) (f : Feature) → WellFormed f → Safe WellFormed (enable now f)
unfolding enable
enable-WellFormed now f w = if_ind (Safe WellFormed) f.enabled (λ _. tt) (λ _. w)

pub disable-WellFormed : (now : ℤ) (f : Feature) → WellFormed f → Safe WellFormed (disable now f)
unfolding disable
disable-WellFormed now f w = if_ind (Safe WellFormed) (not f.enabled) (λ _. tt) (λ _. w)

pub add_tag-WellFormed :
    (tag : String) (now : ℤ) (f : Feature) → WellFormed f → Safe WellFormed (add_tag tag now f)
unfolding add_tag
add_tag-WellFormed tag now f w = if_ind (Safe WellFormed) (contains tag f.tags) (λ _. w) (λ _. w)

pub remove_tag-WellFormed :
    (tag : String) (now : ℤ) (f : Feature) → WellFormed f → Safe WellFormed (remove_tag tag now f)
unfolding remove_tag index
remove_tag-WellFormed tag now f w =
    Safe-bind _ WellFormed (guard (not (leb (length f.tags) 1)) tags_must_have_at_least_one_tag) _
      (guard_trivial _ tags_must_have_at_least_one_tag)
      λ _ _. Safe-bind _ WellFormed (index tag f.tags) _ (or_err-Safe _ value_not_found) λ _ _. w

pub reset_sampling_seed-WellFormed :
    (id : Option String) (now : ℤ) (f : Feature)
    → WellFormed f
    → Safe WellFormed (reset_sampling_seed id now f)
unfolding reset_sampling_seed
reset_sampling_seed-WellFormed none now f w = tt
reset_sampling_seed-WellFormed (some id) now f w = w

pub change_prerequisite_variation-WellFormed :
    (f_id variation_id : String) (now : ℤ) (f : Feature)
    → WellFormed f
    → Safe WellFormed (change_prerequisite_variation f_id variation_id now f)
unfolding change_prerequisite_variation find_prerequisite
change_prerequisite_variation-WellFormed f_id variation_id now f w =
    Safe-bind _ WellFormed (find_prerequisite f_id f) _ (or_err-Safe _ prerequisite_not_found)
      λ i found.
        Safe-bind _ WellFormed (read f.prerequisites i) _
          (read-Safe prerequisite_feature f_id f.prerequisites i found) λ _ _. w

pub remove_prerequisite-WellFormed :
    (f_id : String) (now : ℤ) (f : Feature)
    → WellFormed f
    → Safe WellFormed (remove_prerequisite f_id now f)
unfolding remove_prerequisite find_prerequisite
remove_prerequisite-WellFormed f_id now f w =
    Safe-bind _ WellFormed (find_prerequisite f_id f) _ (or_err-Safe _ prerequisite_not_found)
      λ _ _. w
