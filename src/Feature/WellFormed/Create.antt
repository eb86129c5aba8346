-- ===== src/Feature/WellFormed/Create.antt =====
-- `NewFeature` of pkg/feature/domain/feature.go and the consistency of its answer.
use bucketeer.Prelude.{
  ℤ, pos, negsuc, ℕ, zero, suc, String, List, [], ◌∷◌, ◌++◌, map, Option, none, ◌≡◌, ◌∙◌, sym, refl,
  ap, or_err, or_err-Safe, Safe, Safe-bind, Safe-map, length, ◌+◌, ◌<◌, subst, arith, All,
  All-append, map-append_one, contains, eq_refl,
}
use bucketeer.Feature.Model.{uuid_error, VariationType, Variation, Feature}
use bucketeer.Feature.Lookup.{variation_ids, variation_id, target_variation, find_variation}
use bucketeer.Feature.Settings.{change_off_variation}
use bucketeer.Feature.Rules.{change_default_strategy}
use bucketeer.Feature.Variations.{
  Parsers, validate_variation, add_variation, add_variation_to_rules,
  add_variation_to_default_strategy,
}
use bucketeer.Feature.Create.{read_int, blank, add_variations, new_feature}
use bucketeer.Feature.WellFormed.{WellFormed, Known, UniqueUsers, find_variation-Safe}
use bucketeer.Feature.WellFormed.Variations.{validate_variation-Safe}

-- A feature that has `k` variations with their targets, and nothing else yet.
record Begun (k : ℕ) (f : Feature) : Type 0 where
  aligned : map target_variation f.targets ≡ variation_ids f.variations
  no_rules : f.rules ≡ []
  no_strategy : f.default_strategy ≡ none
  users_unique : All UniqueUsers f.targets
  counted : length f.variations ≡ k

length-append_one : {A : Type 0} (xs : List A) (x : A) → length (xs ++ x ∷ []) ≡ suc (length xs)
length-append_one [] x = refl
length-append_one (y ∷ xs) x = ap suc (length-append_one xs x)

add_variation-Begun :
    (k : ℕ) (p : Parsers) (id value name description : String) (now : ℤ) (f : Feature)
    → Begun k f
    → Safe (Begun (suc k)) (add_variation p id value name description now f)
unfolding add_variation add_variation_to_rules add_variation_to_default_strategy
add_variation-Begun k p id value name description now f b =
    Safe-bind _ (Begun (suc k)) (validate_variation p f.variation_type value) _
      (validate_variation-Safe p f.variation_type value)
      λ _ _.
        rw (b.no_rules, b.no_strategy)
          record {
            aligned =
                map-append_one target_variation f.targets _
                ∙ ap (λ l. l ++ id ∷ []) b.aligned
                ∙ sym (map-append_one variation_id f.variations _);
            no_rules = refl;
            no_strategy = refl;
            users_unique = All-append UniqueUsers f.targets _ b.users_unique tt;
            counted = length-append_one f.variations _ ∙ ap suc b.counted;
          }

add_variations-Begun :
    (k : ℕ) (p : Parsers) (new_uuid : ℕ → Option String) (n : ℕ) (vs : List Variation) (now : ℤ)
    (f : Feature)
    → Begun k f
    → Safe (Begun (length vs + k)) (add_variations p new_uuid n vs now f)
unfolding add_variations
add_variations-Begun k p new_uuid n [] now f b =
    let same : k ≡ 0 + k = omega arith in subst (λ m. Begun m f) same b
add_variations-Begun k p new_uuid n (v ∷ vs) now f b =
    let count : length vs + suc k ≡ suc (length vs) + k = omega arith in
    Safe-bind _ _ (or_err (new_uuid n) uuid_error) _ (or_err-Safe (new_uuid n) uuid_error) λ id _.
      Safe-bind _ _ (add_variation p id v.value v.name v.description now f) _
        (add_variation-Begun k p id v.value v.name v.description now f b)
        λ g c.
          subst (λ m. Safe (Begun m) (add_variations p new_uuid (suc n) vs now g)) count
            (add_variations-Begun (suc k) p new_uuid (suc n) vs now g c)

-- A position of a list with `n` elements.
abbrev pub Within : ℤ → ℕ → Type 0
Within (pos i) n = i < n
Within (negsuc i) n = ⊥

read_int-Known :
    (vs : List Variation) (i : ℤ)
    → Within i (length vs)
    → Safe (λ (v : Variation). Known (variation_ids vs) v.id) (read_int vs i)
unfolding contains
read_int-Known vs (negsuc i) h = h
read_int-Known [] (pos i) h = omega (arith, h)
read_int-Known (u ∷ vs) (pos zero) h = rw eq_refl
read_int-Known (u ∷ vs) (pos (suc i)) h =
    Safe-map _ _ (read_int vs (pos i)) (λ v e. ground (arith, e))
      (read_int-Known vs (pos i) (omega (arith, h)))

-- `NewFeature` does not panic where the indices of the on and the off variation are positions of
-- the variations given, and the feature that it answers is consistent.
pub new_feature-WellFormed :
    (p : Parsers) (new_uuid : ℕ → Option String) (id name description : String)
    (type : VariationType) (variations : List Variation) (tags : List String)
    (on_index off_index : ℤ) (maintainer : String) (now : ℤ)
    → Within on_index (length variations)
    → Within off_index (length variations)
    → Safe WellFormed (
        new_feature p new_uuid id name description type variations tags on_index off_index
          maintainer now)
unfolding new_feature change_default_strategy change_off_variation
new_feature-WellFormed p new_uuid id name description type variations tags on_index off_index
      maintainer now on_within off_within =
    let start = blank id name description type maintainer now in
    Safe-bind _ WellFormed (add_variations p new_uuid 0 variations now start) _
      (add_variations-Begun 0 p new_uuid 0 variations now start (record {
        aligned = refl;
        no_rules = refl;
        no_strategy = refl;
        users_unique = tt;
        counted = refl;
      }))
      λ f b.
        let count : length variations ≡ length f.variations = omega (arith, b.counted) in
        Safe-bind _ WellFormed (read_int f.variations on_index) _
          (read_int-Known f.variations on_index (subst (Within on_index) count on_within))
          λ on known.
            Safe-bind _ WellFormed (read_int f.variations off_index) _
              (read_int-Known f.variations off_index (subst (Within off_index) count off_within))
              λ off _.
                Safe-bind _ WellFormed (find_variation off.id f.variations) _
                  (find_variation-Safe off.id f.variations)
                  λ v h. record {
                    aligned = b.aligned;
                    off_known = h.1;
                    default_serves = known;
                    rules_serve = rw b.no_rules tt;
                    rules_unique = rw b.no_rules tt;
                    users_unique = b.users_unique;
                  }
