-- ===== src/Api/Creation.antt =====
-- The check of a request that creates a feature, and NewFeature behind it.
use bucketeer.Prelude.{
  ℤ, pos, negsuc, ℕ, String, Option, some, ◌≡◌, refl, ok, panic, bind_swap, Result, or_err, guard,
  not, ltb, eqb, length, leb_ℤ, ◌==◌, ◌>>=◌, ◌>>◌, err, false, arith,
}
use bucketeer.Feature.Model.{VariationType, Feature}
use bucketeer.Feature.Variations.{Parsers}
use bucketeer.Feature.Create.{blank, add_variations, new_feature}
use bucketeer.Api.Model.{
  CreateFeature, missing_id, invalid_id, missing_name, missing_feature_variations,
  missing_feature_tags, missing_default_on_variation,
}
use bucketeer.Api.Identifiers.{is_feature_id}
use bucketeer.Api.Validation.{validate_create_feature}

negative : (k n : ℕ) → leb_ℤ (pos k) (negsuc n) ≡ false
negative k n = ground arith

test_ok :
    {E B : Type 0} (m : Result E (Unit {0})) (r : Result E B) (b : B) → (m >> r) ≡ ok b → r ≡ ok b
test_ok (ok t) r b e = e
test_ok (err x) r b e = cc
test_ok panic r b e = cc

rest_ok :
    {E A B : Type 0} (m : Result E A) (k : A → Result E (Unit {0})) (r : Result E B) (b : B)
    → (m >>= λ a. k a >> r) ≡ ok b
    → r ≡ ok b
rest_ok (ok a) k r b e = test_ok (k a) r b e
rest_ok (err x) k r b e = cc
rest_ok panic k r b e = cc

-- A request that passes also passes with any negative index of the on variation in its place, and
-- `NewFeature` panics on it once it has added the variations.
pub negative_index_panics :
    (c : CreateFeature) (n : ℕ) (off : ℤ) (p : Parsers) (new_uuid : ℕ → Option String)
    (description maintainer : String) (type : VariationType) (now : ℤ) (f : Feature)
    → validate_create_feature (some c) ≡ ok tt
    → add_variations p new_uuid 0 c.variations now
        (blank c.id c.name description type maintainer now)
      ≡ ok f
    → (validate_create_feature (some (record c { on_index = some (negsuc n) })) ≡ ok tt)
      × (new_feature p new_uuid c.id c.name description type c.variations c.tags
            (negsuc n)
            off
            maintainer
            now
          ≡ panic)
unfolding validate_create_feature new_feature
negative_index_panics c n off p new_uuid description maintainer type now f valid added = (
  bind_swap (guard (not (c.id == "")) missing_id) _ _ tt
      (λ _. bind_swap (guard (is_feature_id c.id) invalid_id) _ _ tt λ _.
        bind_swap (guard (not (c.name == "")) missing_name) _ _ tt λ _.
          bind_swap (guard (not (ltb (length c.variations) 2)) missing_feature_variations) _ _ tt
            λ _. bind_swap (guard (not (eqb (length c.tags) 0)) missing_feature_tags) _ _ tt λ _ e.
              rw (negative (length c.variations) n)
                (rest_ok (or_err c.on_index missing_default_on_variation) _ _ tt e))
      valid,
  rw added refl,
)
