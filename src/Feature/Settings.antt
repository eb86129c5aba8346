-- ===== src/Feature/Settings.antt =====
-- The operations of pkg/feature/domain/feature.go on a feature's own fields: name, tags, state,
-- version. `now` is the answer of `time.Now().Unix()`.
use bucketeer.Prelude.{
  ℤ, pos, String, [], ◌∷◌, ◌++◌, Bool, true, false, not, Option, none, some, length, leb, ltb_ℤ,
  if◌then◌else◌, contains, erase_at, ok, err, ◌>>=◌, ◌>>◌, guard, sub_int64, next_int32,
}
use bucketeer.Feature.Model.{
  already_enabled, already_disabled, tags_must_have_at_least_one_tag, uuid_error, Feature,
  FeatureLastUsedInfo,
}
use bucketeer.Feature.Lookup.{Outcome, index, find_variation}

unfoldable pub rename : String → ℤ → Feature → Outcome
rename name now f = ok (record f { name = name; updated_at = now })

unfoldable pub change_description : String → ℤ → Feature → Outcome
change_description description now f = ok (record f { description = description; updated_at = now })

unfoldable pub change_off_variation : String → ℤ → Feature → Outcome
change_off_variation id now f = do
  _ ← find_variation id f.variations
  ok (record f { off_variation = id; updated_at = now })

unfoldable pub add_tag : String → ℤ → Feature → Outcome
add_tag tag now f =
    if contains tag f.tags
    then ok f
    else ok (record f { tags = f.tags ++ tag ∷ []; updated_at = now })

unfoldable pub remove_tag : String → ℤ → Feature → Outcome
remove_tag tag now f = do
  guard (not (leb (length f.tags) 1)) tags_must_have_at_least_one_tag
  idx ← index tag f.tags
  ok (record f { tags = erase_at f.tags idx; updated_at = now })

unfoldable pub enable : ℤ → Feature → Outcome
enable now f =
    if f.enabled then err already_enabled else ok (record f { enabled = true; updated_at = now })

unfoldable pub disable : ℤ → Feature → Outcome
disable now f =
    if not f.enabled
    then err already_disabled
    else ok (record f { enabled = false; updated_at = now })

unfoldable pub archive : ℤ → Feature → Outcome
archive now f = ok (record f { archived = true; updated_at = now })

unfoldable pub unarchive : ℤ → Feature → Outcome
unarchive now f = ok (record f { archived = false; updated_at = now })

unfoldable pub delete : ℤ → Feature → Outcome
delete now f = ok (record f { deleted = true; updated_at = now })

unfoldable pub increment_version : ℤ → Feature → Outcome
increment_version now f = ok (record f { version = next_int32 f.version; updated_at = now })

-- `new_id` is what `uuid.NewUUID` answers; `none` is its error.
unfoldable pub reset_sampling_seed : Option String → ℤ → Feature → Outcome
reset_sampling_seed none now f = err uuid_error
reset_sampling_seed (some seed) now f = ok (record f { sampling_seed = seed; updated_at = now })

abbrev pub seconds_to_stale : ℤ
seconds_to_stale = pos 7776000

stale_info : Option FeatureLastUsedInfo → ℤ → Bool
stale_info none t = false
stale_info (some info) t =
    if ltb_ℤ (sub_int64 t info.last_used_at) seconds_to_stale then false else true

unfoldable pub is_stale : ℤ → Feature → Bool
unfolding stale_info
is_stale t f = stale_info f.last_used_info t
