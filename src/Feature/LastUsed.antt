-- ===== src/Feature/LastUsed.antt =====
-- When and by which client versions a feature was last used:
-- pkg/feature/domain/feature_last_used_info.go, with blang/semver as a parameter.
pub mod Span
use bucketeer.Prelude.{
  ℤ, String, List, [], ◌∷◌, Bool, true, false, Option, none, some, ltb_ℤ, if◌then◌else◌, ◌==◌, ◌≡◌,
  refl,
}
use bucketeer.Feature.Model.{FeatureLastUsedInfo}

-- Semantic versions: `semver.Parse`, `Version.String` and `Version.LT` (`a.GT(b)` is `b.LT(a)`).
pub record Semver (Version : Type 0) : Type 0 where
  pub parse : String → Option Version
  pub print : Version → String
  pub lt : Version → Version → Bool

-- A method may change the info before it returns the parser's error.
pub data Versioned : Type 0 where
  versioned : FeatureLastUsedInfo → Versioned
  parse_failed : FeatureLastUsedInfo → Versioned

unfoldable pub used_at : ℤ → FeatureLastUsedInfo → FeatureLastUsedInfo
used_at v f = if ltb_ℤ f.last_used_at v then record f { last_used_at = v } else f

module _ {Version : Type 0} (sv : Semver Version) where
  -- The stored version is compared with the client's, and replaced where that is older.
  unfoldable pub older_of : Option Version → Version → FeatureLastUsedInfo → Versioned
  older_of none client f = parse_failed f
  older_of (some current) client f =
      if sv.lt client current
      then versioned (record f { client_oldest_version = sv.print client })
      else versioned f

  unfoldable pub newer_of : Option Version → Version → FeatureLastUsedInfo → Versioned
  newer_of none client f = parse_failed f
  newer_of (some current) client f =
      if sv.lt current client
      then versioned (record f { client_latest_version = sv.print client })
      else versioned f

  -- A version that is no semantic version is passed over.
  unfoldable pub set_oldest_of : Option Version → FeatureLastUsedInfo → Versioned
  set_oldest_of none f = versioned f
  set_oldest_of (some client) f =
      if f.client_oldest_version == ""
      then versioned (record f { client_oldest_version = sv.print client })
      else older_of (sv.parse f.client_oldest_version) client f

  unfoldable pub set_latest_of : Option Version → FeatureLastUsedInfo → Versioned
  set_latest_of none f = versioned f
  set_latest_of (some client) f =
      if f.client_latest_version == ""
      then versioned (record f { client_latest_version = sv.print client })
      else newer_of (sv.parse f.client_latest_version) client f

  unfoldable pub set_oldest_client_version : String → FeatureLastUsedInfo → Versioned
  set_oldest_client_version version f = set_oldest_of (sv.parse version) f

  unfoldable pub set_latest_client_version : String → FeatureLastUsedInfo → Versioned
  set_latest_client_version version f = set_latest_of (sv.parse version) f

  unfoldable pub and_latest : String → Versioned → Versioned
  and_latest version (versioned f) = set_latest_client_version version f
  and_latest version (parse_failed f) = parse_failed f

  unfoldable pub set_client_version : String → FeatureLastUsedInfo → Versioned
  set_client_version version f = and_latest version (set_oldest_client_version version f)

  -- The error of the first version is passed over.
  unfoldable pub info_of : Versioned → FeatureLastUsedInfo
  info_of (versioned f) = f
  info_of (parse_failed f) = f

  unfoldable pub new_feature_last_used_info :
      (feature_id : String)
      → ℤ
      → (last_used_at : ℤ) → (client_version : String) → FeatureLastUsedInfo
  new_feature_last_used_info feature_id version last_used_at client_version = info_of (
      set_client_version client_version (record {
        feature_id = feature_id;
        version = version;
        last_used_at = last_used_at;
        created_at = last_used_at;
        client_oldest_version = "";
        client_latest_version = "";
      }))
