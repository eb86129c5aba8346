-- ===== src/Evaluation/External.antt =====
-- What evaluation takes from outside the repository: IEEE floats with `strconv.ParseFloat`, the
-- package blang/semver, md5 and `strconv.ParseUint`, FNV-1a, and the printing of integers.
use bucketeer.Prelude.{ℤ, ℕ, String, Bool, Option}

pub record External : Type 1 where
  pub Float64 : Type 0
  pub parse_float : String → Option Float64
  pub float64 : ℤ → Float64  -- the conversion `float64(i)`
  pub add : Float64 → Float64 → Float64
  pub div : Float64 → Float64 → Float64
  pub float_lt : Float64 → Float64 → Bool  -- `a < b`
  pub float_le : Float64 → Float64 → Bool  -- `a <= b`
  pub Semver : Type 0
  pub parse_semver : String → Option Semver
  pub semver_gt : Semver → Semver → Bool  -- `a.GT(b)`
  pub semver_gte : Semver → Semver → Bool
  pub semver_lt : Semver → Semver → Bool
  pub semver_lte : Semver → Semver → Bool
  pub md5_hex : String → String  -- `hex.EncodeToString` of `md5.Sum`
  pub parse_hex : String → Option ℕ  -- `strconv.ParseUint(s, 16, 64)`
  pub fnv64a : String → String  -- `FormatUint` of the FNV-1a sum of the bytes written
  pub format_int : ℤ → String  -- `%d`
