-- ===== src/Api/Identifiers.antt =====
-- The regular expressions for the ids of features (pkg/feature/api/validation.go) and for UUIDs of
-- version 4 (pkg/uuid/uuid.go), as tests of one character after another.
use Prim.Native.Char.{code}
use bucketeer.Prelude.{
  ℕ, zero, suc, String, Bool, true, false, ◌&&◌, ◌||◌, List, [], ◌∷◌, ◌++◌, leb, eqb,
}

abbrev pub char_codes : String → List ℕ
char_codes String.[] = []
char_codes (String.◌∷◌ c s) = code c ∷ char_codes s

abbrev is_digit : ℕ → Bool
is_digit c = leb b'0' c && leb c b'9'

-- `[a-zA-Z0-9-]`.
abbrev is_id_char : ℕ → Bool
is_id_char c = leb b'a' c && leb c b'z' || leb b'A' c && leb c b'Z' || is_digit c || eqb c b'-'

abbrev all_id_chars : List ℕ → Bool
all_id_chars [] = true
all_id_chars (c ∷ cs) = is_id_char c && all_id_chars cs

-- `^[a-zA-Z0-9-]+$`.
unfoldable pub is_feature_id : String → Bool
is_feature_id String.[] = false
is_feature_id (String.◌∷◌ c s) = all_id_chars (char_codes (String.◌∷◌ c s))

abbrev pub is_hex : ℕ → Bool
is_hex c = leb b'a' c && leb c b'f' || leb b'A' c && leb c b'F' || is_digit c

-- `[8|9|aA|bB]`, where the bar is one of the characters.
abbrev pub is_variant : ℕ → Bool
is_variant c =
    eqb c b'8' || eqb c b'|' || eqb c b'9' || eqb c b'a' || eqb c b'A' || eqb c b'b' || eqb c b'B'

abbrev times : ℕ → (ℕ → Bool) → List (ℕ → Bool)
times zero test = []
times (suc n) test = test ∷ times n test

abbrev pub matches : List (ℕ → Bool) → List ℕ → Bool
matches [] [] = true
matches [] (c ∷ cs) = false
matches (t ∷ ts) [] = false
matches (t ∷ ts) (c ∷ cs) = t c && matches ts cs

abbrev dash : List (ℕ → Bool)
dash = (λ c. eqb c b'-') ∷ []

abbrev pub uuid_tests : List (ℕ → Bool)
uuid_tests =
    times 8 is_hex
    ++ dash
    ++ times 4 is_hex
    ++ dash
    ++ (λ c. eqb c b'4') ∷ []
    ++ times 3 is_hex
    ++ dash
    ++ is_variant ∷ []
    ++ times 3 is_hex
    ++ dash
    ++ times 12 is_hex

unfoldable pub is_uuid : String → Bool
is_uuid s = matches uuid_tests (char_codes s)
