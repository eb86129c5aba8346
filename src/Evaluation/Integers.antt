-- ===== src/Evaluation/Integers.antt =====
-- `strconv.ParseInt(s, 10, 64)`: an optional sign, decimal digits, and the range of int64.
use Prim.Native.Char.{code}
use bucketeer.Prelude.{
  ℤ, pos, negsuc, ℕ, ◌+◌, ◌-◌, ◌*◌, String, ◌&&◌, List, [], ◌∷◌, Option, none, some, leb, eqb,
  if◌then◌else◌, ◌-ℤ◌, ◌≡◌, refl,
}

abbrev codes : String → List ℕ
codes String.[] = []
codes (String.◌∷◌ c s) = code c ∷ codes s

-- The value of the digits, read from the left; `none` at another character.
digits_value : ℕ → List ℕ → Option ℕ
digits_value acc [] = some acc
digits_value acc (c ∷ cs) =
    let rest = digits_value (acc * 10 + (c - b'0')) cs in
    if leb b'0' c && leb c b'9' then rest else none

unsigned_value : List ℕ → Option ℕ
unfolding digits_value
unsigned_value [] = none
unsigned_value (c ∷ cs) = digits_value 0 (c ∷ cs)

abbrev positive : Option ℕ → Option ℤ
positive none = none
positive (some n) = if leb n 9223372036854775807 then some (pos n) else none

abbrev negative : Option ℕ → Option ℤ
negative none = none
negative (some n) = if leb n 9223372036854775808 then some (pos 0 -ℤ pos n) else none

signed_value : List ℕ → Option ℤ
unfolding unsigned_value ◌-ℤ◌
signed_value [] = none
signed_value (c ∷ cs) =
    if eqb c b'-'
    then negative (unsigned_value cs)
    else if eqb c b'+'
    then positive (unsigned_value cs)
    else positive (unsigned_value (c ∷ cs))

unfoldable pub parse_int64 : String → Option ℤ
unfolding signed_value
parse_int64 s = signed_value (codes s)

parse_samples :
    (parse_int64 "-12" ≡ some (negsuc 11))
    × (parse_int64 "+7" ≡ some (pos 7))
    × (parse_int64 "1x" ≡ none)
    × (parse_int64 "9223372036854775808" ≡ none)
unfolding parse_int64
parse_samples = (refl, refl, refl, refl)
