-- ===== src/Uuid.antt =====
-- UUIDs of version 4: pkg/uuid/uuid.go. Its pattern is `is_uuid` of Api/Identifiers.
use Prim.Native.Char.{Char}
use bucketeer.Prelude.{ℕ, ◌+◌, ◌/◌, ◌%◌, String, Option, none, some, eqb, if◌then◌else◌}
pub mod Valid

-- The sixteen bytes, each under 256.
pub record Uuid : Type 0 where
  pub b0 : ℕ
  pub b1 : ℕ
  pub b2 : ℕ
  pub b3 : ℕ
  pub b4 : ℕ
  pub b5 : ℕ
  pub b6 : ℕ
  pub b7 : ℕ
  pub b8 : ℕ
  pub b9 : ℕ
  pub b10 : ℕ
  pub b11 : ℕ
  pub b12 : ℕ
  pub b13 : ℕ
  pub b14 : ℕ
  pub b15 : ℕ

-- `(b & 0x3f) | 0x80`: the bits set are apart, so the disjunction is a sum.
unfoldable pub set_variant : Uuid → Uuid
set_variant u = record u { b8 = u.b8 % 64 + 128 }

-- `(b & 0x0f) | 0x40`.
unfoldable pub set_version : Uuid → Uuid
set_version u = record u { b6 = u.b6 % 16 + 64 }

-- `random` is what `rand.Read` fills in; `none` is its error.
unfoldable pub new_uuid : Option Uuid → Option Uuid
new_uuid none = none
new_uuid (some random) = some (set_version (set_variant random))

unfoldable pub hex_digit : ℕ → Char
hex_digit n =
    if eqb n 0
    then "0"
    else if eqb n 1
    then "1"
    else if eqb n 2
    then "2"
    else if eqb n 3
    then "3"
    else if eqb n 4
    then "4"
    else if eqb n 5
    then "5"
    else if eqb n 6
    then "6"
    else if eqb n 7
    then "7"
    else if eqb n 8
    then "8"
    else if eqb n 9
    then "9"
    else if eqb n 10
    then "a"
    else if eqb n 11
    then "b"
    else if eqb n 12
    then "c"
    else if eqb n 13
    then "d"
    else if eqb n 14
    then "e"
    else "f"

-- `%x` of one byte, before the rest.
unfoldable pub hex_byte : ℕ → String → String
hex_byte b rest = String.◌∷◌ (hex_digit (b / 16)) (String.◌∷◌ (hex_digit (b % 16)) rest)

unfoldable pub hyphen : String → String
hyphen rest = String.◌∷◌ "-" rest

unfoldable pub to_string : Uuid → String
to_string u = hex_byte u.b0 (
    hex_byte u.b1 (
      hex_byte u.b2 (
        hex_byte u.b3 (
          hyphen (
            hex_byte u.b4 (
              hex_byte u.b5 (
                hyphen (
                  hex_byte u.b6 (
                    hex_byte u.b7 (
                      hyphen (
                        hex_byte u.b8 (
                          hex_byte u.b9 (
                            hyphen (
                              hex_byte u.b10 (
                                hex_byte u.b11 (
                                  hex_byte u.b12 (
                                    hex_byte u.b13
                                      (hex_byte u.b14 (hex_byte u.b15 "")))))))))))))))))))
