-- ===== src/Uuid/Valid.antt =====
-- What NewUUID of pkg/uuid/uuid.go makes, ValidateUUID accepts.
use Prim.Native.Char.{Char, code}
use bucketeer.Prelude.{
  ℕ, ◌+◌, ◌/◌, ◌%◌, ◌≤◌, arith, String, Bool, true, List, ◌∷◌, [], none, some, ◌≡◌, refl, eqb, ◌⊎◌,
  inl, inr, if_ind,
}
use bucketeer.Api.Identifiers.{char_codes, is_hex, is_variant, matches, uuid_tests, is_uuid}
use bucketeer.Uuid.{
  Uuid, set_variant, set_version, new_uuid, hex_digit, hex_byte, hyphen, to_string,
}

abbrev IsHex : Char → Type 0
IsHex c = is_hex (code c) ≡ true

hex_digit-hex : (n : ℕ) → is_hex (code (hex_digit n)) ≡ true
unfolding hex_digit
hex_digit-hex n =
    if_ind IsHex (eqb n 0) (λ e. refl)
      λ e0.
        if_ind IsHex (eqb n 1) (λ e. refl)
          λ e1.
            if_ind IsHex (eqb n 2) (λ e. refl)
              λ e2.
                if_ind IsHex (eqb n 3) (λ e. refl)
                  λ e3.
                    if_ind IsHex (eqb n 4) (λ e. refl)
                      λ e4.
                        if_ind IsHex (eqb n 5) (λ e. refl)
                          λ e5.
                            if_ind IsHex (eqb n 6) (λ e. refl)
                              λ e6.
                                if_ind IsHex (eqb n 7) (λ e. refl)
                                  λ e7.
                                    if_ind IsHex (eqb n 8) (λ e. refl)
                                      λ e8.
                                        if_ind IsHex (eqb n 9) (λ e. refl)
                                          λ e9.
                                            if_ind IsHex (eqb n 10) (λ e. refl)
                                              λ e10.
                                                if_ind IsHex (eqb n 11) (λ e. refl)
                                                  λ e11.
                                                    if_ind IsHex (eqb n 12) (λ e. refl)
                                                      λ e12.
                                                        if_ind IsHex (eqb n 13) (λ e. refl)
                                                          λ e13.
                                                            if_ind IsHex (eqb n 14) (λ e. refl)
                                                            λ e14. refl

-- The text fits the tests, one character for each.
record Fits (ts : List (ℕ → Bool)) (s : String) : Type 0 where
  fits : matches ts (char_codes s) ≡ true

variant_digit : (n : ℕ) → 8 ≤ n → n ≤ 11 → (n ≡ 8) ⊎ (n ≡ 9) ⊎ (n ≡ 10) ⊎ (n ≡ 11)
variant_digit n h k = omega arith

hex_digit-variant : (n : ℕ) → 8 ≤ n → n ≤ 11 → is_variant (code (hex_digit n)) ≡ true
unfolding hex_digit
hex_digit-variant n h k = elim (variant_digit n h k) [
  | inl e ↦ rw (e) refl
  | inr (inl e) ↦ rw (e) refl
  | inr (inr (inl e)) ↦ rw (e) refl
  | inr (inr (inr e)) ↦ rw (e) refl
]

version_digit : (b : ℕ) → (b % 16 + 64) / 16 ≡ 4
version_digit b = omega arith

variant_from : (b : ℕ) → 8 ≤ (b % 64 + 128) / 16
variant_from b = omega arith

variant_to : (b : ℕ) → (b % 64 + 128) / 16 ≤ 11
variant_to b = omega arith

hex_digit-version : (b : ℕ) → eqb (code (hex_digit ((b % 16 + 64) / 16))) b'4' ≡ true
unfolding hex_digit
hex_digit-version b = rw (version_digit b) refl

module _ {ts : List (ℕ → Bool)} {s : String} (h : Fits ts s) where
  hex_byte-Fits : (b : ℕ) → Fits (is_hex ∷ is_hex ∷ ts) (hex_byte b s)
  unfolding hex_byte
  hex_byte-Fits b = record { fits = rw (hex_digit-hex (b / 16), hex_digit-hex (b % 16)) h.fits }

  hyphen-Fits : Fits ((λ c. eqb c b'-') ∷ ts) (hyphen s)
  unfolding hyphen
  hyphen-Fits = record { fits = h.fits }

  version-Fits : (b : ℕ) → Fits ((λ c. eqb c b'4') ∷ is_hex ∷ ts) (hex_byte (b % 16 + 64) s)
  unfolding hex_byte
  version-Fits b = record {
    fits = rw (hex_digit-version b, hex_digit-hex ((b % 16 + 64) % 16)) h.fits;
  }

  variant-Fits : (b : ℕ) → Fits (is_variant ∷ is_hex ∷ ts) (hex_byte (b % 64 + 128) s)
  unfolding hex_byte
  variant-Fits b = record {
    fits =
        rw
          (
            hex_digit-variant ((b % 64 + 128) / 16) (variant_from b) (variant_to b),
            hex_digit-hex ((b % 64 + 128) % 16),
          )
          h.fits;
  }

none-Fits : Fits [] ""
none-Fits = record { fits = refl }

to_string-Fits : (u : Uuid) → Fits uuid_tests (to_string (set_version (set_variant u)))
unfolding set_version set_variant to_string
to_string-Fits u =
    hex_byte-Fits
      (hex_byte-Fits
        (hex_byte-Fits
          (hex_byte-Fits
            (hyphen-Fits (
              hex_byte-Fits
                (hex_byte-Fits
                  (hyphen-Fits (
                    version-Fits
                      (hex_byte-Fits
                        (hyphen-Fits (
                          variant-Fits
                            (hex_byte-Fits
                              (hyphen-Fits (
                                hex_byte-Fits
                                  (hex_byte-Fits
                                    (hex_byte-Fits
                                      (hex_byte-Fits
                                        (hex_byte-Fits (hex_byte-Fits none-Fits u.b15) u.b14) u.b13)
                                      u.b12)
                                    u.b11)
                                  u.b10))
                              u.b9)
                            u.b8))
                        u.b7)
                      u.b6))
                  u.b5)
                u.b4))
            u.b3)
          u.b2)
        u.b1)
      u.b0

-- Whatever bytes the random source gives, the UUID that NewUUID makes of them has a text that the
-- pattern of UUIDs of version 4 accepts; where the source fails, none is made.
pub new_uuid-valid :
    (random : Uuid)
    → (new_uuid none ≡ none)
      × (u : Uuid) × (new_uuid (some random) ≡ some u)
      × (is_uuid (to_string u) ≡ true)
unfolding new_uuid is_uuid
new_uuid-valid random = (refl, set_version (set_variant random), refl, (to_string-Fits random).fits)
