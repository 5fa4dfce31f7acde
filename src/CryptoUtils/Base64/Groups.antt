-- ===== src/CryptoUtils/Base64/Groups.antt =====
-- Base64 as RFC 4648 describes it: three bytes to four characters, and padding at the end.
use airplay.Base.{ℕ, ◌+◌, ◌*◌, ◌/◌, ◌%◌, ◌^◌, ◌<◌, ◌≡◌, refl, arith, List, [], ◌∷◌, length, word}
use airplay.CryptoUtils.Base64.{char_of, equals_sign}

abbrev pub IsByte : ℕ → Type 0
IsByte x = x < 256

-- The characters of three bytes.
abbrev pub four : ℕ → ℕ → ℕ → List ℕ
four a b c =
    char_of (a / 4)
    ∷ char_of (a % 4 * 16 + b / 16)
    ∷ char_of (b % 16 * 4 + c / 64)
    ∷ char_of (c % 64)
    ∷ []

-- What the text of some bytes is.
abbrev pub text_of : List ℕ → List ℕ
text_of [] = []
text_of (a ∷ []) = char_of (a / 4) ∷ char_of (a % 4 * 16) ∷ equals_sign ∷ equals_sign ∷ []
text_of (a ∷ b ∷ []) =
    char_of (a / 4) ∷ char_of (a % 4 * 16 + b / 16) ∷ char_of (b % 16 * 4) ∷ equals_sign ∷ []
text_of (a ∷ b ∷ c ∷ rest) =
    char_of (a / 4)
    ∷ char_of (a % 4 * 16 + b / 16)
    ∷ char_of (b % 16 * 4 + c / 64)
    ∷ char_of (c % 64)
    ∷ text_of rest

-- The text before the padding is put in.
abbrev pub unpadded : List ℕ → List ℕ
unpadded [] = []
unpadded (a ∷ []) = char_of (a / 4) ∷ char_of (a % 4 * 16) ∷ char_of 0 ∷ char_of 0 ∷ []
unpadded (a ∷ b ∷ []) =
    char_of (a / 4) ∷ char_of (a % 4 * 16 + b / 16) ∷ char_of (b % 16 * 4) ∷ char_of 0 ∷ []
unpadded (a ∷ b ∷ c ∷ rest) =
    char_of (a / 4)
    ∷ char_of (a % 4 * 16 + b / 16)
    ∷ char_of (b % 16 * 4 + c / 64)
    ∷ char_of (c % 64)
    ∷ unpadded rest

pub length-unpadded : (xs : List ℕ) → length (unpadded xs) ≡ (length xs + 2) / 3 * 4
length-unpadded [] = refl
length-unpadded (a ∷ []) = refl
length-unpadded (a ∷ b ∷ []) = refl
length-unpadded (a ∷ b ∷ c ∷ rest) = omega (arith, length-unpadded rest)

pub length-text_of : (xs : List ℕ) → length (text_of xs) ≡ (length xs + 2) / 3 * 4
length-text_of [] = refl
length-text_of (a ∷ []) = refl
length-text_of (a ∷ b ∷ []) = refl
length-text_of (a ∷ b ∷ c ∷ rest) = omega (arith, length-text_of rest)

-- The four sextets of three bytes.
abbrev pub triple : ℕ → ℕ → ℕ → ℕ
triple a b c = (a * 2 ^ 16 + b * 2 ^ 8 + c) % word

pub triple_sextets :
    (a b c : ℕ)
    → IsByte a
    → IsByte b
    → IsByte c
    → (triple a b c / 2 ^ 18 % 64 ≡ a / 4)
      × (triple a b c / 2 ^ 12 % 64 ≡ a % 4 * 16 + b / 16)
      × (triple a b c / 2 ^ 6 % 64 ≡ b % 16 * 4 + c / 64)
      × (triple a b c % 64 ≡ c % 64)
triple_sextets a b c h k l = omega arith
