-- ===== src/Base/Decimal.antt =====
-- The conversion "%d" of <stdio.h> on a number that is not negative, and a reader for its digits.
use Prim.Native.Nat.{ℕ, zero, suc, ◌+◌, ◌-◌, ◌*◌, ◌/◌, ◌%◌, ◌^◌, ◌≤◌, ◌<◌}
use mathlib.Core.Path.{◌≡◌, refl, ◌∙◌, ap, subst}
use mathlib.Core.Bool.{Bool, true, false, ◌&&◌}
use mathlib.Core.List.{append-nil, List, [], ◌∷◌, ◌++◌}
use native.Mathlib.Omega.{arith}
use airplay.Base.Tests.{ltb, leb, if◌then◌else◌}
use airplay.Base.Lists.{length, length-append, All, All-append}

-- At most `k` digits; `k` is more than enough where it exceeds the number.
unfoldable pub digits : ℕ → ℕ → List ℕ
digits zero n = []
digits (suc k) n = elim (ltb n 10) [
  | true ↦ (48 + n) ∷ []
  | false ↦ digits k (n / 10) ++ (48 + n % 10) ∷ []
]

unfoldable pub decimal : ℕ → List ℕ
unfolding digits
decimal n = digits (suc n) n

-- The numbers that stand in a text, between any other characters.
abbrev pub is_digit : ℕ → Bool
is_digit c = leb 48 c && leb c 57

unfoldable pub read_numbers : ℕ → List ℕ → List ℕ
read_numbers n [] = n ∷ []
read_numbers n (c ∷ cs) =
    let more = read_numbers (10 * n + (c - 48)) cs in
    let next = read_numbers 0 cs in if is_digit c then more else n ∷ next

abbrev pub IsDigit : ℕ → Type 0
IsDigit c = (48 ≤ c) × (c ≤ 57)

value : ℕ → List ℕ → ℕ
value n [] = n
value n (c ∷ cs) = value (10 * n + (c - 48)) cs

value-append : (n c : ℕ) (cs : List ℕ) → value n (cs ++ c ∷ []) ≡ 10 * value n cs + (c - 48)
unfolding value
value-append n c [] = refl
value-append n c (x ∷ cs) = value-append (10 * n + (x - 48)) c cs

value-digits : (k n : ℕ) → n < k → value 0 (digits k n) ≡ n
unfolding digits value
value-digits zero n h = absurd (omega arith)
value-digits (suc k) n h = ground (
  arith,
  value-append 0 (48 + n % 10) (digits k (n / 10)),
  λ (p : n / 10 < k). value-digits k (n / 10) p,
)

digits-IsDigit : (k n : ℕ) → All IsDigit (digits k n)
unfolding digits
digits-IsDigit zero n = tt
digits-IsDigit (suc k) n = ground (
  arith,
  All-append IsDigit (digits k (n / 10)) ((48 + n % 10) ∷ []) (digits-IsDigit k (n / 10))
      ((omega arith, omega arith), tt),
)

length-digits : (m k n : ℕ) → n < 10 ^ suc m → length (digits k n) ≤ suc m
unfolding digits
length-digits m zero n h = omega arith
length-digits zero (suc k) n h = ground arith
length-digits (suc m) (suc k) n h = ground (
  arith,
  length-append (digits k (n / 10)) ((48 + n % 10) ∷ []),
  λ (p : n / 10 < 10 ^ suc m). length-digits m k (n / 10) p,
)

read_digits :
    (n : ℕ) (ds rest : List ℕ)
    → All IsDigit ds
    → read_numbers n (ds ++ rest) ≡ read_numbers (value n ds) rest
unfolding read_numbers value
read_digits n [] rest h = refl
read_digits n (d ∷ ds) rest h = ground (arith, read_digits (10 * n + (d - 48)) ds rest h.1)

-- A printed number is read back.
pub read_decimal :
    (n : ℕ) (rest : List ℕ) → read_numbers 0 (decimal n ++ rest) ≡ read_numbers n rest
unfolding decimal
read_decimal n rest =
    read_digits 0 (digits (suc n) n) rest (digits-IsDigit (suc n) n)
    ∙ ap (λ v. read_numbers v rest) (value-digits (suc n) n (omega arith))

pub read_decimal_last : (n : ℕ) → read_numbers 0 (decimal n) ≡ n ∷ []
unfolding read_numbers
read_decimal_last n =
    subst (λ ds. read_numbers 0 ds ≡ n ∷ []) (append-nil (decimal n)) (read_decimal n [])

pub decimal-IsDigit : (n : ℕ) → All IsDigit (decimal n)
unfolding decimal
decimal-IsDigit n = digits-IsDigit (suc n) n

pub length-decimal : (m n : ℕ) → n < 10 ^ suc m → length (decimal n) ≤ suc m
unfolding decimal
length-decimal m n h = length-digits m (suc n) n h
