-- ===== src/Base/CString.antt =====
-- C strings in arrays: the bytes before the first NUL, and the functions of <string.h> that the code
-- calls on them.
use Prim.Native.Nat.{ℕ, zero, suc, ◌<◌}
use mathlib.Core.Path.{◌≡◌, refl, ap}
use mathlib.Core.Logic.{◌≢◌, ◌↔◌}
use mathlib.Core.Bool.{Bool, true, false, ◌&&◌}
use mathlib.Core.List.{List, [], ◌∷◌, ◌++◌}
use Prim.Native.Char.{code}
use Prim.Native.String.{String}
use native.Mathlib.Omega.{arith}
use airplay.Base.Tests.{◌==◌, if◌then◌else◌, ==_ne}
use airplay.Base.Lists.{length, take, set, All}

-- The code points of an ASCII literal, and a line that ends in CR LF.
abbrev pub codes : String → List ℕ
codes String.[] = []
codes (String.◌∷◌ c s) = code c ∷ codes s

abbrev pub line : String → List ℕ
line s = codes s ++ 13 ∷ 10 ∷ []

-- The string that an array holds.
unfoldable pub c_string : List ℕ → List ℕ
c_string [] = []
c_string (x ∷ xs) = if x == 0 then [] else x ∷ c_string xs

-- A string holds no NUL.
abbrev pub IsString : List ℕ → Type 0
IsString = All λ x. x ≢ 0

pub c_string-terminated : (s rest : List ℕ) → IsString s → c_string (s ++ 0 ∷ rest) ≡ s
unfolding c_string
c_string-terminated [] rest h = refl
c_string-terminated (x ∷ s) rest h =
    rw (==_ne x 0 h.0) (ap (◌∷◌ x) (c_string-terminated s rest h.1))

-- strcmp(a, b) == 0, on the strings of two arrays.
unfoldable pub strcmp_eq : List ℕ → List ℕ → Bool
strcmp_eq [] [] = true
strcmp_eq [] (y ∷ ys) = false
strcmp_eq (x ∷ xs) [] = false
strcmp_eq (x ∷ xs) (y ∷ ys) = x == y && strcmp_eq xs ys

strcmp_eq_sound : (a b : List ℕ) → strcmp_eq a b ≡ true → a ≡ b
unfolding strcmp_eq
strcmp_eq_sound [] [] h = refl
strcmp_eq_sound [] (y ∷ ys) h = cc
strcmp_eq_sound (x ∷ xs) [] h = cc
strcmp_eq_sound (x ∷ xs) (y ∷ ys) h = ground (arith, strcmp_eq_sound xs ys)

strcmp_eq_refl : (a : List ℕ) → strcmp_eq a a ≡ true
unfolding strcmp_eq
strcmp_eq_refl [] = refl
strcmp_eq_refl (x ∷ xs) = ground (arith, strcmp_eq_refl xs)

pub strcmp_eq_iff : (a b : List ℕ) → (strcmp_eq a b ≡ true) ↔ (a ≡ b)
strcmp_eq_iff a b = (strcmp_eq_sound a b, λ e. rw e (strcmp_eq_refl b))

-- strncmp(a, prefix, strlen(prefix)) == 0.
unfoldable pub strncmp_eq : List ℕ → List ℕ → Bool
strncmp_eq a [] = true
strncmp_eq [] (p ∷ ps) = false
strncmp_eq (x ∷ xs) (p ∷ ps) = x == p && strncmp_eq xs ps

-- strncpy(array, s, n): the first `n` bytes of the string, and NULs up to `n` where it is shorter.
unfoldable pub strncpy : List ℕ → List ℕ → ℕ → List ℕ
strncpy array s zero = array
strncpy [] s (suc n) = []
strncpy (x ∷ array) [] (suc n) = 0 ∷ strncpy array [] n
strncpy (x ∷ array) (c ∷ s) (suc n) = c ∷ strncpy array s n

-- strcpy(array, s): the string and its NUL.
unfoldable pub strcpy : List ℕ → List ℕ → List ℕ
strcpy [] s = []
strcpy (x ∷ array) [] = 0 ∷ array
strcpy (x ∷ array) (c ∷ s) = c ∷ strcpy array s

-- `strncpy(array, s, n); array[n] = '\0';` holds the string, cut off at `n` bytes.
pub c_string-strncpy :
    (array s : List ℕ) (n : ℕ)
    → IsString s
    → n < length array
    → c_string (set (strncpy array s n) n 0) ≡ take n s
unfolding c_string strncpy
c_string-strncpy [] s n h k = elim k [ ]
c_string-strncpy (x ∷ array) s zero h k = refl
c_string-strncpy (x ∷ array) [] (suc n) h k = refl
c_string-strncpy (x ∷ array) (c ∷ s) (suc n) h k =
    rw (==_ne c 0 h.0) (ap (◌∷◌ c) (c_string-strncpy array s n h.1 (omega arith)))

pub length-strncpy : (array s : List ℕ) (n : ℕ) → length (strncpy array s n) ≡ length array
unfolding strncpy
length-strncpy array s zero = refl
length-strncpy [] s (suc n) = refl
length-strncpy (x ∷ array) [] (suc n) = ap suc (length-strncpy array [] n)
length-strncpy (x ∷ array) (c ∷ s) (suc n) = ap suc (length-strncpy array s n)

pub c_string-strcpy :
    (array s : List ℕ) → IsString s → length s < length array → c_string (strcpy array s) ≡ s
unfolding c_string strcpy
c_string-strcpy [] s h k = elim k [ ]
c_string-strcpy (x ∷ array) [] h k = refl
c_string-strcpy (x ∷ array) (c ∷ s) h k = ground (arith, c_string-strcpy array s h.1)

pub length-strcpy : (array s : List ℕ) → length (strcpy array s) ≡ length array
unfolding strcpy
length-strcpy [] s = refl
length-strcpy (x ∷ array) [] = refl
length-strcpy (x ∷ array) (c ∷ s) = ap suc (length-strcpy array s)
