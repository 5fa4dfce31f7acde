-- ===== src/Base/Descriptors.antt =====
-- The account of the open descriptors, number by number.
use Prim.Native.Nat.{ℕ, ◌+◌, ◌≤◌}
use mathlib.Core.Path.{◌≡◌}
use mathlib.Core.Bool.{true, false}
use mathlib.Core.List.{List, [], ◌∷◌}
use native.Mathlib.Omega.{arith}
use airplay.Base.Tests.{◌==◌, if◌then◌else◌}
use airplay.Base.Int.{ℤ, pos, negsuc, eqb_ℤ, is_negative}
use airplay.Base.Kernel.{Kernel, granted, closed, member, remove}

-- How often a number stands among the open descriptors.
abbrev pub count : ℕ → List ℕ → ℕ
count n [] = 0
count n (x ∷ xs) = (if x == n then 1 else 0) + count n xs

-- Whether a number of the program's is this descriptor.
abbrev pub holds : ℕ → ℤ → ℕ
holds n fd = if eqb_ℤ fd (pos n) then 1 else 0

pub count-remove :
    (m n : ℕ) (fds : List ℕ)
    → 1 ≤ count m fds
    → count n (remove m fds) + (if m == n then 1 else 0) ≡ count n fds
count-remove m n [] h = elim h [ ]
count-remove m n (x ∷ fds) h = ground (arith, count-remove m n fds)

pub count-member : (m : ℕ) (fds : List ℕ) → 1 ≤ count m fds → member m fds ≡ true
count-member m [] h = elim h [ ]
count-member m (x ∷ fds) h = ground (arith, count-member m fds)

-- To close an open descriptor takes one away.
pub count-closed :
    (m n : ℕ) (k : Kernel)
    → 1 ≤ count m k.open_fds
    → (count n (closed (pos m) k).open_fds + (if m == n then 1 else 0) ≡ count n k.open_fds)
      × ((closed (pos m) k).bad_closes ≡ k.bad_closes)
count-closed m n k h = ground (arith, count-member m k.open_fds h, count-remove m n k.open_fds h)

pub holds_self : (m : ℕ) → holds m (pos m) ≡ 1
holds_self m = ground arith

-- A held descriptor that is closed is accounted for.
pub closed-Balanced :
    (fd : ℤ) (others : ℕ → ℕ) (k : Kernel)
    → is_negative fd ≡ false
    → ((n : ℕ) → count n k.open_fds ≡ holds n fd + others n)
    → ((n : ℕ) → count n (closed fd k).open_fds ≡ others n)
      × ((closed fd k).bad_closes ≡ k.bad_closes)
closed-Balanced (pos m) others k v b =
    let open_m : 1 ≤ count m k.open_fds = omega (arith, b m, holds_self m) in
    (λ n. ground (arith, b n, count-closed m n k open_m), ground (arith, count-closed m m k open_m))
closed-Balanced (negsuc m) others k v b = cc

pub count-granted :
    (fd : ℤ) (n : ℕ) (k : Kernel)
    → count n (granted fd k).open_fds ≡ holds n fd + count n k.open_fds
count-granted (pos m) n k = ground arith
count-granted (negsuc m) n k = ground arith
