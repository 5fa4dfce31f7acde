-- ===== src/Base/Kernel.antt =====
-- The process's file descriptors. What the kernel answers to a call is an argument of the call; this
-- is the account of the descriptors that it has given out and not been given back.
use Prim.Native.Nat.{ℕ, ◌+◌}
use mathlib.Core.Path.{◌≡◌}
use mathlib.Core.Bool.{Bool, false, ◌||◌}
use mathlib.Core.List.{List, [], ◌∷◌}
use native.Mathlib.Omega.{arith}
use airplay.Base.Tests.{◌==◌, if◌then◌else◌}
use airplay.Base.Int.{ℤ, pos, negsuc}

-- `bad_closes` counts the calls of close on a number that is no open descriptor (EBADF).
pub record Kernel : Type 0 where
  pub open_fds : List ℕ
  pub bad_closes : ℕ

abbrev pub member : ℕ → List ℕ → Bool
member n [] = false
member n (x ∷ xs) = x == n || member n xs

abbrev pub remove : ℕ → List ℕ → List ℕ
remove n [] = []
remove n (x ∷ xs) = if x == n then xs else x ∷ remove n xs

-- A call such as socket that answers a new descriptor, or a negative number.
abbrev pub granted : ℤ → Kernel → Kernel
granted (pos n) k = record k { open_fds = n ∷ k.open_fds }
granted (negsuc n) k = k

abbrev pub closed : ℤ → Kernel → Kernel
closed (pos n) k =
    if member n k.open_fds
    then record k { open_fds = remove n k.open_fds }
    else record k { bad_closes = k.bad_closes + 1 }
closed (negsuc n) k = record k { bad_closes = k.bad_closes + 1 }

-- What is opened and closed again leaves no trace.
pub closed-granted : (n : ℕ) (k : Kernel) → closed (pos n) (granted (pos n) k) ≡ k
closed-granted n k = ground arith
