-- ===== src/Base/Memory.antt =====
-- A block of bytes that a function writes to through a pointer.
use Prim.Native.Nat.{ℕ, ◌+◌, ◌<◌, ◌^◌}
use mathlib.Core.Path.{◌≡◌, ap}
use mathlib.Core.Bool.{true, false}
use mathlib.Core.List.{List, [], ◌∷◌, ◌++◌}
use native.Mathlib.Omega.{arith}
use native.Mathlib.Nat.{zero-add, suc-add, add-zero}
use airplay.Base.Tests.{ltb, lt→ltb}
use airplay.Base.Lists.{length, set, length-append}
use airplay.Base.Effects.{returns, faults, M}

-- size_t and uint32_t have 32 bits on the targets, MIPS 24Kc and ARM.
abbrev pub word : ℕ
word = 2 ^ 32

-- `block[i] = v;`, undefined past the end of the block.
unfoldable pub store : ℕ → ℕ → M (List ℕ) (Unit {0})
store i v block = elim (ltb i (length block)) [
  | true ↦ returns (tt, set block i v)
  | false ↦ faults
]

pub store_within :
    (i v : ℕ) (block : List ℕ) → i < length block → store i v block ≡ returns (tt, set block i v)
unfolding store
store_within i v block h = rw (lt→ltb i (length block) h, store)

set-append :
    (done xs : List ℕ) (i v : ℕ) → set (done ++ xs) (length done + i) v ≡ done ++ set xs i v
set-append [] xs i v = rw zero-add
set-append (x ∷ done) xs i v = rw suc-add (ap (◌∷◌ x) (set-append done xs i v))

-- A store behind what is written so far.
pub store_behind :
    (done xs : List ℕ) (i v : ℕ)
    → i < length xs
    → store (length done + i) v (done ++ xs) ≡ returns (tt, done ++ set xs i v)
store_behind done xs i v h =
    rw (← set-append done xs i v)
      (store_within (length done + i) v (done ++ xs) (omega (arith, length-append done xs)))

-- A store at the first byte behind it.
pub store_next :
    (done : List ℕ) (old v : ℕ) (rest : List ℕ)
    → store (length done) v (done ++ old ∷ rest) ≡ returns (tt, done ++ v ∷ rest)
store_next done old v rest =
    rw (add-zero (length done)) at (store_behind done (old ∷ rest) 0 v (omega arith))
