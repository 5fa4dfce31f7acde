-- ===== src/Base/Effects.antt =====
-- How a call ends, and the state monad in which the stateful functions are written.
use mathlib.Core.Path.{◌≡◌, refl}
use mathlib.Core.Bool.{Bool, true, false}

-- `blocks`: the call waits for ever, on a mutex that its own thread holds.
-- `faults`: undefined behaviour, such as an access out of bounds.
pub data Outcome {ℓ} (A : Type ℓ) : Type ℓ where
  returns : A → Outcome A
  blocks : Outcome A
  faults : Outcome A

abbrev pub M : Type 0 → Type 0 → Type 0
M S A = S → Outcome (A × S)

abbrev pub ret : {S A : Type 0} → A → M S A
ret a s = returns (a, s)

infixl 5 ◌>>=◌ ◌>>◌
abbrev pub ◌>>=◌ : {S A B : Type 0} → M S A → (A → M S B) → M S B
◌>>=◌ m f s = elim (m s) [ returns (a, t) ↦ f a t | blocks ↦ blocks | faults ↦ faults ]

abbrev pub ◌>>◌ : {S B : Type 0} → M S (Unit {0}) → M S B → M S B
m >> k = m >>= λ _. k

abbrev pub get : {S : Type 0} → M S S
get s = returns (s, s)

abbrev pub modify : {S : Type 0} → (S → S) → M S (Unit {0})
modify f s = returns (tt, f s)

-- The conditional statement, with and without an `else`.
abbrev pub branch : {S A : Type 0} → Bool → M S A → M S A → M S A
branch b m n s = elim b [ true ↦ m s | false ↦ n s ]

abbrev pub when : {S : Type 0} → Bool → M S (Unit {0}) → M S (Unit {0})
when b m s = elim b [ true ↦ m s | false ↦ returns (tt, s) ]

-- The call returns, and what it returns satisfies `P`.
abbrev pub Returns : {A : Type 0} → (A → Type 0) → Outcome A → Type 0
Returns P (returns a) = P a
Returns P blocks = ⊥
Returns P faults = ⊥

Returns-after :
    {S A B : Type 0} (P : A × S → Type 0) (Q : B × S → Type 0) (f : A → M S B) (s : S)
    (o : Outcome (A × S))
    → Returns P o
    → ((a : A) (t : S) → P (a, t) → Returns Q (f a t))
    → Returns Q (((λ _. o) >>= f) s)
Returns-after P Q f s (returns (a, t)) h k = k a t h
Returns-after P Q f s blocks h k = absurd h
Returns-after P Q f s faults h k = absurd h

-- A sequence returns where its first part does and the rest does from there.
pub Returns->>= :
    {S A B : Type 0} (P : A × S → Type 0) (Q : B × S → Type 0) (m : M S A) (f : A → M S B) (s : S)
    → Returns P (m s)
    → ((a : A) (t : S) → P (a, t) → Returns Q (f a t))
    → Returns Q ((m >>= f) s)
Returns->>= P Q m f s = Returns-after P Q f s (m s)

pub Returns-mono :
    {A : Type 0} (P Q : A → Type 0) (o : Outcome A)
    → Returns P o
    → ((a : A) → P a → Q a)
    → Returns Q o
Returns-mono P Q (returns a) h k = k a h
Returns-mono P Q blocks h k = absurd h
Returns-mono P Q faults h k = absurd h

-- What a call returns, where it returns.
pub Returns-eq :
    {A : Type 0} (P : A → Type 0) (o : Outcome A) → Returns P o → (a : A) × (o ≡ returns a) × P a
Returns-eq P (returns a) h = (a, refl, h)
Returns-eq P blocks h = absurd h
Returns-eq P faults h = absurd h

pub Returns-both :
    {A : Type 0} (P Q : A → Type 0) (o : Outcome A)
    → Returns P o
    → Returns Q o
    → Returns (λ a. P a × Q a) o
Returns-both P Q (returns a) h k = (h, k)
Returns-both P Q blocks h k = absurd h
Returns-both P Q faults h k = absurd h

-- A part that is known to return is a step of the sequence.
pub >>=-returns :
    {S A B : Type 0} (m : M S A) (f : A → M S B) (s : S) (a : A) (t : S)
    → m s ≡ returns (a, t)
    → (m >>= f) s ≡ f a t
>>=-returns m f s a t e = rw (e, ◌>>=◌)
