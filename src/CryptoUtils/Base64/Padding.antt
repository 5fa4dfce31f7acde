-- ===== src/CryptoUtils/Base64/Padding.antt =====
-- The loop of base64_encode that writes the padding over the last characters.
use airplay.Base.{
  ℕ, zero, suc, ◌+◌, ◌-◌, ◌≤◌, ◌<◌, ◌≡◌, refl, arith, List, [], ◌∷◌, ◌++◌, length, returns, set,
  store, store_within, >>=-returns, ◌∙◌, ap, length-set, length-append,
}
use airplay.CryptoUtils.Base64.{equals_sign, padding_size, pad_loop}
use airplay.CryptoUtils.Base64.Groups.{four, text_of, unpadded, length-unpadded}

-- What the loop makes of a block that is long enough.
abbrev padded : ℕ → ℕ → ℕ → List ℕ → List ℕ
padded zero i n block = block
padded (suc rounds) i n block = padded rounds (i + 1) n (set block (n - 1 - i) equals_sign)

pad_loop-padded :
    (rounds i n : ℕ) (block : List ℕ)
    → i + rounds ≤ n
    → n ≤ length block
    → pad_loop rounds i n block ≡ returns (tt, padded rounds i n block)
unfolding pad_loop
pad_loop-padded zero i n block h k = refl
pad_loop-padded (suc rounds) i n block h k =
    >>=-returns (store (n - 1 - i) equals_sign) _ block tt _
      (store_within (n - 1 - i) equals_sign block (omega arith))
    ∙ pad_loop-padded rounds (i + 1) n (set block (n - 1 - i) equals_sign) (omega arith)
        (omega (arith, length-set block (n - 1 - i) equals_sign))

-- A group in front stays as it is.
set_behind :
    (w x y z i n v : ℕ) (block : List ℕ)
    → i < n
    → set (w ∷ x ∷ y ∷ z ∷ block) (suc (suc (suc (suc n))) - 1 - i) v
      ≡ w ∷ x ∷ y ∷ z ∷ set block (n - 1 - i) v
set_behind w x y z i n v block h =
    let e : suc (suc (suc (suc n))) - 1 - i ≡ suc (suc (suc (suc (n - 1 - i)))) = omega arith in
    rw e

padded_behind :
    (rounds i n w x y z : ℕ) (block : List ℕ)
    → i + rounds ≤ n
    → padded rounds i (suc (suc (suc (suc n)))) (w ∷ x ∷ y ∷ z ∷ block)
      ≡ w ∷ x ∷ y ∷ z ∷ padded rounds i n block
padded_behind zero i n w x y z block h = refl
padded_behind (suc rounds) i n w x y z block h =
    rw (set_behind w x y z i n equals_sign block (omega arith))
      (padded_behind rounds (i + 1) n w x y z (set block (n - 1 - i) equals_sign) (omega arith))

padding-le : (xs : List ℕ) → padding_size (length xs) ≤ length (unpadded xs)
padding-le [] = omega arith
padding-le (x ∷ xs) = omega (arith, length-unpadded (x ∷ xs))

padding_three : (n : ℕ) → padding_size (suc (suc (suc n))) ≡ padding_size n
padding_three n = omega arith

padded-unpadded :
    (xs rest : List ℕ)
    → padded (padding_size (length xs)) 0 (length (unpadded xs)) (unpadded xs ++ rest)
      ≡ text_of xs ++ rest
padded-unpadded [] rest = refl
padded-unpadded (a ∷ []) rest = refl
padded-unpadded (a ∷ b ∷ []) rest = refl
padded-unpadded (a ∷ b ∷ c ∷ xs) rest = rw (padding_three (length xs)) (
    padded_behind (padding_size (length xs)) 0 (length (unpadded xs)) _ _ _ _ (unpadded xs ++ rest)
      (omega (arith, padding-le xs))
    ∙ ap (◌++◌ (four a b c)) (padded-unpadded xs rest))

pub pad_loop_lem :
    (xs rest : List ℕ)
    → pad_loop (padding_size (length xs)) 0 (length (unpadded xs)) (unpadded xs ++ rest)
      ≡ returns (tt, text_of xs ++ rest)
pad_loop_lem xs rest =
    pad_loop-padded (padding_size (length xs)) 0 (length (unpadded xs)) (unpadded xs ++ rest)
      (omega (arith, padding-le xs)) (omega (arith, length-append (unpadded xs) rest))
    ∙ ap (λ block. returns (tt, block)) (padded-unpadded xs rest)
