-- ===== src/CryptoUtils/Base64/Encode.antt =====
-- base64_encode against the description in Groups, with the bytes that it writes.
use native.Mathlib.Nat.{add-zero, suc-add}
use mathlib.Core.List.{append_assoc}
use airplay.Base.{
  ℕ, zero, suc, ◌+◌, ◌*◌, ◌/◌, ◌%◌, ◌^◌, ◌≤◌, ◌<◌, ◌≡◌, refl, arith, List, [], ◌∷◌, ◌++◌, length,
  All, word, some, true, success, >>=-returns, returns, drop, set, store, store_behind, M, ◌>>◌,
  ◌∙◌, ap, sym, length-append, length-drop,
}
use airplay.CryptoUtils.Base64.{char_of, padding_size, encoded_size, encode_loop, pad_loop, encode}
use airplay.CryptoUtils.Base64.Padding.{pad_loop_lem}
use airplay.CryptoUtils.Base64.Groups.{
  IsByte, text_of, unpadded, length-unpadded, length-text_of, four, triple, triple_sextets,
}

-- Four stores in a row, and what follows them.
store_group :
    (done : List ℕ) (w x y z : ℕ) (rest : List ℕ) (p q r s : ℕ) (k : M (List ℕ) (Unit {0}))
    → (do
      store (length done) p
      store (length done + 1) q
      store (length done + 2) r
      store (length done + 3) s
      k)
        (done ++ w ∷ x ∷ y ∷ z ∷ rest)
      ≡ k (done ++ p ∷ q ∷ r ∷ s ∷ rest)
store_group done w x y z rest p q r s k =
    >>=-returns (store (length done) p) _ _ tt _
      (rw (← add-zero (length done)) (store_behind done (w ∷ x ∷ y ∷ z ∷ rest) 0 p (omega arith)))
    ∙ >>=-returns (store (length done + 1) q) _ _ tt _
        (store_behind done (p ∷ x ∷ y ∷ z ∷ rest) 1 q (omega arith))
    ∙ >>=-returns (store (length done + 2) r) _ _ tt _
        (store_behind done (p ∷ q ∷ y ∷ z ∷ rest) 2 r (omega arith))
    ∙ >>=-returns (store (length done + 3) s) _ _ tt _
        (store_behind done (p ∷ q ∷ r ∷ z ∷ rest) 3 s (omega arith))

-- One round of the loop, with the rest of it as `k`.
abbrev round : ℕ → ℕ → ℕ → ℕ → M (List ℕ) (Unit {0}) → M (List ℕ) (Unit {0})
round a b c j k = do
  store j (char_of (triple a b c / 2 ^ 18 % 64))
  store (j + 1) (char_of (triple a b c / 2 ^ 12 % 64))
  store (j + 2) (char_of (triple a b c / 2 ^ 6 % 64))
  store (j + 3) (char_of (triple a b c % 64))
  k

round-four :
    (a b c : ℕ) (k : M (List ℕ) (Unit {0})) (done block : List ℕ)
    → IsByte a
    → IsByte b
    → IsByte c
    → 4 ≤ length block
    → round a b c (length done) k (done ++ block) ≡ k ((done ++ four a b c) ++ drop 4 block)
round-four a b c k done (w ∷ x ∷ y ∷ z ∷ rest) ha hb hc h =
    let t = triple_sextets a b c ha hb hc in
    rw (t.0, t.1, t.2, t.3)
      (store_group done w x y z rest _ _ _ _ k ∙ ap k (sym (append_assoc done (four a b c) rest)))
round-four a b c k done _ ha hb hc h = absurd (omega arith)

drop-nil : (m : ℕ) → drop {A = ℕ} m [] ≡ []
drop-nil zero = refl
drop-nil (suc m) = refl

drop_four : (m : ℕ) (xs : List ℕ) → drop m (drop 4 xs) ≡ drop (suc (suc (suc (suc m)))) xs
drop_four m [] = drop-nil m
drop_four m (w ∷ []) = drop-nil m
drop_four m (w ∷ x ∷ []) = drop-nil m
drop_four m (w ∷ x ∷ y ∷ []) = drop-nil m
drop_four m (w ∷ x ∷ y ∷ z ∷ rest) = refl

pub encode_loop_lem :
    (fuel : ℕ) (xs done block : List ℕ) (j : ℕ)
    → j ≡ length done
    → All IsByte xs
    → length xs ≤ fuel
    → length (unpadded xs) ≤ length block
    → encode_loop fuel xs j (done ++ block)
      ≡ returns (tt, done ++ (unpadded xs ++ drop (length (unpadded xs)) block))
unfolding encode_loop
encode_loop_lem fuel [] done block j e b f h = refl
encode_loop_lem zero (a ∷ xs) done block j e b f h = absurd (omega arith)
encode_loop_lem (suc fuel) (a ∷ []) done block j e b f h = rw e (
    round-four a 0 0 (encode_loop fuel [] (length done + 4)) done block b.0 (omega arith)
      (omega arith) (omega arith)
    ∙ rw (append_assoc done (four a 0 0), add-zero (a % 4 * 16)) refl)
encode_loop_lem (suc fuel) (a ∷ c ∷ []) done block j e b f h = rw e (
    round-four a c 0 (encode_loop fuel [] (length done + 4)) done block b.0 b.1.0 (omega arith)
      (omega arith)
    ∙ rw (append_assoc done (four a c 0), add-zero (c % 16 * 4)) refl)
encode_loop_lem (suc fuel) (a ∷ c ∷ d ∷ rest) done block j e b f h = rw e (
    round-four a c d (encode_loop fuel rest (length done + 4)) done block b.0 b.1.0 b.1.1.0
      (omega arith)
    ∙ encode_loop_lem fuel rest (done ++ four a c d) (drop 4 block) (length done + 4)
        (omega (arith, length-append done (four a c d))) b.1.1.1 (omega arith)
        (omega (arith, length-drop 4 block))
    ∙ rw (append_assoc done (four a c d), drop_four (length (unpadded rest)) block) refl)

set-drop : (n v : ℕ) (xs : List ℕ) → n < length xs → set (drop n xs) 0 v ≡ v ∷ drop (n + 1) xs
set-drop n v [] h = elim h [ ]
set-drop zero v (x ∷ xs) h = refl
set-drop (suc n) v (x ∷ xs) h = rw suc-add (set-drop n v xs (omega arith))

-- The text and a terminator.
abbrev pub encoded_block : List ℕ → List ℕ → List ℕ
encoded_block bytes block = text_of bytes ++ 0 ∷ drop (length (text_of bytes) + 1) block

encoded_size_lem :
    (bytes : List ℕ)
    → (length bytes + 2) / 3 * 4 < word
    → encoded_size (length bytes) ≡ length (text_of bytes)
encoded_size_lem bytes h = omega (arith, length-text_of bytes)

same_length : (bytes : List ℕ) → length (unpadded bytes) ≡ length (text_of bytes)
same_length bytes = omega (arith, length-unpadded bytes, length-text_of bytes)

terminate :
    (text block : List ℕ)
    → length text < length block
    → store (length text) 0 (text ++ drop (length text) block)
      ≡ returns (tt, text ++ 0 ∷ drop (length text + 1) block)
terminate text block h = rw (add-zero (length text)) at (
    store_behind text (drop (length text) block) 0 0
      (omega (arith, length-drop (length text) block))
    ∙ ap (λ rest. returns (tt, text ++ rest)) (set-drop (length text) 0 block h))

-- For any bytes, with a block that is long enough and a size that does not wrap: base64_encode returns 0,
-- and the block holds the text that Groups describes, a NUL behind it, and what it held further on.
pub encode_lem :
    (bytes block : List ℕ)
    → All IsByte bytes
    → (length bytes + 2) / 3 * 4 < word
    → (length bytes + 2) / 3 * 4 < length block
    → encode (some bytes) true block ≡ returns (success, encoded_block bytes block)
unfolding encode
encode_lem bytes block b w h =
    >>=-returns (encode_loop (length bytes) bytes 0) _ block tt _ (
      encode_loop_lem (length bytes) bytes [] block 0 refl b (omega arith)
        (omega (arith, length-unpadded bytes)))
    ∙ >>=-returns (pad_loop (padding_size (length bytes)) 0 (encoded_size (length bytes))) _
        (unpadded bytes ++ drop (length (unpadded bytes)) block) tt
        (text_of bytes ++ drop (length (unpadded bytes)) block)
        (rw (encoded_size_lem bytes w, ← same_length bytes)
          (pad_loop_lem bytes (drop (length (unpadded bytes)) block)))
    ∙ >>=-returns (store (encoded_size (length bytes)) 0) _ _ tt (encoded_block bytes block) (
        rw (encoded_size_lem bytes w, same_length bytes)
          (terminate (text_of bytes) block (omega (arith, length-text_of bytes))))
