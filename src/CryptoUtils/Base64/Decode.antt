-- ===== src/CryptoUtils/Base64/Decode.antt =====
-- The loop of base64_decode on the text of some bytes.
use mathlib.Core.List.{append_assoc}
use airplay.Base.{
  ℕ, ◌+◌, ◌*◌, ◌/◌, ◌%◌, ◌^◌, ◌≤◌, ◌<◌, ◌≡◌, refl, arith, List, [], ◌∷◌, ◌++◌, length, All, word,
  >>=-returns, returns, drop, store, store_next, M, ◌>>=◌, ◌∙◌, length-append, lt→ltb, ltb-false,
}
use airplay.CryptoUtils.Base64.{sextet, emit, decode_loop}
use airplay.CryptoUtils.Base64.Table.{sextet-char_of, sextet-equals_sign}
use airplay.CryptoUtils.Base64.Groups.{IsByte, text_of}

-- A byte that is still wanted goes behind what is written so far.
emit_takes :
    (n v j : ℕ) (done : List ℕ) (old : ℕ) (block : List ℕ)
    → j ≡ length done
    → j < n
    → emit n v j (done ++ old ∷ block) ≡ returns (j + 1, done ++ v ∷ block)
unfolding emit
emit_takes n v j done old block e h =
    rw (lt→ltb j n h) (>>=-returns (store j v) _ _ tt _ (rw e (store_next done old v block)))

emit_skips : (n v j : ℕ) (block : List ℕ) → n ≤ j → emit n v j block ≡ returns (j, block)
unfolding emit
emit_skips n v j block h = rw (ltb-false j n h)

-- The number that four sextets make.
abbrev pub joined : ℕ → ℕ → ℕ → ℕ → ℕ
joined a b c d = (a * 2 ^ 18 + b * 2 ^ 12 + c * 2 ^ 6 + d) % word

-- The three bytes of a number, with the rest of the loop as `k`.
abbrev pub emits : ℕ → ℕ → ℕ → (ℕ → M (List ℕ) (Unit {0})) → ℕ → ℕ → M (List ℕ) (Unit {0})
emits x y z k n j = do j₁ ← emit n x j; j₂ ← emit n y j₁; j₃ ← emit n z j₂; k j₃

abbrev pub bytes_of : (ℕ → M (List ℕ) (Unit {0})) → ℕ → ℕ → ℕ → M (List ℕ) (Unit {0})
bytes_of k n j t = emits (t / 2 ^ 16 % 256) (t / 2 ^ 8 % 256) (t % 256) k n j

-- One round of the loop, on four characters whose sextets are known.
pub decode_round :
    (n p q r s j a b c d : ℕ) (rest block : List ℕ)
    → sextet p block ≡ returns (a, block)
    → sextet q block ≡ returns (b, block)
    → sextet r block ≡ returns (c, block)
    → sextet s block ≡ returns (d, block)
    → decode_loop n (p ∷ q ∷ r ∷ s ∷ rest) j block
      ≡ bytes_of (decode_loop n rest) n j (joined a b c d) block
unfolding decode_loop
decode_round n p q r s j a b c d rest block e f g h =
    >>=-returns (sextet p) _ block a block e
    ∙ >>=-returns (sextet q) _ block b block f
    ∙ >>=-returns (sextet r) _ block c block g
    ∙ >>=-returns (sextet s) _ block d block h

joined_one : (a : ℕ) → IsByte a → joined (a / 4) (a % 4 * 16) 0 0 / 2 ^ 16 % 256 ≡ a
joined_one a h = omega arith

joined_two :
    (a b : ℕ)
    → IsByte a
    → IsByte b
    → let t = joined (a / 4) (a % 4 * 16 + b / 16) (b % 16 * 4) 0 in
      (t / 2 ^ 16 % 256 ≡ a) × (t / 2 ^ 8 % 256 ≡ b)
joined_two a b h k = omega arith

joined_three :
    (a b c : ℕ)
    → IsByte a
    → IsByte b
    → IsByte c
    → let t = joined (a / 4) (a % 4 * 16 + b / 16) (b % 16 * 4 + c / 64) (c % 64) in
      (t / 2 ^ 16 % 256 ≡ a) × (t / 2 ^ 8 % 256 ≡ b) × (t % 256 ≡ c)
joined_three a b c h k l = omega arith

-- Bytes that are still wanted are written one after the other, and no others.
module _ (n j : ℕ) (done : List ℕ) (k : ℕ → M (List ℕ) (Unit {0})) (e : j ≡ length done) where
  emit_one :
      (x y z o : ℕ) (block : List ℕ)
      → n ≡ j + 1
      → emits x y z k n j (done ++ o ∷ block) ≡ k (j + 1) (done ++ x ∷ block)
  emit_one x y z o block h =
      >>=-returns (emit n x j) _ _ (j + 1) (done ++ x ∷ block)
        (emit_takes n x j done o block e (omega arith))
      ∙ >>=-returns (emit n y (j + 1)) _ _ (j + 1) _ (emit_skips n y (j + 1) _ (omega arith))
      ∙ >>=-returns (emit n z (j + 1)) _ _ (j + 1) _ (emit_skips n z (j + 1) _ (omega arith))

  second :
      (x y o : ℕ) (block : List ℕ)
      → j + 1 < n
      → emit n y (j + 1) (done ++ x ∷ o ∷ block) ≡ returns (j + 1 + 1, done ++ x ∷ y ∷ block)
  second x y o block h =
      rw (append_assoc done (x ∷ []) (o ∷ block), append_assoc done (x ∷ []) (y ∷ block)) at
        (emit_takes n y (j + 1) (done ++ x ∷ []) o block
          (omega (arith, length-append done (x ∷ []))) h)

  third :
      (x y z o : ℕ) (block : List ℕ)
      → j + 1 + 1 < n
      → emit n z (j + 1 + 1) (done ++ x ∷ y ∷ o ∷ block)
        ≡ returns (j + 1 + 1 + 1, done ++ x ∷ y ∷ z ∷ block)
  third x y z o block h =
      rw (append_assoc done (x ∷ y ∷ []) (o ∷ block), append_assoc done (x ∷ y ∷ []) (z ∷ block)) at
        (emit_takes n z (j + 1 + 1) (done ++ x ∷ y ∷ []) o block
          (omega (arith, length-append done (x ∷ y ∷ []))) h)

  emit_two :
      (x y z o p : ℕ) (block : List ℕ)
      → n ≡ j + 2
      → emits x y z k n j (done ++ o ∷ p ∷ block) ≡ k (j + 1 + 1) (done ++ x ∷ y ∷ block)
  emit_two x y z o p block h =
      >>=-returns (emit n x j) _ _ (j + 1) (done ++ x ∷ p ∷ block)
        (emit_takes n x j done o (p ∷ block) e (omega arith))
      ∙ >>=-returns (emit n y (j + 1)) _ _ (j + 1 + 1) _ (second x y p block (omega arith))
      ∙ >>=-returns (emit n z (j + 1 + 1)) _ _ (j + 1 + 1) _
          (emit_skips n z (j + 1 + 1) _ (omega arith))

  emit_three :
      (x y z o p q : ℕ) (block : List ℕ)
      → j + 2 < n
      → emits x y z k n j (done ++ o ∷ p ∷ q ∷ block)
        ≡ k (j + 1 + 1 + 1) (done ++ x ∷ y ∷ z ∷ block)
  emit_three x y z o p q block h =
      >>=-returns (emit n x j) _ _ (j + 1) (done ++ x ∷ p ∷ q ∷ block)
        (emit_takes n x j done o (p ∷ q ∷ block) e (omega arith))
      ∙ >>=-returns (emit n y (j + 1)) _ _ (j + 1 + 1) _ (second x y p (q ∷ block) (omega arith))
      ∙ >>=-returns (emit n z (j + 1 + 1)) _ _ (j + 1 + 1 + 1) _ (third x y z q block (omega arith))

pub decode_end : (n j : ℕ) (block : List ℕ) → decode_loop n [] j block ≡ returns (tt, block)
unfolding decode_loop
decode_end n j block = refl

pub decode_loop_lem :
    (n : ℕ) (xs done block : List ℕ) (j : ℕ)
    → j ≡ length done
    → n ≡ length done + length xs
    → All IsByte xs
    → length xs ≤ length block
    → decode_loop n (text_of xs) j (done ++ block)
      ≡ returns (tt, done ++ (xs ++ drop (length xs) block))
decode_loop_lem n [] done block j e m b h = decode_end n j (done ++ block)
decode_loop_lem n (a ∷ []) done (o ∷ block) j e m b h =
    decode_round n _ _ _ _ j (a / 4) (a % 4 * 16) 0 0 [] _ (sextet-char_of _ _ (omega arith))
      (sextet-char_of _ _ (omega arith)) (sextet-equals_sign _) (sextet-equals_sign _)
    ∙ rw (joined_one a b.0)
        (emit_one n j done (decode_loop n []) e a _ _ o block (omega arith) ∙ decode_end n _ _)
decode_loop_lem n (a ∷ c ∷ []) done (o ∷ p ∷ block) j e m b h =
    let t = joined_two a c b.0 b.1.0 in
    decode_round n _ _ _ _ j (a / 4) (a % 4 * 16 + c / 16) (c % 16 * 4) 0 [] _
      (sextet-char_of _ _ (omega arith)) (sextet-char_of _ _ (omega arith))
      (sextet-char_of _ _ (omega arith)) (sextet-equals_sign _)
    ∙ rw (t.0, t.1)
        (emit_two n j done (decode_loop n []) e a c _ o p block (omega arith) ∙ decode_end n _ _)
decode_loop_lem n (a ∷ c ∷ d ∷ xs) done (o ∷ p ∷ q ∷ block) j e m b h =
    let t = joined_three a c d b.0 b.1.0 b.1.1.0 in
    decode_round n _ _ _ _ j (a / 4) (a % 4 * 16 + c / 16) (c % 16 * 4 + d / 64) (d % 64)
      (text_of xs) _ (sextet-char_of _ _ (omega arith)) (sextet-char_of _ _ (omega arith))
      (sextet-char_of _ _ (omega arith)) (sextet-char_of _ _ (omega arith))
    ∙ rw (t.0, t.1, t.2)
        (emit_three n j done (decode_loop n (text_of xs)) e a c d o p q block (omega arith)
          ∙ rw
              (
                append_assoc done (a ∷ c ∷ d ∷ []) block,
                append_assoc done (a ∷ c ∷ d ∷ []) (xs ++ drop (length xs) block),
              )
              at
              (decode_loop_lem n xs (done ++ a ∷ c ∷ d ∷ []) block (j + 1 + 1 + 1)
                (omega (arith, length-append done (a ∷ c ∷ d ∷ [])))
                (omega (arith, length-append done (a ∷ c ∷ d ∷ []))) b.1.1.1 (omega arith)))
decode_loop_lem n _ done _ j e m b h = absurd (omega arith)
