-- ===== src/CryptoUtils/Base64/Texts.antt =====
-- base64_decode on every text.
use airplay.Base.{
  ℕ, zero, suc, ◌+◌, ◌-◌, ◌*◌, ◌/◌, ◌%◌, ◌≤◌, ◌<◌, ◌≡◌, ◌≢◌, refl, ap, ◌∙◌, arith, Bool, true,
  false, Option, some, List, [], ◌∷◌, length, get_elem?, get_or, ltb, ltb-false, lt→ltb, ◌==◌,
  ==_iff, if◌then◌else◌, Bool-cases, ltb→lt, ◌⊎◌, inl, inr, success, failure, ℤ, returns, faults, M,
  Outcome, Returns, ret, ◌>>◌, branch, Returns-eq, >>=-returns, word,
}
use airplay.CryptoUtils.Base64.{equals_sign, char_at, less_padding, decode_loop, decode}
use airplay.CryptoUtils.Base64.RoundTrip.{less_padding_lem}
use airplay.CryptoUtils.Base64.Total.{all_signs, Kept, loop-Kept, loop_foreign, >>=-faults}

-- One, where the character that stands so far from the end is '='.
abbrev pub padding_at : List ℕ → ℕ → ℕ
padding_at text back = if get_or text (length text - back) 0 == equals_sign then 1 else 0

-- Three bytes for each group of four characters, less the padding.
abbrev pub decoded_size : List ℕ → ℕ
decoded_size text = length text / 4 * 3 - padding_at text 1 - padding_at text 2

get_or-some : (xs : List ℕ) (i d : ℕ) → i < length xs → get_elem? xs i ≡ some (get_or xs i d)
get_or-some [] i d h = elim h [ ]
get_or-some (x ∷ xs) zero d h = refl
get_or-some (x ∷ xs) (suc i) d h = get_or-some xs i d (omega arith)

less_one :
    (b : Bool) (n : ℕ)
    → 1 ≤ n
    → n < word
    → (if b then (n + word - 1) % word else n) ≡ n - (if b then 1 else 0)
less_one true n h k = omega arith
less_one false n h k = omega arith

padding_less :
    (text : List ℕ) (back n : ℕ) (block : List ℕ)
    → 0 < back
    → back ≤ length text
    → length text < word
    → 1 ≤ n
    → n < word
    → less_padding text back n block ≡ returns (n - padding_at text back, block)
padding_less text back n block p h w k l =
    less_padding_lem text back (get_or text (length text - back) 0) n block p h w
      (get_or-some text (length text - back) 0 (omega arith))
    ∙ ap (λ m. returns (m, block))
        (less_one (get_or text (length text - back) 0 == equals_sign) n k l)

-- The text has a length that the function takes.
abbrev pub IsTaken : List ℕ → Type 0
IsTaken text = (length text % 4 ≡ 0) × (1 ≤ length text)

-- What the code makes of any text, with a block of at least the capacity.
abbrev pub Decodes : List ℕ → ℕ → List ℕ → Outcome ((ℤ × Option ℕ) × List ℕ) → Type 0
Decodes text capacity block o =
    ((length text % 4 ≢ 0) × (o ≡ returns ((failure, some capacity), block)))
    ⊎ ((text ≡ []) × (o ≡ faults))
    ⊎ (IsTaken text
        × (capacity < decoded_size text)
        × (o ≡ returns ((failure, some capacity), block)))
    ⊎ (IsTaken text
        × (decoded_size text ≤ capacity)
        × (all_signs text ≡ true)
        × Returns
            (λ r. (r.0 ≡ (success, some (decoded_size text))) × Kept (decoded_size text) block r.1)
            o)
    ⊎ (IsTaken text × (decoded_size text ≤ capacity) × (all_signs text ≡ false) × (o ≡ faults))

-- What is done when the size is known.
abbrev sized : List ℕ → ℕ → M (List ℕ) (ℤ × Option ℕ)
sized text capacity =
    branch (ltb capacity (decoded_size text)) (ret (failure, some capacity))
      do decode_loop (decoded_size text) text 0; ret (success, some (decoded_size text))

padding_small : (text : List ℕ) (back : ℕ) → padding_at text back ≤ 1
padding_small text back = ground arith

-- The text is looked at from its end.
decode-sized :
    (text : List ℕ) (capacity : ℕ) (block : List ℕ)
    → IsTaken text
    → length text * 3 < word
    → decode (some text) true (some capacity) block ≡ sized text capacity block
unfolding decode
decode-sized text capacity block t w =
    let four : (length text % 4 == 0) ≡ true = (==_iff _ 0).1 t.0 in
    let whole : length text * 3 % word / 4 ≡ length text / 4 * 3 = omega (arith, t.0) in
    let small : padding_at text 1 ≤ 1 = padding_small text 1 in
    rw (four, whole)
      (>>=-returns (less_padding text 1 (length text / 4 * 3)) _ block
          (length text / 4 * 3 - padding_at text 1) block
          (padding_less text 1 (length text / 4 * 3) block (omega arith) t.1 (omega arith)
            (omega (arith, t.0, t.1)) (omega arith))
        ∙ >>=-returns (less_padding text 2 (length text / 4 * 3 - padding_at text 1)) _ block
            (decoded_size text) block
            (padding_less text 2 (length text / 4 * 3 - padding_at text 1) block (omega arith)
              (omega (arith, t.0, t.1)) (omega arith) (omega (arith, t.0, t.1)) (omega arith)))

-- The two ends of `sized`.
sized_short :
    (text : List ℕ) (capacity : ℕ) (block : List ℕ)
    → capacity < decoded_size text
    → sized text capacity block ≡ returns ((failure, some capacity), block)
sized_short text capacity block h = rw (lt→ltb capacity (decoded_size text) h) refl

sized_room :
    (text : List ℕ) (capacity : ℕ) (block : List ℕ)
    → decoded_size text ≤ capacity
    → sized text capacity block
      ≡ (do decode_loop (decoded_size text) text 0; ret (success, some (decoded_size text))) block
sized_room text capacity block h = rw (ltb-false capacity (decoded_size text) h) refl

-- A text that is taken.
decode_taken :
    (text : List ℕ) (capacity : ℕ) (block : List ℕ)
    → IsTaken text
    → length text * 3 < word
    → capacity ≤ length block
    → Decodes text capacity block (decode (some text) true (some capacity) block)
decode_taken text capacity block t w c = elim (Bool-cases (ltb capacity (decoded_size text))) [
  | inl less ↦
      let short : capacity < decoded_size text = ltb→lt capacity (decoded_size text) less in
      inr (
        inr (
          inl (
            t,
            short,
            decode-sized text capacity block t w ∙ sized_short text capacity block short,
          )))
  | inr enough ↦
      let room : decoded_size text ≤ capacity = ground (arith, enough) in
      let run : decode (some text) true (some capacity) block
          ≡ (do decode_loop (decoded_size text) text 0; ret (success, some (decoded_size text)))
              block =
        decode-sized text capacity block t w ∙ sized_room text capacity block room in
      elim (Bool-cases (all_signs text)) [
        | inl known ↦
            let (x, e, k) =
              Returns-eq (λ r. Kept (decoded_size text) block r.1)
                (decode_loop (decoded_size text) text 0 block)
                (loop-Kept (decoded_size text) 0 text block t.0 known (omega arith)
                  (omega arith)) in
            inr (
              inr (
                inr (
                  inl (
                    t,
                    room,
                    known,
                    rw (run ∙ >>=-returns (decode_loop (decoded_size text) text 0) _ block tt x.1 e)
                        (refl, k),
                  ))))
        | inr foreign ↦ inr (
            inr (
              inr (
                inr (
                  t,
                  room,
                  foreign,
                  run
                      ∙ >>=-faults (decode_loop (decoded_size text) text 0) _ block (
                          loop_foreign (decoded_size text) 0 text block t.0 foreign (omega arith)
                            (omega arith)),
                ))))
      ]
]

-- base64_decode of any text whose length does not make a size wrap, with a block of at least the capacity. It
-- returns -1 and changes nothing exactly where the length is no multiple of four, or the capacity is less than
-- three bytes for each group of four characters, less the '=' among the last two. Where it returns 0, it reports that
-- number of bytes, and leaves the block as it was behind them. What it does is undefined in two cases, and in no other:
-- on the empty text, before which it reads; and on a text that is not empty, has a multiple of four as its length and a
-- capacity that is large enough, but a character, anywhere, that is neither in the alphabet nor '=', for which it
-- subtracts the table from a null pointer.
pub decode_lem :
    (text : List ℕ) (capacity : ℕ) (block : List ℕ)
    → length text * 3 < word
    → capacity ≤ length block
    → Decodes text capacity block (decode (some text) true (some capacity) block)
unfolding decode less_padding char_at
decode_lem [] capacity block w c = inr (inl (refl, refl))
decode_lem (x ∷ xs) capacity block w c = elim (Bool-cases (length (x ∷ xs) % 4 == 0)) [
  | inl four ↦ decode_taken (x ∷ xs) capacity block ((==_iff _ 0).0 four, omega arith) w c
  | inr odd ↦ inl (ground (arith, odd), ground (arith, odd))
]
