-- ===== src/CryptoUtils/Base64/RoundTrip.antt =====
-- base64_decode undoes base64_encode.
use airplay.Base.{
  ℕ, suc, ◌+◌, ◌-◌, ◌*◌, ◌/◌, ◌%◌, ◌≤◌, ◌<◌, ◌≡◌, refl, arith, List, [], ◌∷◌, ◌++◌, length, All,
  word, some, true, false, not, ◌==◌, ==_iff, ==_ne, if◌then◌else◌, get_elem?, success, >>=-returns,
  returns, drop, ◌∙◌, ap, ltb-false, ltb, Returns, c_string, c_string-terminated, IsString,
}
use airplay.CryptoUtils.Base64.{
  char_of, equals_sign, char_at, less_padding, decode_loop, decode, encode,
}
use airplay.CryptoUtils.Base64.Table.{char_of-ne-equals_sign, char_of-ne-zero}
use airplay.CryptoUtils.Base64.Groups.{IsByte, text_of, length-text_of}
use airplay.CryptoUtils.Base64.Encode.{encode_lem}
use airplay.CryptoUtils.Base64.Decode.{decode_loop_lem}

-- The last character but one and the last one.
abbrev ends : List ℕ → ℕ × ℕ
ends [] = (0, 0)
ends (a ∷ []) = (equals_sign, equals_sign)
ends (a ∷ b ∷ []) = (char_of (b % 16 * 4), equals_sign)
ends (a ∷ b ∷ c ∷ []) = (char_of (b % 16 * 4 + c / 64), char_of (c % 64))
ends (a ∷ b ∷ c ∷ d ∷ rest) = ends (d ∷ rest)

get_behind :
    (w x y z n k : ℕ) (text : List ℕ)
    → k ≤ n
    → get_elem? (w ∷ x ∷ y ∷ z ∷ text) (suc (suc (suc (suc n))) - k) ≡ get_elem? text (n - k)
get_behind w x y z n k text h =
    let e : suc (suc (suc (suc n))) - k ≡ suc (suc (suc (suc (n - k)))) = omega arith in rw e

text_of-ends :
    (x : ℕ) (xs : List ℕ)
    → let t = text_of (x ∷ xs) in
      (get_elem? t (length t - 1) ≡ some (ends (x ∷ xs)).1)
      × (get_elem? t (length t - 2) ≡ some (ends (x ∷ xs)).0)
text_of-ends a [] = (refl, refl)
text_of-ends a (b ∷ []) = (refl, refl)
text_of-ends a (b ∷ c ∷ []) = (refl, refl)
text_of-ends a (b ∷ c ∷ d ∷ rest) =
    let l = length-text_of (d ∷ rest) in
    (
      get_behind _ _ _ _ (length (text_of (d ∷ rest))) 1 (text_of (d ∷ rest)) (omega (arith, l))
          ∙ (text_of-ends d rest).0,
      get_behind _ _ _ _ (length (text_of (d ∷ rest))) 2 (text_of (d ∷ rest)) (omega (arith, l))
          ∙ (text_of-ends d rest).1,
    )

ends-signs :
    (x : ℕ) (xs : List ℕ)
    → All IsByte (x ∷ xs)
    → (((ends (x ∷ xs)).1 == equals_sign) ≡ not (length (x ∷ xs) % 3 == 0))
      × (((ends (x ∷ xs)).0 == equals_sign) ≡ (length (x ∷ xs) % 3 == 1))
ends-signs a [] h = (refl, refl)
ends-signs a (b ∷ []) h = (refl, ==_ne _ _ (char_of-ne-equals_sign (b % 16 * 4) (omega arith)))
ends-signs a (b ∷ c ∷ []) h = (
  ==_ne _ _ (char_of-ne-equals_sign (c % 64) (omega arith)),
  ==_ne _ _ (char_of-ne-equals_sign (b % 16 * 4 + c / 64) (omega arith)),
)
ends-signs a (b ∷ c ∷ d ∷ rest) h =
    let i = ends-signs d rest h.1.1.1 in
    let e : suc (suc (suc (length (d ∷ rest)))) % 3 ≡ length (d ∷ rest) % 3 = omega arith in rw e i

char_at_lem :
    (text : List ℕ) (i c : ℕ) (block : List ℕ)
    → get_elem? text i ≡ some c
    → char_at text i block ≡ returns (c, block)
unfolding char_at
char_at_lem text i c block g = rw (g, char_at)

pub less_padding_lem :
    (text : List ℕ) (back c n : ℕ) (block : List ℕ)
    → 0 < back
    → back ≤ length text
    → length text < word
    → get_elem? text (length text - back) ≡ some c
    → less_padding text back n block
      ≡ returns (if c == equals_sign then (n + word - 1) % word else n, block)
unfolding less_padding
less_padding_lem text back c n block p h w g =
    let e : (length text + word - back) % word ≡ length text - back = omega arith in
    rw e (
      >>=-returns (char_at text (length text - back)) _ block c block
        (char_at_lem text (length text - back) c block g))

-- What is left after the last character has been looked at.
abbrev without_last : ℕ → ℕ → ℕ
without_last n l =
    if not (n % 3 == 0) then (l * 3 % word / 4 + word - 1) % word else l * 3 % word / 4

-- The two subtractions leave the number of bytes.
unpadded_size :
    (n l : ℕ)
    → 0 < n
    → l ≡ (n + 2) / 3 * 4
    → l * 3 < word
    → let m = without_last n l in (if n % 3 == 1 then (m + word - 1) % word else m) ≡ n
unpadded_size n l h e w = ground arith

pub decode-text_of :
    (x : ℕ) (xs : List ℕ) (capacity : ℕ) (block : List ℕ)
    → let bytes = x ∷ xs in
      All IsByte bytes
      → length (text_of bytes) * 3 < word
      → length bytes ≤ capacity
      → length bytes ≤ length block
      → decode (some (text_of bytes)) true (some capacity) block
        ≡ returns ((success, some (length bytes)), bytes ++ drop (length bytes) block)
unfolding decode
decode-text_of x xs capacity block b w c h =
    let bytes = x ∷ xs in
    let text = text_of bytes in
    let l = length-text_of bytes in
    let four : (length text % 4 == 0) ≡ true = (==_iff _ 0).1 (omega (arith, l)) in
    let room : ltb capacity (length bytes) ≡ false = ltb-false capacity (length bytes) c in
    rw four (
      >>=-returns (less_padding text 1 (length text * 3 % word / 4)) _ block
        (without_last (length bytes) (length text)) block
        (rw (← (ends-signs x xs b).0) (
          less_padding_lem text 1 (ends bytes).1 _ block (omega arith) (omega (arith, l))
            (omega arith) (text_of-ends x xs).0))
      ∙ >>=-returns (less_padding text 2 (without_last (length bytes) (length text))) _ block
          (length bytes) block
          (less_padding_lem text 2 (ends bytes).0 _ block (omega arith) (omega (arith, l))
              (omega arith) (text_of-ends x xs).1
            ∙ ap (λ n. returns (n, block))
                (rw (ends-signs x xs b).1
                  (unpadded_size (length bytes) (length text) (omega arith) l w)))
      ∙ rw room (
          >>=-returns (decode_loop (length bytes) text 0) _ block tt _
            (decode_loop_lem (length bytes) bytes [] block 0 refl (omega arith) b h)))

-- The text holds no NUL.
text_of-IsString : (xs : List ℕ) → All IsByte xs → IsString (text_of xs)
text_of-IsString [] h = tt
text_of-IsString (a ∷ []) h = (
  char_of-ne-zero (a / 4) (omega arith),
  (char_of-ne-zero (a % 4 * 16) (omega arith), (omega arith, (omega arith, tt))),
)
text_of-IsString (a ∷ b ∷ []) h = (
  char_of-ne-zero (a / 4) (omega arith),
  (
    char_of-ne-zero (a % 4 * 16 + b / 16) (omega arith),
    (char_of-ne-zero (b % 16 * 4) (omega arith), (omega arith, tt)),
  ),
)
text_of-IsString (a ∷ b ∷ c ∷ rest) h = (
  char_of-ne-zero (a / 4) (omega arith),
  (
    char_of-ne-zero (a % 4 * 16 + b / 16) (omega arith),
    (
      char_of-ne-zero (b % 16 * 4 + c / 64) (omega arith),
      (char_of-ne-zero (c % 64) (omega arith), text_of-IsString rest h.1.1.1),
    ),
  ),
)

-- For one byte or more, with blocks that are long enough and sizes that do not wrap: base64_encode returns
-- 0, and base64_decode of the C string that it has written returns 0 and the number of bytes, and writes
-- the bytes and no other.
pub decode-encode :
    (x : ℕ) (xs block out : List ℕ) (capacity : ℕ)
    → let bytes = x ∷ xs in
      All IsByte bytes
      → (length bytes + 2) / 3 * 4 * 3 < word
      → (length bytes + 2) / 3 * 4 < length block
      → length bytes ≤ capacity
      → length bytes ≤ length out
      → Returns
          (λ r.
            (r.0 ≡ success)
            × (decode (some (c_string r.1)) true (some capacity) out
                ≡ returns ((success, some (length bytes)), bytes ++ drop (length bytes) out)))
          (encode (some bytes) true block)
decode-encode x xs block out capacity b w h c k =
    let bytes = x ∷ xs in
    rw (encode_lem bytes block b (omega arith) h) (
      refl,
      rw
          (c_string-terminated (text_of bytes) (drop (length (text_of bytes) + 1) block)
            (text_of-IsString bytes b))
          (decode-text_of x xs capacity out b (omega (arith, length-text_of bytes)) c k),
    )
