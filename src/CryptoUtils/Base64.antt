-- ===== src/CryptoUtils/Base64.antt =====
-- base64_encode and base64_decode of src/crypto_utils.c. A block that a pointer leads to is the state,
-- so that a write past its end shows as a fault. C strings are the bytes before the terminator.
pub mod Table
pub mod Groups
pub mod Padding
pub mod Encode
pub mod Decode
pub mod RoundTrip
pub mod Total
pub mod Texts
mod Examples
use airplay.Base.{
  ℕ, zero, suc, ◌+◌, ◌-◌, ◌*◌, ◌/◌, ◌%◌, ◌^◌, Bool, true, false, not, Option, none, some, List, [],
  ◌∷◌, length, get_elem?, get_or, ltb, ◌==◌, if◌then◌else◌, ℤ, success, failure, returns, faults, M,
  ret, ◌>>=◌, ◌>>◌, branch, when, word, store, codes,
}

abbrev pub base64_chars : List ℕ
base64_chars = codes "ABCDEFGHIJKLMNOPQRSTUVWXYZabcdefghijklmnopqrstuvwxyz0123456789+/"

-- '='
abbrev pub equals_sign : ℕ
equals_sign = b'='

-- `base64_chars[k]`
unfoldable pub char_of : ℕ → ℕ
char_of k = get_or base64_chars k 0

-- `i < length ? data[i++] : 0`, where the list is what lies at `i` and behind.
abbrev pub next_byte : List ℕ → ℕ × List ℕ
next_byte [] = (0, [])
next_byte (x ∷ xs) = (x, xs)

-- The encoder's loop over the data from `i` on, writing at `j`. Each round takes a byte at least, so
-- fuel for each byte is enough; without fuel it would be stuck on what is left.
unfoldable pub encode_loop : ℕ → List ℕ → ℕ → M (List ℕ) (Unit {0})
encode_loop fuel [] j = ret tt
encode_loop zero (x ∷ xs) j = λ _. faults
encode_loop (suc fuel) (a ∷ rest) j =
    let (b, rest₁) = next_byte rest in
    let (c, rest₂) = next_byte rest₁ in
    let triple = (a * 2 ^ 16 + b * 2 ^ 8 + c) % word in
    do
      store j (char_of (triple / 2 ^ 18 % 64))
      store (j + 1) (char_of (triple / 2 ^ 12 % 64))
      store (j + 2) (char_of (triple / 2 ^ 6 % 64))
      store (j + 3) (char_of (triple % 64))
      encode_loop fuel rest₂ (j + 4)

-- The loop that adds the padding, with the number of rounds left and its counter.
unfoldable pub pad_loop : ℕ → ℕ → ℕ → M (List ℕ) (Unit {0})
pad_loop zero i encoded_length = ret tt
pad_loop (suc rounds) i encoded_length = do
  store (encoded_length - 1 - i) equals_sign
  pad_loop rounds (i + 1) encoded_length

abbrev pub encoded_size : ℕ → ℕ
encoded_size n = (n + 2) % word / 3 * 4 % word

abbrev pub padding_size : ℕ → ℕ
padding_size n = (3 - n % 3) % 3

-- `data` and `encoded` are none where they are NULL; the state is the block at `encoded`.
unfoldable pub encode : Option (List ℕ) → Bool → M (List ℕ) ℤ
encode none encoded = ret failure
encode (some bytes) encoded = branch (not encoded) (ret failure) do
  let encoded_length = encoded_size (length bytes)
  encode_loop (length bytes) bytes 0
  pad_loop (padding_size (length bytes)) 0 encoded_length
  store encoded_length 0
  ret success

-- strchr(base64_chars, c) - base64_chars; a NULL from strchr has no difference with the table.
unfoldable pub index_of : List ℕ → ℕ → Option ℕ
index_of [] c = none
index_of (x ∷ xs) c = elim (x == c) [
  | true ↦ some 0
  | false ↦ elim (index_of xs c) [ none ↦ none | some k ↦ some (suc k) ]
]

-- For a character outside the alphabet strchr answers NULL, and the difference of it and the table is undefined.
unfoldable pub sextet : ℕ → M (List ℕ) ℕ
sextet c s = elim (c == equals_sign) [
  | true ↦ returns (0, s)
  | false ↦ elim (index_of base64_chars c) [ none ↦ faults | some k ↦ returns (k, s) ]
]

-- `if (j < decoded_length) data[j++] = v;`, with the new `j`.
unfoldable pub emit : ℕ → ℕ → ℕ → M (List ℕ) ℕ
emit decoded_length v j = branch (ltb j decoded_length) (do store j v; ret (j + 1)) (ret j)

-- The decoder's loop. The text's length is a multiple of four when the loop is entered, so the last
-- clause is never reached: it would read past the text.
unfoldable pub decode_loop : ℕ → List ℕ → ℕ → M (List ℕ) (Unit {0})
decode_loop decoded_length [] j = ret tt
decode_loop decoded_length (p ∷ q ∷ r ∷ s ∷ rest) j = do
  a ← sextet p
  b ← sextet q
  c ← sextet r
  d ← sextet s
  let triple = (a * 2 ^ 18 + b * 2 ^ 12 + c * 2 ^ 6 + d) % word
  j₁ ← emit decoded_length (triple / 2 ^ 16 % 256) j
  j₂ ← emit decoded_length (triple / 2 ^ 8 % 256) j₁
  j₃ ← emit decoded_length (triple % 256) j₂
  decode_loop decoded_length rest j₃
decode_loop decoded_length _ j = λ _. faults

-- `encoded[i]`: the text and its terminator can be read.
unfoldable pub char_at : List ℕ → ℕ → M (List ℕ) ℕ
char_at text i s = elim (get_elem? text i) [
  | some c ↦ returns (c, s)
  | none ↦ elim (i == length text) [ true ↦ returns (0, s) | false ↦ faults ]
]

-- One is taken off for an '=' at a position counted from the end, which may wrap below 0.
unfoldable pub less_padding : List ℕ → ℕ → ℕ → M (List ℕ) ℕ
less_padding text back n = do
  c ← char_at text ((length text + word - back) % word)
  ret (if c == equals_sign then (n + word - 1) % word else n)

-- `encoded` is none where it is NULL, `capacity` is what `length` points to and none where that is
-- NULL; the result holds what it points to afterwards. The state is the block at `data`.
unfoldable pub decode : Option (List ℕ) → Bool → Option ℕ → M (List ℕ) (ℤ × Option ℕ)
decode none bytes capacity = ret (failure, capacity)
decode (some text) bytes none = ret (failure, none)
decode (some text) bytes (some capacity) = branch (not bytes) (ret (failure, some capacity)) (
    branch (not (length text % 4 == 0)) (ret (failure, some capacity)) do
      let whole = length text * 3 % word / 4
      n₁ ← less_padding text 1 whole
      decoded_length ← less_padding text 2 n₁
      branch (ltb capacity decoded_length) (ret (failure, some capacity))
          do decode_loop decoded_length text 0; ret (success, some decoded_length))
