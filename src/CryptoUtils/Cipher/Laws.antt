-- ===== src/CryptoUtils/Cipher/Laws.antt =====
-- What aes_encrypt and aes_decrypt make of the answers of EVP.
use native.Mathlib.Nat.{zero-add, suc-add}
use airplay.Base.{
  ◌⊎◌, inl, inr, Bool-cases, ◌&&◌, Returns, Returns-mono, ℕ, zero, suc, ◌+◌, ◌≤◌, ◌<◌, ◌^◌, ◌≡◌,
  refl, Bool, true, false, List, [], ◌∷◌, ◌++◌, some, length, take, drop, arith, pos, success,
  failure, returns, ◌∙◌, ap, sym, Returns, length-append, length-drop,
}
use airplay.CryptoUtils.Cipher.{
  EvpLibrary, updated, Evp, Output, is_one, crypt, checked, aes_encrypt, aes_decrypt,
}

-- What EVP puts out, if all its calls succeed.
abbrev pub Succeeds : Evp → List ℕ → List ℕ → List ℕ → List ℕ → Type 0
Succeeds evp key iv input output =
    (evp.context ≡ true)
    × (evp.init_status ≡ pos 1)
    × ((updated evp key iv input).0 ≡ pos 1)
    × ((evp.final key iv input).0 ≡ pos 1)
    × ((updated evp key iv input).1 ++ (evp.final key iv input).1 ≡ output)

take-append_self : (a b : List ℕ) → take (length a) (a ++ b) ≡ a
take-append_self [] b = refl
take-append_self (x ∷ a) b = ap (◌∷◌ x) (take-append_self a b)

drop-append_self : (a b : List ℕ) (n : ℕ) → drop (length a + n) (a ++ b) ≡ drop n b
drop-append_self [] b n = rw zero-add
drop-append_self (x ∷ a) b n = rw suc-add (drop-append_self a b n)

drop-nil : (n : ℕ) → drop {A = ℕ} n [] ≡ []
drop-nil zero = refl
drop-nil (suc n) = refl

drop-drop : (m n : ℕ) (b : List ℕ) → drop n (drop m b) ≡ drop (m + n) b
drop-drop zero n b = rw zero-add
drop-drop (suc m) n [] = drop-nil n ∙ sym (drop-nil (suc m + n))
drop-drop (suc m) n (x ∷ b) = rw suc-add (drop-drop m n b)

-- The update's bytes, and behind them those of the final call.
written :
    (a b block : List ℕ)
    → let once = [] ++ a ++ drop (0 + length a) block in
      take (length a) once ++ b ++ drop (length a + length b) once
      ≡ (a ++ b) ++ drop (length (a ++ b)) block
written a b block =
    simp (zero-add, take-append_self, drop-append_self, drop-drop, length-append a b)

crypt_succeeded :
    (evp : Evp) (key iv input output : List ℕ) (old : ℕ) (s : Output)
    → Succeeds evp key iv input output
    → length output ≤ length s.block
    → crypt evp key iv input old s
      ≡ returns (
        (success, some (length output)),
        record s { block = output ++ drop (length output) s.block },
      )
unfolding crypt
crypt_succeeded evp key iv input output old s k h =
    let first = (updated evp key iv input).1 in
    let second = (evp.final key iv input).1 in
    ground (
      arith,
      length-append first (drop (0 + length first) s.block),
      length-append first second,
      length-drop (0 + length first) s.block,
      written first second s.block,
    )

-- Every call of EVP succeeds.
abbrev pub succeeds : Evp → List ℕ → List ℕ → List ℕ → Bool
succeeds evp key iv input =
    evp.context
    && (is_one evp.init_status
        && (is_one (updated evp key iv input).0 && is_one (evp.final key iv input).0))

succeeds-Succeeds :
    (evp : Evp) (key iv input : List ℕ)
    → succeeds evp key iv input ≡ true
    → Succeeds evp key iv input ((updated evp key iv input).1 ++ (evp.final key iv input).1)
succeeds-Succeeds evp key iv input h = ground arith

crypt_failed :
    (evp : Evp) (key iv input : List ℕ) (old : ℕ) (s : Output)
    → succeeds evp key iv input ≡ false
    → length (updated evp key iv input).1 + length (evp.final key iv input).1 ≤ length s.block
    → Returns (λ r. (r.0.0 ≡ failure) × (r.1.contexts ≡ s.contexts)) (crypt evp key iv input old s)
unfolding crypt
crypt_failed evp key iv input old s f h = ground arith

-- The body that encryption and decryption share, whatever EVP answers, as long as what it puts out fits the output.
-- Where every call of EVP succeeds it returns 0 and the output's length, and writes the update's bytes and the final
-- call's bytes behind one another at the start of the output, and nothing behind them. Where one of them fails it
-- returns -1. As many contexts are allocated as before in both cases.
pub crypt_lem :
    (evp : Evp) (key iv input : List ℕ) (old : ℕ) (s : Output)
    → let first = (updated evp key iv input).1 in
      let second = (evp.final key iv input).1 in
      length first + length second ≤ length s.block
      → Returns
          (λ r.
            (r.1.contexts ≡ s.contexts)
            × (((succeeds evp key iv input ≡ true)
                  × (r.0 ≡ (success, some (length (first ++ second))))
                  × (r.1.block ≡ (first ++ second) ++ drop (length (first ++ second)) s.block))
                ⊎ ((succeeds evp key iv input ≡ false) × (r.0.0 ≡ failure))))
          (crypt evp key iv input old s)
crypt_lem evp key iv input old s h =
    let first = (updated evp key iv input).1 in
    let second = (evp.final key iv input).1 in
    elim (Bool-cases (succeeds evp key iv input)) [
      | inl all_succeed ↦
          rw
            (crypt_succeeded evp key iv input (first ++ second) old s
              (succeeds-Succeeds evp key iv input all_succeed)
              (omega (arith, length-append first second)))
            (refl, inl (all_succeed, refl, refl))
      | inr f ↦
          Returns-mono _ _ (crypt evp key iv input old s) (crypt_failed evp key iv input old s f h)
            λ r k. (k.1, inr (f, k.0))
    ]

-- What EVP puts out in its two calls.
abbrev pub output_of : Evp → List ℕ → List ℕ → List ℕ → List ℕ
output_of evp key iv input = (updated evp key iv input).1 ++ (evp.final key iv input).1

-- AES-128 in CBC mode, with the padding that EVP adds: a text that EVP_Encrypt… has encrypted, whose lengths an int
-- holds, is put out again by EVP_Decrypt… with the same key and iv, where these start.
pub record CbcLaws (library : EvpLibrary) : Type 0 where
  pub inverts :
      (key iv plaintext : List ℕ)
      → length key ≡ 16
      → length iv ≡ 16
      → length plaintext < 2 ^ 31
      → length (output_of library.encryption key iv plaintext) < 2 ^ 31
      → succeeds library.encryption key iv plaintext ≡ true
      → library.decryption.context ≡ true
      → library.decryption.init_status ≡ pos 1
      → Succeeds library.decryption key iv (output_of library.encryption key iv plaintext) plaintext

-- With a key and an iv of 16 bytes, a text and a ciphertext of less than 2 ^ 31 bytes, blocks that are long enough,
-- and an EVP whose encryption succeeds on the text, whose decryption starts, and whose decryption inverts its
-- encryption: aes_encrypt returns 0 and the length of what it has written, and aes_decrypt of as many bytes returns 0
-- and the length of the text, and writes the text and no byte behind it. Neither leaves a context allocated.
pub aes_decrypt-aes_encrypt :
    (library : EvpLibrary) (key iv plaintext : List ℕ) (old old' : ℕ) (s t : Output)
    → CbcLaws library
    → length key ≡ 16
    → length iv ≡ 16
    → length plaintext < 2 ^ 31
    → length (output_of library.encryption key iv plaintext) < 2 ^ 31
    → succeeds library.encryption key iv plaintext ≡ true
    → library.decryption.context ≡ true
    → library.decryption.init_status ≡ pos 1
    → length (output_of library.encryption key iv plaintext) ≤ length s.block
    → length plaintext ≤ length t.block
    → let n = length (output_of library.encryption key iv plaintext) in
      Returns
        (λ r.
          (r.0 ≡ (success, some n))
          × (r.1.contexts ≡ s.contexts)
          × (aes_decrypt library (some key) (some iv) (some (take n r.1.block)) true (some old') t
              ≡ returns (
                (success, some (length plaintext)),
                record t { block = plaintext ++ drop (length plaintext) t.block },
              )))
        (aes_encrypt library (some key) (some iv) (some plaintext) true (some old) s)
unfolding aes_encrypt aes_decrypt checked
aes_decrypt-aes_encrypt library key iv plaintext old old' s t laws a b c d encrypted e i h k =
    let out : List ℕ = output_of library.encryption key iv plaintext in
    let first : Succeeds library.encryption key iv plaintext out =
      succeeds-Succeeds library.encryption key iv plaintext encrypted in
    rw (crypt_succeeded library.encryption key iv plaintext out old s first h) (
      refl,
      refl,
      rw (take-append_self out (drop (length out) s.block)) (
          crypt_succeeded library.decryption key iv out plaintext old' t
            (laws.inverts key iv plaintext a b c d encrypted e i) k),
    )
