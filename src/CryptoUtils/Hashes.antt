-- ===== src/CryptoUtils/Hashes.antt =====
-- The hashes, the random bytes and the pairing of src/crypto_utils.c, over what OpenSSL computes.
use airplay.Base.{
  ℕ, zero, suc, ◌≤◌, ◌≡◌, ◌↔◌, refl, Bool, true, false, not, ◌&&◌, ◌||◌, List, [], ◌∷◌, Option,
  none, some, length, arith, ltb, ◌==◌, if◌then◌else◌, ℤ, success, failure, eqb_ℤ,
}

-- SHA1 and HMAC of <openssl/sha.h> and <openssl/hmac.h>; RAND_bytes answers a status and its bytes.
pub record OpenSsl : Type 0 where
  pub sha1 : List ℕ → List ℕ
  pub hmac : List ℕ → List ℕ → List ℕ

-- SHA_DIGEST_LENGTH
abbrev pub digest_length : ℕ
digest_length = 20

-- A digest has the documented length.
pub record OpenSslLaws (ssl : OpenSsl) : Type 0 where
  pub sha1_length : (bytes : List ℕ) → length (ssl.sha1 bytes) ≡ digest_length
  pub hmac_length : (key bytes : List ℕ) → length (ssl.hmac key bytes) ≡ digest_length

-- memcmp(a, b, n) == 0
abbrev pub memcmp_eq : ℕ → List ℕ → List ℕ → Bool
memcmp_eq zero a b = true
memcmp_eq (suc n) [] b = true
memcmp_eq (suc n) (x ∷ a) [] = false
memcmp_eq (suc n) (x ∷ a) (y ∷ b) = x == y && memcmp_eq n a b

module _ (ssl : OpenSsl) where
  -- A pointer is none where it is NULL. The digest that is written is none where nothing is.
  pub sha1_hash : Option (List ℕ) → Bool → ℤ × Option (List ℕ)
  sha1_hash none hash = (failure, none)
  sha1_hash (some bytes) hash =
      if not hash then (failure, none) else (success, some (ssl.sha1 bytes))

  pub sha1_hmac : Option (List ℕ) → Option (List ℕ) → Bool → ℤ × Option (List ℕ)
  sha1_hmac none bytes hmac = (failure, none)
  sha1_hmac (some key) none hmac = (failure, none)
  sha1_hmac (some key) (some bytes) hmac =
      if not hmac then (failure, none) else (success, some (ssl.hmac key bytes))

  -- The digest as it was computed, against the response.
  compare_digest : ℤ × Option (List ℕ) → List ℕ → ℤ
  compare_digest (status, none) response = failure
  compare_digest (status, some expected) response =
      if not (eqb_ℤ status success)
      then failure
      else if not (length response == digest_length)
      then failure
      else if memcmp_eq digest_length expected response
      then success
      else failure

  pub airplay_verify_pairing : Option (List ℕ) → Option (List ℕ) → Option (List ℕ) → ℤ
  unfolding sha1_hmac compare_digest
  airplay_verify_pairing none response key = failure
  airplay_verify_pairing (some challenge) none key = failure
  airplay_verify_pairing (some challenge) (some response) none = failure
  airplay_verify_pairing (some challenge) (some response) (some key) =
      compare_digest (sha1_hmac (some key) (some challenge) true) response

-- RAND_bytes answers a status, 1 for success.
unfoldable pub generate_random_bytes : (ℕ → ℤ × List ℕ) → Bool → ℕ → ℤ × Option (List ℕ)
generate_random_bytes rand buffer size =
    if not buffer || size == 0
    then (failure, none)
    else let (status, bytes) = rand size in
      if not (eqb_ℤ status (ℤ.pos 1)) then (failure, none) else (success, some bytes)

unfoldable pub airplay_generate_pairing_key : (ℕ → ℤ × List ℕ) → Bool → ℕ → ℤ × Option (List ℕ)
unfolding generate_random_bytes
airplay_generate_pairing_key rand key size =
    if not key || ltb size 16 then (failure, none) else generate_random_bytes rand key size

memcmp_eq_sound :
    (n : ℕ) (a b : List ℕ) → length a ≡ n → length b ≡ n → memcmp_eq n a b ≡ true → a ≡ b
memcmp_eq_sound zero [] [] h k e = refl
memcmp_eq_sound zero (x ∷ a) b h k e = absurd (omega arith)
memcmp_eq_sound zero [] (y ∷ b) h k e = absurd (omega arith)
memcmp_eq_sound (suc n) [] b h k e = absurd (omega arith)
memcmp_eq_sound (suc n) (x ∷ a) [] h k e = absurd (omega arith)
memcmp_eq_sound (suc n) (x ∷ a) (y ∷ b) h k e =
    ground (arith, memcmp_eq_sound n a b (omega arith) (omega arith))

memcmp_eq_refl : (n : ℕ) (a : List ℕ) → memcmp_eq n a a ≡ true
memcmp_eq_refl zero a = refl
memcmp_eq_refl (suc n) [] = refl
memcmp_eq_refl (suc n) (x ∷ a) = ground (arith, memcmp_eq_refl n a)

-- With digests of 20 bytes, pairing is verified exactly for the response that is the HMAC of the challenge.
pub airplay_verify_pairing_iff :
    (ssl : OpenSsl) (challenge response key : List ℕ)
    → OpenSslLaws ssl
    → (airplay_verify_pairing ssl (some challenge) (some response) (some key) ≡ success)
      ↔ (response ≡ ssl.hmac key challenge)
unfolding airplay_verify_pairing
airplay_verify_pairing_iff ssl challenge response key laws = (
  λ h. ground (
    arith,
    laws.hmac_length key challenge,
    memcmp_eq_sound digest_length (ssl.hmac key challenge) response,
  ),
  λ e. ground (
    arith,
    laws.hmac_length key challenge,
    memcmp_eq_refl digest_length (ssl.hmac key challenge),
  ),
)

-- A pairing key that is reported as generated has at least 16 bytes asked for, and its bytes are those of a
-- call of RAND_bytes that answered 1.
pub airplay_generate_pairing_key_lem :
    (rand : ℕ → ℤ × List ℕ) (size : ℕ) (bytes : List ℕ)
    → airplay_generate_pairing_key rand true size ≡ (success, some bytes)
    → (16 ≤ size) × (rand size ≡ (ℤ.pos 1, bytes))
unfolding airplay_generate_pairing_key
airplay_generate_pairing_key_lem rand size bytes h = ground arith
