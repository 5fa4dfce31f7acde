-- ===== src/CryptoUtils/Cipher.antt =====
-- aes_encrypt and aes_decrypt of src/crypto_utils.c, over OpenSSL's EVP interface.
pub mod Laws
use native.Mathlib.Nat.{zero-add, suc-add}
use airplay.Base.{
  negsuc, ◌^◌, if◌then◌else◌, ◌%◌, ◌*◌, ◌⊎◌, inl, inr, Bool-cases, ◌&&◌, Returns, Returns-mono, ℕ,
  zero, suc, ◌+◌, ◌-◌, ◌≤◌, ◌≡◌, refl, Bool, true, false, not, List, [], ◌∷◌, ◌++◌, Option, some,
  length, take, drop, arith, ltb, ℤ, pos, success, failure, eqb_ℤ, returns, faults, M, ret, ◌>>◌,
  modify, branch, ◌∙◌, ap, sym, Returns, length-append, length-drop,
}

-- The conversion of a size_t to the int of the same name's parameter, which keeps its low 32 bits.
abbrev pub int_of : ℕ → ℤ
int_of n = let low = n % 2 ^ 32 in if ltb low (2 ^ 31) then pos low else negsuc (2 ^ 32 - 1 - low)

-- What EVP answers for a key, an iv and an input with the length that it is told: whether there is a context, the statuses (1 is
-- success), and the bytes that the update and the final call put out.
pub record Evp : Type 0 where
  pub context : Bool
  pub init_status : ℤ
  pub update : List ℕ → List ℕ → List ℕ → ℤ → ℤ × List ℕ
  pub final : List ℕ → List ℕ → List ℕ → ℤ × List ℕ

-- The functions EVP_Encrypt… and EVP_Decrypt….
pub record EvpLibrary : Type 0 where
  pub encryption : Evp
  pub decryption : Evp

-- What the update answers, for an input of which the whole length is passed.
abbrev pub updated : Evp → List ℕ → List ℕ → List ℕ → ℤ × List ℕ
updated evp key iv input = evp.update key iv input (int_of (length input))

-- The block at the output pointer, and the number of contexts that are allocated.
pub record Output : Type 0 where
  pub block : List ℕ
  pub contexts : ℕ

-- EVP writes its bytes at an offset of the output, undefined past the end.
abbrev write_at : ℕ → List ℕ → M Output (Unit {0})
write_at offset bytes s = elim (ltb (length s.block) (offset + length bytes)) [
  | true ↦ faults
  | false ↦ returns (
    tt,
    record s { block = take offset s.block ++ bytes ++ drop (offset + length bytes) s.block },
  )
]

abbrev new_context : M Output (Unit {0})
new_context = modify λ s. record s { contexts = s.contexts + 1 }

abbrev free_context : M Output (Unit {0})
free_context = modify λ s. record s { contexts = s.contexts - 1 }

-- `EVP_CIPHER_CTX_free(ctx); return -1;`
abandon : Option ℕ → M Output (ℤ × Option ℕ)
abandon written = do free_context; ret (failure, written)

abbrev pub is_one : ℤ → Bool
is_one n = eqb_ℤ n (pos 1)

-- The body that the two functions share, once their pointers are found not to be NULL. The result
-- holds what the length pointer leads to afterwards.
unfoldable pub crypt : Evp → List ℕ → List ℕ → List ℕ → ℕ → M Output (ℤ × Option ℕ)
unfolding abandon
crypt evp key iv input old = branch (not evp.context) (ret (failure, some old)) do
  new_context
  branch (not (is_one evp.init_status)) (abandon (some old)) do
    let (update_status, first) = updated evp key iv input
    branch (not (is_one update_status)) (abandon (some old)) do
      write_at 0 first
      let (final_status, second) = evp.final key iv input
      branch (not (is_one final_status)) (abandon (some (length first))) do
        write_at (length first) second
        free_context
        ret (success, some (length first + length second))

-- A pointer is none where it is NULL.
unfoldable pub checked :
    Evp
    → Option (List ℕ)
    → Option (List ℕ)
    → Option (List ℕ)
    → Bool
    → Option ℕ
    → M Output (ℤ × Option ℕ)
unfolding crypt
checked evp (some key) (some iv) (some input) true (some old) = crypt evp key iv input old
checked evp _ _ _ _ old = ret (failure, old)

unfoldable pub aes_encrypt :
    EvpLibrary
    → Option (List ℕ)
    → Option (List ℕ)
    → Option (List ℕ)
    → Bool
    → Option ℕ
    → M Output (ℤ × Option ℕ)
unfolding checked
aes_encrypt library key iv plaintext ciphertext ciphertext_length =
    checked library.encryption key iv plaintext ciphertext ciphertext_length

unfoldable pub aes_decrypt :
    EvpLibrary
    → Option (List ℕ)
    → Option (List ℕ)
    → Option (List ℕ)
    → Bool
    → Option ℕ
    → M Output (ℤ × Option ℕ)
unfolding checked
aes_decrypt library key iv ciphertext plaintext plaintext_length =
    checked library.decryption key iv ciphertext plaintext plaintext_length
