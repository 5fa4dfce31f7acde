-- ===== src/CryptoUtils/Examples.antt =====
-- The hashes, the pairing and the ciphers of src/crypto_utils.c on concrete answers of OpenSSL.
use mathlib.Core.List.{append-nil}
use airplay.Base.{
  List, take, ltb, ◌-◌, if◌then◌else◌, false, failure, ◌⊎◌, Returns, ℕ, ◌+◌, ◌≡◌, ◌↔◌, refl, arith,
  true, [], ◌∷◌, ◌++◌, length, drop, replicate, some, pos, success, returns, length-replicate,
}
use airplay.CryptoUtils.Hashes.{
  OpenSsl, OpenSslLaws, airplay_verify_pairing, airplay_verify_pairing_iff,
}
use airplay.CryptoUtils.Cipher.{Evp, EvpLibrary, Output, crypt, aes_encrypt, aes_decrypt}
use airplay.CryptoUtils.Cipher.Laws.{succeeds, crypt_lem, CbcLaws, aes_decrypt-aes_encrypt}

-- A stand-in for the digests, of their length.
abbrev flat : OpenSsl
flat = record {
  sha1 = λ bytes. replicate 20 7;
  hmac = λ key bytes. replicate 20 (length key + length bytes);
}

flat-OpenSslLaws : OpenSslLaws flat
flat-OpenSslLaws = record {
  sha1_length = λ bytes. length-replicate {A = ℕ} 20 7;
  hmac_length = λ key bytes. length-replicate {A = ℕ} 20 (length key + length bytes);
}

airplay_verify_pairing_iff_example :
    (airplay_verify_pairing flat (some (1 ∷ 2 ∷ [])) (some (replicate 20 3)) (some (9 ∷ []))
      ≡ success)
    ↔ (replicate 20 3 ≡ flat.hmac (9 ∷ []) (1 ∷ 2 ∷ []))
airplay_verify_pairing_iff_example =
    airplay_verify_pairing_iff flat (1 ∷ 2 ∷ []) (replicate 20 3) (9 ∷ []) flat-OpenSslLaws

-- A cipher that keeps a byte for the final call.
abbrev evp : Evp
evp = record {
  context = true;
  init_status = pos 1;
  update = λ key iv input inl. (pos 1, input);
  final = λ key iv input. (pos 1, 3 ∷ []);
}

abbrev output : Output
output = record { block = replicate 4 0; contexts = 0 }

crypt_lem_example :
    Returns
      (λ r.
        (r.1.contexts ≡ 0)
        × (((succeeds evp [] [] (1 ∷ 2 ∷ []) ≡ true)
              × (r.0 ≡ (success, some 3))
              × (r.1.block ≡ 1 ∷ 2 ∷ 3 ∷ drop 3 output.block))
            ⊎ ((succeeds evp [] [] (1 ∷ 2 ∷ []) ≡ false) × (r.0.0 ≡ failure))))
      (crypt evp [] [] (1 ∷ 2 ∷ []) 0 output)
crypt_lem_example = crypt_lem evp [] [] (1 ∷ 2 ∷ []) 0 output (omega arith)

-- A stream cipher that turns each byte over.
abbrev turned : List ℕ → List ℕ
turned [] = []
turned (x ∷ xs) = (if ltb x 256 then 255 - x else x) ∷ turned xs

turned_twice : (xs : List ℕ) → turned (turned xs) ++ [] ≡ xs
turned_twice [] = refl
turned_twice (x ∷ xs) = ground (arith, turned_twice xs)

abbrev turn : Evp
turn = record {
  context = true;
  init_status = pos 1;
  update = λ key iv input inl. (pos 1, turned input);
  final = λ key iv input. (pos 1, []);
}

turned_back : (xs : List ℕ) → turned (turned xs ++ []) ++ [] ≡ xs
turned_back xs = rw (append-nil (turned xs)) (turned_twice xs)

abbrev both : EvpLibrary
both = record { encryption = turn; decryption = turn }

both-CbcLaws : CbcLaws both
both-CbcLaws = record {
  inverts = λ key iv plaintext a b c d e f g. (refl, refl, refl, refl, turned_back plaintext);
}

abbrev sixteen : List ℕ
sixteen = replicate 16 7

aes_decrypt-aes_encrypt_example :
    Returns
      (λ r.
        (r.0 ≡ (success, some 2))
        × (r.1.contexts ≡ 0)
        × (aes_decrypt both
              (some sixteen)
              (some sixteen)
              (some (take 2 r.1.block))
              true
              (some 9)
              output
            ≡ returns ((success, some 2), record output { block = 1 ∷ 2 ∷ drop 2 output.block })))
      (aes_encrypt both (some sixteen) (some sixteen) (some (1 ∷ 2 ∷ [])) true (some 9) output)
aes_decrypt-aes_encrypt_example =
    aes_decrypt-aes_encrypt both sixteen sixteen (1 ∷ 2 ∷ []) 9 9 output output both-CbcLaws refl
      refl (omega arith) (omega arith) refl refl refl (omega arith) (omega arith)
