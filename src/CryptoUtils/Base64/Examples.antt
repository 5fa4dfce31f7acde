-- ===== src/CryptoUtils/Base64/Examples.antt =====
-- base64_encode and base64_decode on concrete bytes.
use airplay.Base.{
  ℕ, ◌≡◌, refl, arith, List, ◌++◌, All, drop, replicate, codes, some, true, success, false, returns,
  Returns, c_string,
}
use airplay.CryptoUtils.Base64.{char_of, encode, decode, index_of}
use airplay.CryptoUtils.Base64.Groups.{IsByte, text_of}
use airplay.CryptoUtils.Base64.Encode.{encoded_block, encode_lem}
use airplay.CryptoUtils.Base64.RoundTrip.{decode-encode}
use airplay.CryptoUtils.Base64.Total.{all_signs}
use airplay.CryptoUtils.Base64.Texts.{Decodes, decode_lem}

abbrev block : List ℕ
block = replicate 16 170

-- "Many"
abbrev many : List ℕ
many = codes "Many"

many-IsByte : All IsByte many
many-IsByte = (omega arith, (omega arith, (omega arith, (omega arith, tt))))

text_of-many : text_of many ≡ codes "TWFueQ=="
unfolding char_of
text_of-many = refl

encode_lem_example : encode (some many) true block ≡ returns (success, encoded_block many block)
encode_lem_example = encode_lem many block many-IsByte (omega arith) (omega arith)

decode-encode_example :
    Returns
      (λ r.
        (r.0 ≡ success)
        × (decode (some (c_string r.1)) true (some 8) block
            ≡ returns ((success, some 4), many ++ drop 4 block)))
      (encode (some many) true block)
decode-encode_example =
    decode-encode b'M' (codes "any") block block 8 many-IsByte (omega arith) (omega arith)
      (omega arith) (omega arith)

-- A full stop behind a group that is right.
abbrev mistyped : List ℕ
mistyped = codes "TWFuab.="

decode_lem_example : Decodes mistyped 16 block (decode (some mistyped) true (some 16) block)
decode_lem_example = decode_lem mistyped 16 block (omega arith) (omega arith)

mistyped_signs : all_signs mistyped ≡ false
unfolding index_of
mistyped_signs = refl
