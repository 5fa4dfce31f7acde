-- ===== src/CryptoUtils/Base64/Table.antt =====
-- The table base64_chars read both ways, checked entry by entry.
use airplay.Base.{
  ℕ, zero, suc, ◌<◌, Bool, true, false, not, ◌&&◌, none, some, List, ◌≡◌, ◌≢◌, refl, arith, returns,
  ◌==◌,
}
use airplay.CryptoUtils.Base64.{base64_chars, char_of, index_of, sextet, equals_sign}

-- The entry is found where it stands, and is not the sign for padding.
is_entry : ℕ → Bool
is_entry k =
    elim (index_of base64_chars (char_of k)) [ none ↦ false | some i ↦ i == k ]
    && (not (char_of k == equals_sign) && not (char_of k == 0))

-- The first entries, up to an index.
checked_to : ℕ → Bool
checked_to zero = true
checked_to (suc k) = checked_to k && is_entry k

checked_to-is_entry : (k n : ℕ) → k < n → checked_to n ≡ true → is_entry k ≡ true
unfolding checked_to
checked_to-is_entry k zero l c = absurd (omega arith)
checked_to-is_entry k (suc n) l c = ground (arith, checked_to-is_entry k n)

entries : checked_to 64 ≡ true
unfolding checked_to is_entry char_of index_of
entries = refl

pub char_of-ne-equals_sign : (k : ℕ) → k < 64 → char_of k ≢ equals_sign
unfolding is_entry
char_of-ne-equals_sign k h = ground (arith, checked_to-is_entry k 64 h entries)

pub char_of-ne-zero : (k : ℕ) → k < 64 → char_of k ≢ 0
unfolding is_entry
char_of-ne-zero k h = ground (arith, checked_to-is_entry k 64 h entries)

pub sextet-char_of :
    (k : ℕ) (block : List ℕ) → k < 64 → sextet (char_of k) block ≡ returns (k, block)
unfolding sextet is_entry
sextet-char_of k block h = ground (arith, checked_to-is_entry k 64 h entries)

pub sextet-equals_sign : (block : List ℕ) → sextet equals_sign block ≡ returns (0, block)
unfolding sextet
sextet-equals_sign block = refl
