-- ===== src/CryptoUtils/Base64/Total.antt =====
-- base64_decode on every text: what it refuses, where it goes out of bounds, and what it leaves alone.
use airplay.Base.{
  ℕ, zero, suc, ◌+◌, ◌/◌, ◌%◌, ◌^◌, ◌≤◌, ◌<◌, ◌≡◌, refl, ◌∙◌, arith, Bool, true, false, ◌&&◌, ◌||◌,
  none, some, List, [], ◌∷◌, length, length-set, drop, set, ltb, ◌==◌, Bool-cases, Option-cases,
  ltb→lt, ◌⊎◌, inl, inr, returns, faults, M, ◌>>=◌, Returns, Returns-mono, >>=-returns,
  store_within,
}
use airplay.CryptoUtils.Base64.{base64_chars, index_of, equals_sign, sextet, emit, decode_loop}
use airplay.CryptoUtils.Base64.Decode.{joined, emits, decode_round, decode_end}

-- A character that the decoder knows.
abbrev pub is_sign : ℕ → Bool
is_sign c = c == equals_sign || elim (index_of base64_chars c) [ none ↦ false | some k ↦ true ]

abbrev pub all_signs : List ℕ → Bool
all_signs [] = true
all_signs (c ∷ cs) = is_sign c && all_signs cs

-- The bytes of a block from `n` on are as they were.
abbrev pub Kept : ℕ → List ℕ → List ℕ → Type 0
Kept n before after = (length after ≡ length before) × (drop n after ≡ drop n before)

sextet_known :
    (c : ℕ) (block : List ℕ) → is_sign c ≡ true → (k : ℕ) × (sextet c block ≡ returns (k, block))
unfolding sextet
sextet_known c block h = elim (Bool-cases (c == equals_sign)) [
  | inl e ↦ (0, ground (arith, e))
  | inr e ↦ elim (Option-cases (index_of base64_chars c)) [
    | inl i ↦ absurd (ground (arith, h, e, i))
    | inr (k, i) ↦ (k, ground (arith, e, i))
  ]
]

sextet_foreign : (c : ℕ) (block : List ℕ) → is_sign c ≡ false → sextet c block ≡ faults
unfolding sextet
sextet_foreign c block h = elim (Bool-cases (c == equals_sign)) [
  | inl e ↦ absurd (ground (arith, h, e))
  | inr e ↦ elim (Option-cases (index_of base64_chars c)) [
    | inl i ↦ ground (arith, e, i)
    | inr (k, i) ↦ absurd (ground (arith, h, e, i))
  ]
]

drop-set : (n i v : ℕ) (block : List ℕ) → i < n → drop n (set block i v) ≡ drop n block
drop-set zero i v block h = elim h [ ]
drop-set (suc n) i v [] h = refl
drop-set (suc n) zero v (x ∷ block) h = refl
drop-set (suc n) (suc i) v (x ∷ block) h = drop-set n i v block (omega arith)

-- A byte is written below `n` or not at all.
emit-Kept :
    (n v j : ℕ) (block : List ℕ)
    → j ≤ n
    → n ≤ length block
    → (j' : ℕ) × (block' : List ℕ) × (emit n v j block ≡ returns (j', block'))
      × (j' ≤ n)
      × Kept n block block'
unfolding emit
emit-Kept n v j block h l = elim (Bool-cases (ltb j n)) [
  | inl wanted ↦
      let below : j < n = ltb→lt j n wanted in
      (
        j + 1,
        set block j v,
        ground (arith, wanted, store_within j v block (omega arith)),
        omega arith,
        (length-set block j v, drop-set n j v block below),
      )
  | inr enough ↦ (j, block, ground (arith, enough), h, (refl, refl))
]

emits-Kept :
    (x y z n j : ℕ) (k : ℕ → M (List ℕ) (Unit {0})) (block : List ℕ)
    → j ≤ n
    → n ≤ length block
    → (j' : ℕ) × (block' : List ℕ) × (emits x y z k n j block ≡ k j' block')
      × (j' ≤ n)
      × Kept n block block'
emits-Kept x y z n j k block h l =
    let (j₁, b₁, e₁, h₁, k₁) = emit-Kept n x j block h l in
    let (j₂, b₂, e₂, h₂, k₂) = emit-Kept n y j₁ b₁ h₁ (omega (arith, k₁.0)) in
    let (j₃, b₃, e₃, h₃, k₃) = emit-Kept n z j₂ b₂ h₂ (omega (arith, k₁.0, k₂.0)) in
    (
      j₃,
      b₃,
      >>=-returns (emit n x j) _ block j₁ b₁ e₁
          ∙ >>=-returns (emit n y j₁) _ b₁ j₂ b₂ e₂
          ∙ >>=-returns (emit n z j₂) _ b₂ j₃ b₃ e₃,
      h₃,
      (k₃.0 ∙ k₂.0 ∙ k₁.0, k₃.1 ∙ k₂.1 ∙ k₁.1),
    )

pub >>=-faults :
    {A B : Type 0} (m : M (List ℕ) A) (f : A → M (List ℕ) B) (block : List ℕ)
    → m block ≡ faults
    → (m >>= f) block ≡ faults
>>=-faults m f block e = rw (e, ◌>>=◌) refl

-- A round on four characters that the decoder knows.
round-Kept :
    (n p q r s j : ℕ) (rest block : List ℕ)
    → is_sign p ≡ true
    → is_sign q ≡ true
    → is_sign r ≡ true
    → is_sign s ≡ true
    → j ≤ n
    → n ≤ length block
    → (j' : ℕ) × (block' : List ℕ) × (decode_loop n (p ∷ q ∷ r ∷ s ∷ rest) j block
        ≡ decode_loop n rest j' block')
      × (j' ≤ n)
      × Kept n block block'
round-Kept n p q r s j rest block hp hq hr hs h l =
    let (a, ea) = sextet_known p block hp in
    let (b, eb) = sextet_known q block hq in
    let (c, ec) = sextet_known r block hr in
    let (d, ed) = sextet_known s block hs in
    let t : ℕ = joined a b c d in
    let (j', block', e, h', k) =
      emits-Kept (t / 2 ^ 16 % 256) (t / 2 ^ 8 % 256) (t % 256) n j (decode_loop n rest) block h
        l in
    (j', block', decode_round n p q r s j a b c d rest block ea eb ec ed ∙ e, h', k)

-- A round in which a character is foreign.
round-foreign :
    (n p q r s j : ℕ) (rest block : List ℕ)
    → (is_sign p && (is_sign q && (is_sign r && is_sign s))) ≡ false
    → decode_loop n (p ∷ q ∷ r ∷ s ∷ rest) j block ≡ faults
unfolding decode_loop
round-foreign n p q r s j rest block f = elim (Bool-cases (is_sign p)) [
  | inr x ↦ >>=-faults (sextet p) _ block (sextet_foreign p block x)
  | inl hp ↦
      let (a, ea) = sextet_known p block hp in
      >>=-returns (sextet p) _ block a block ea ∙ elim (Bool-cases (is_sign q)) [
        | inr x ↦ >>=-faults (sextet q) _ block (sextet_foreign q block x)
        | inl hq ↦
            let (b, eb) = sextet_known q block hq in
            >>=-returns (sextet q) _ block b block eb ∙ elim (Bool-cases (is_sign r)) [
              | inr x ↦ >>=-faults (sextet r) _ block (sextet_foreign r block x)
              | inl hr ↦
                  let (c, ec) = sextet_known r block hr in
                  let x : is_sign s ≡ false = ground (arith, f, hp, hq, hr) in
                  >>=-returns (sextet r) _ block c block ec
                  ∙ >>=-faults (sextet s) _ block (sextet_foreign s block x)
            ]
      ]
]

-- Four tests and the rest of them.
four_true :
    (a b c d e : Bool)
    → (a && (b && (c && (d && e)))) ≡ true
    → (a ≡ true) × (b ≡ true) × (c ≡ true) × (d ≡ true) × (e ≡ true)
four_true a b c d e h = ground arith

four_false :
    (a b c d e : Bool)
    → (a && (b && (c && (d && e)))) ≡ false
    → ((a && (b && (c && d))) ≡ false)
      ⊎ ((a ≡ true) × (b ≡ true) × (c ≡ true) × (d ≡ true) × (e ≡ false))
four_false a b c d e h = ground arith

pub loop-Kept :
    (n j : ℕ) (text block : List ℕ)
    → length text % 4 ≡ 0
    → all_signs text ≡ true
    → j ≤ n
    → n ≤ length block
    → Returns (λ r. Kept n block r.1) (decode_loop n text j block)
loop-Kept n j [] block m a h l = rw (decode_end n j block) (refl, refl)
loop-Kept n j (p ∷ []) block m a h l = absurd (omega arith)
loop-Kept n j (p ∷ q ∷ []) block m a h l = absurd (omega arith)
loop-Kept n j (p ∷ q ∷ r ∷ []) block m a h l = absurd (omega arith)
loop-Kept n j (p ∷ q ∷ r ∷ s ∷ rest) block m a h l =
    let (hp, hq, hr, hs, more) =
      four_true (is_sign p) (is_sign q) (is_sign r) (is_sign s) (all_signs rest) a in
    let (j', block', e, h', k) = round-Kept n p q r s j rest block hp hq hr hs h l in
    rw e (
      Returns-mono (λ x. Kept n block' x.1) (λ x. Kept n block x.1) (decode_loop n rest j' block')
        (loop-Kept n j' rest block' (omega arith) more h' (omega (arith, k.0)))
        λ x i. (i.0 ∙ k.0, i.1 ∙ k.1))

pub loop_foreign :
    (n j : ℕ) (text block : List ℕ)
    → length text % 4 ≡ 0
    → all_signs text ≡ false
    → j ≤ n
    → n ≤ length block
    → decode_loop n text j block ≡ faults
loop_foreign n j [] block m a h l = absurd (cc a)
loop_foreign n j (p ∷ []) block m a h l = absurd (omega arith)
loop_foreign n j (p ∷ q ∷ []) block m a h l = absurd (omega arith)
loop_foreign n j (p ∷ q ∷ r ∷ []) block m a h l = absurd (omega arith)
loop_foreign n j (p ∷ q ∷ r ∷ s ∷ rest) block m a h l =
    elim (four_false (is_sign p) (is_sign q) (is_sign r) (is_sign s) (all_signs rest) a) [
      | inl here ↦ round-foreign n p q r s j rest block here
      | inr (hp, hq, hr, hs, later) ↦
          let (j', block', e, h', k) = round-Kept n p q r s j rest block hp hq hr hs h l in
          e ∙ loop_foreign n j' rest block' (omega arith) later h' (omega (arith, k.0))
    ]
