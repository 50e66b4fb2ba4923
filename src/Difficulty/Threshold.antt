-- ===== src/Difficulty/Threshold.antt =====
-- `check_hash` of Core/Difficulty.cpp compares the hash with 2^256 / difficulty.
use native.Mathlib.Nat.{pow-suc}
use cryo_nero.Prelude.{
  ◌≤◌, refl, length, ℕ, ◌+◌, ◌-◌, ◌*◌, ◌/◌, ◌%◌, ◌^◌, ◌<◌, ◌≤◌, ◌≡◌, List, [], ◌∷◌, Bool, true,
  false, ltb, leb, if◌then◌else◌, ◌==◌, not, arith, All, length, take, drop, suc, zero, ◌∙◌, ap,
}
use cryo_nero.Difficulty.{hash_word, check_hash, cadd, cadc, of_le_bytes, check_words}

product_fits : (w d : ℕ) → w < 2 ^ 64 → d < 2 ^ 64 → w * d < 2 ^ 128
product_fits w d hw hd = omega (arith, le_product)
  where
    le_product : w * d ≤ (2 ^ 64 - 1) * d
    le_product = grind arith

abbrev bit : Bool → ℕ
bit true = 1
bit false = 0

cadd_lem : (a b : ℕ) → a < 2 ^ 64 → b < 2 ^ 64 → cadd a b ≡ leb (2 ^ 64) (a + b)
unfolding cadd
cadd_lem a b ha hb = ground arith

cadc_lem :
    (a b : ℕ) (c : Bool) → a < 2 ^ 64 → b < 2 ^ 64 → cadc a b c ≡ leb (2 ^ 64) (a + b + bit c)
unfolding cadc
cadc_lem a b true ha hb = ground arith
cadc_lem a b false ha hb = ground arith

-- The sum of the shifted products overflows 256 bits if the top word or the last carry is set.
carry_chain :
    (a0 a1 b0 b1 c0 c1 t0 t1 : ℕ)
    → a0 < 2 ^ 64
    → a1 < 2 ^ 64
    → b0 < 2 ^ 64
    → b1 < 2 ^ 64
    → c0 < 2 ^ 64
    → c1 < 2 ^ 64
    → t0 < 2 ^ 64
    → (if t1 == 0 then not (cadc c1 t0 (cadc b1 c0 (cadd a1 b0))) else false)
      ≡ ltb
          (a1 * 2 ^ 64
            + a0
            + (b1 * 2 ^ 64 + b0) * 2 ^ 64
            + (c1 * 2 ^ 64 + c0) * 2 ^ 128
            + (t1 * 2 ^ 64 + t0) * 2 ^ 192)
          (2 ^ 256)
carry_chain a0 a1 b0 b1 c0 c1 t0 t1 ha0 ha1 hb0 hb1 hc0 hc1 ht0 =
    rw
      (
        cadd_lem a1 b0 ha1 hb0,
        cadc_lem b1 c0 (leb (2 ^ 64) (a1 + b0)) hb1 hc0,
        cadc_lem c1 t0 (leb (2 ^ 64) (b1 + c0 + bit (leb (2 ^ 64) (a1 + b0)))) hc1 ht0,
      )
      (ground arith)

high_word : (w d : ℕ) → w < 2 ^ 64 → d < 2 ^ 64 → w * d / 2 ^ 64 < 2 ^ 64
high_word w d hw hd = omega (arith, product_fits w d hw hd)

check_words_lem :
    (w0 w1 w2 w3 d : ℕ)
    → w0 < 2 ^ 64
    → w1 < 2 ^ 64
    → w2 < 2 ^ 64
    → w3 < 2 ^ 64
    → d < 2 ^ 64
    → check_words w0 w1 w2 w3 d
      ≡ ltb ((w0 + w1 * 2 ^ 64 + w2 * 2 ^ 128 + w3 * 2 ^ 192) * d) (2 ^ 256)
unfolding check_words
check_words_lem w0 w1 w2 w3 d h0 h1 h2 h3 hd =
    carry_chain (w0 * d % 2 ^ 64) (w0 * d / 2 ^ 64) (w1 * d % 2 ^ 64) (w1 * d / 2 ^ 64)
      (w2 * d % 2 ^ 64) (w2 * d / 2 ^ 64) (w3 * d % 2 ^ 64) (w3 * d / 2 ^ 64) (omega arith)
      (high_word w0 d h0 hd) (omega arith) (high_word w1 d h1 hd) (omega arith)
      (high_word w2 d h2 hd) (omega arith)
    ∙ ap (λ (t : ℕ). ltb t (2 ^ 256)) (omega arith)

abbrev pub IsByte : ℕ → Type 0
IsByte b = b < 256

of_le_bytes-take : (n : ℕ) (bs : List ℕ) → All IsByte bs → of_le_bytes (take n bs) < 256 ^ n
of_le_bytes-take zero bs small = omega arith
of_le_bytes-take (suc n) [] small = omega (arith, pow-suc 256 n, of_le_bytes-take n [] tt)
of_le_bytes-take (suc n) (b ∷ bs) small =
    omega (arith, pow-suc 256 n, of_le_bytes-take n bs small.1)

All-drop : (n : ℕ) (bs : List ℕ) → All IsByte bs → All IsByte (drop n bs)
All-drop zero bs small = small
All-drop (suc n) [] small = tt
All-drop (suc n) (b ∷ bs) small = All-drop n bs small.1

drop-drop : (n m k : ℕ) (bs : List ℕ) → m + n ≡ k → drop n (drop m bs) ≡ drop k bs
drop-drop n zero k bs e = let e' : n ≡ k = omega arith in ap (λ (t : ℕ). drop t bs) e'
drop-drop n (suc m) zero bs e = absurd (omega arith)
drop-drop zero (suc m) (suc k) [] e = refl
drop-drop (suc n) (suc m) (suc k) [] e = refl
drop-drop n (suc m) (suc k) (b ∷ bs) e = drop-drop n m k bs (omega arith)

drop_all : (n : ℕ) (bs : List ℕ) → length bs ≡ n → of_le_bytes (drop n bs) ≡ 0
drop_all zero [] e = refl
drop_all zero (b ∷ bs) e = absurd (omega arith)
drop_all (suc n) [] e = refl
drop_all (suc n) (b ∷ bs) e = drop_all n bs (omega arith)

-- Eight bytes at a time.
of_le_bytes_split :
    (n : ℕ) (bs : List ℕ)
    → of_le_bytes bs ≡ of_le_bytes (take n bs) + 256 ^ n * of_le_bytes (drop n bs)
of_le_bytes_split zero bs = omega arith
of_le_bytes_split (suc n) [] = omega arith
of_le_bytes_split (suc n) (b ∷ bs) =
    omega
      (arith, of_le_bytes_split n bs, ap (λ (t : ℕ). t * of_le_bytes (drop n bs)) (pow-suc 256 n))

words_of_hash :
    (hash : List ℕ)
    → length hash ≡ 32
    → of_le_bytes hash
      ≡ hash_word hash 0
        + hash_word hash 1 * 2 ^ 64
        + hash_word hash 2 * 2 ^ 128
        + hash_word hash 3 * 2 ^ 192
words_of_hash hash e = omega (
  arith,
  of_le_bytes_split 8 hash,
  of_le_bytes_split 8 (drop 8 hash),
  of_le_bytes_split 8 (drop 16 hash),
  of_le_bytes_split 8 (drop 24 hash),
  ap of_le_bytes (drop-drop 8 8 16 hash refl),
  ap of_le_bytes (drop-drop 8 16 24 hash refl),
  ap of_le_bytes (drop-drop 8 24 32 hash refl),
  drop_all 32 hash e,
)

hash_word_fits : (hash : List ℕ) (i : ℕ) → All IsByte hash → hash_word hash i < 2 ^ 64
hash_word_fits hash i small = of_le_bytes-take 8 (drop (8 * i) hash) (All-drop (8 * i) hash small)

-- A hash of 32 bytes passes for a difficulty below 2^64 exactly if its little-endian value times
-- the difficulty stays below 2^256.
pub check_hash-threshold :
    (hash : List ℕ) (difficulty : ℕ)
    → length hash ≡ 32
    → All IsByte hash
    → difficulty < 2 ^ 64
    → check_hash hash difficulty ≡ ltb (of_le_bytes hash * difficulty) (2 ^ 256)
unfolding check_hash
check_hash-threshold hash difficulty e small fits = rw (words_of_hash hash e) (
    check_words_lem (hash_word hash 0) (hash_word hash 1) (hash_word hash 2) (hash_word hash 3)
      difficulty (hash_word_fits hash 0 small) (hash_word_fits hash 1 small)
      (hash_word_fits hash 2 small) (hash_word_fits hash 3 small) fits)
