-- ===== src/Difficulty.antt =====
-- Core/Difficulty.cpp: whether a hash meets a difficulty.
pub mod Threshold
mod Runs
use cryo_nero.Prelude.{
  ℕ, zero, suc, ◌+◌, ◌-◌, ◌*◌, ◌%◌, ◌^◌, List, [], ◌∷◌, Bool, true, false, ltb, ◌==◌, not, ◌&&◌,
  ◌||◌, if◌then◌else◌, take, drop,
}
use cryo_nero.IntUtil.{Wide, mul128}

pub cadd : ℕ → ℕ → Bool
cadd a b = ltb ((a + b) % 2 ^ 64) a

pub cadc : ℕ → ℕ → Bool → Bool
cadc a b c = ltb ((a + b) % 2 ^ 64) a || (c && ((a + b) % 2 ^ 64 == 2 ^ 64 - 1))

-- The bytes of a number, lowest first.
abbrev pub of_le_bytes : List ℕ → ℕ
of_le_bytes [] = 0
of_le_bytes (b ∷ bs) = b + 256 * of_le_bytes bs

-- `swap64le(((const uint64_t *)&hash)[i])`
abbrev pub hash_word : List ℕ → ℕ → ℕ
hash_word hash i = of_le_bytes (take 8 (drop (8 * i) hash))

check_words : ℕ → ℕ → ℕ → ℕ → ℕ → Bool
unfolding cadd cadc
check_words w0 w1 w2 w3 difficulty =
    let top = mul128 w3 difficulty in
    let m0 = mul128 w0 difficulty in
    let m1 = mul128 w1 difficulty in
    let m2 = mul128 w2 difficulty in
    let carry1 = cadd m0.hi m1.lo in
    let carry2 = cadc m1.hi m2.lo carry1 in
    let carry3 = cadc m2.hi top.lo carry2 in if top.hi == 0 then not carry3 else false

pub check_hash : List ℕ → ℕ → Bool
unfolding check_words
check_hash hash difficulty =
    check_words (hash_word hash 0) (hash_word hash 1) (hash_word hash 2) (hash_word hash 3)
      difficulty
