-- ===== src/Difficulty/Runs.antt =====
-- `check_hash` of Core/Difficulty.cpp at concrete hashes.
use cryo_nero.Prelude.{ℕ, ◌≡◌, ◌*◌, ◌^◌, refl, arith, List, [], ◌∷◌, ◌++◌, ltb, true, false}
use cryo_nero.Difficulty.{check_hash, of_le_bytes}
use cryo_nero.Difficulty.Threshold.{check_hash-threshold}

abbrev eight : ℕ → List ℕ
eight b = b ∷ b ∷ b ∷ b ∷ b ∷ b ∷ b ∷ b ∷ []

-- The value of this hash is a little more than 2^252.
abbrev hash_252 : List ℕ
hash_252 = eight 255 ++ (eight 1 ++ (eight 0 ++ (0 ∷ 0 ∷ 0 ∷ 0 ∷ 0 ∷ 0 ∷ 0 ∷ 16 ∷ [])))

passes : check_hash hash_252 15 ≡ true
unfolding check_hash
passes = refl

fails : check_hash hash_252 16 ≡ false
unfolding check_hash
fails = refl

check_hash-threshold_example : check_hash hash_252 16 ≡ ltb (of_le_bytes hash_252 * 16) (2 ^ 256)
check_hash-threshold_example = check_hash-threshold hash_252 16 refl (omega arith) (omega arith)
