-- ===== src/Varint/Sqlite4/BigEndian.antt =====
-- The fixed-width parts of the encoding of common/Varint.cpp.
use mathlib.Core.List.{foldl}
use native.Mathlib.Nat.{pow-suc}
use cryo_nero.Prelude.{
  ℕ, zero, suc, ◌+◌, ◌*◌, ◌/◌, ◌%◌, ◌^◌, ◌<◌, ◌≡◌, refl, ap, ◌∙◌, arith, List, [], ◌∷◌, ◌++◌,
  length, take, drop, length-append,
}
use Prim.Native.Nat.{bit_or}
use cryo_nero.Prelude.Bits.{bit_or_high_low}
use cryo_nero.Prelude.Results.{ok}
use cryo_nero.Varint.Sqlite4.{IsU64, shift_in, uint_be_from_bytes, uint_be_to_bytes, read}

pub length-uint_be_to_bytes :
    (n v : ℕ) (out : List ℕ) → length (uint_be_to_bytes n v out) ≡ n + length out
unfolding uint_be_to_bytes
length-uint_be_to_bytes zero v out = omega arith
length-uint_be_to_bytes (suc n) v out =
    omega (arith, length-uint_be_to_bytes n (v / 2 ^ 8) ((v % 256) ∷ out))

pub uint_be_to_bytes-append :
    (n v : ℕ) (out rest : List ℕ)
    → uint_be_to_bytes n v out ++ rest ≡ uint_be_to_bytes n v (out ++ rest)
unfolding uint_be_to_bytes
uint_be_to_bytes-append zero v out rest = refl
uint_be_to_bytes-append (suc n) v out rest =
    uint_be_to_bytes-append n (v / 2 ^ 8) ((v % 256) ∷ out) rest

shift_in_lem : (r b : ℕ) → b < 256 → IsU64 (r * 256 + b) → shift_in r b ≡ r * 256 + b
shift_in_lem r b hb fits =
    omega (arith, ap (λ (t : ℕ). bit_or t b) (mod_small r (omega arith)), bit_or_high_low 8 r b hb)
  where
    mod_small : (r : ℕ) → IsU64 (r * 256) → r * 2 ^ 8 % 2 ^ 64 ≡ r * 2 ^ 8
    mod_small r h = omega arith

-- The reading loop, from any value, shifts the number in.
foldl-uint_be_to_bytes :
    (n v r : ℕ) (out : List ℕ)
    → v < 256 ^ n
    → IsU64 (r * 256 ^ n + v)
    → foldl shift_in r (uint_be_to_bytes n v out) ≡ foldl shift_in (r * 256 ^ n + v) out
unfolding uint_be_to_bytes
foldl-uint_be_to_bytes zero v r out hv fits = ap (λ (t : ℕ). foldl shift_in t out) (omega arith)
foldl-uint_be_to_bytes (suc n) v r out hv fits =
    foldl-uint_be_to_bytes n (v / 2 ^ 8) r ((v % 256) ∷ out) (omega (arith, pow-suc 256 n)) fits'
    ∙ ap (λ (t : ℕ). foldl shift_in t out)
        (shift_in_lem (r * 256 ^ n + v / 256) (v % 256) (omega arith) fits'' ∙ whole)
  where
    power : r * 256 ^ suc n ≡ r * 256 ^ n * 256
    power = omega (arith, ap (λ (t : ℕ). r * t) (pow-suc 256 n))

    whole : (r * 256 ^ n + v / 256) * 256 + v % 256 ≡ r * 256 ^ suc n + v
    whole = omega (arith, power)

    fits' : IsU64 (r * 256 ^ n + v / 2 ^ 8)
    fits' = omega (arith, power)

    fits'' : IsU64 ((r * 256 ^ n + v / 256) * 256 + v % 256)
    fits'' = omega (arith, whole)

pub uint_be_from_bytes-to_bytes :
    (n v : ℕ) → v < 256 ^ n → IsU64 v → uint_be_from_bytes (uint_be_to_bytes n v []) ≡ v
unfolding uint_be_from_bytes
uint_be_from_bytes-to_bytes n v hv fits =
    foldl-uint_be_to_bytes n v 0 [] hv (omega arith) ∙ zero_times
  where
    zero_times : 0 * 256 ^ n + v ≡ v
    zero_times = omega arith

take_drop_lem :
    (xs rest : List ℕ)
    → (take (length xs) (xs ++ rest) ≡ xs) × (drop (length xs) (xs ++ rest) ≡ rest)
take_drop_lem [] rest = (refl, refl)
take_drop_lem (x ∷ xs) rest = let (t, d) = take_drop_lem xs rest in (ap (λ l. x ∷ l) t, d)

-- `read` takes exactly what was asked for.
pub read-append : (n : ℕ) (xs rest : List ℕ) → length xs ≡ n → read n (xs ++ rest) ≡ ok (xs, rest)
unfolding read
read-append n xs rest h = ground (
  arith,
  take_drop_lem xs rest,
  length-append xs rest,
  ap (λ (k : ℕ). take k (xs ++ rest)) h,
  ap (λ (k : ℕ). drop k (xs ++ rest)) h,
)

pub read-uint_be_to_bytes :
    (n v : ℕ) (rest : List ℕ)
    → read n (uint_be_to_bytes n v rest) ≡ ok (uint_be_to_bytes n v [], rest)
read-uint_be_to_bytes n v rest =
    rw (← uint_be_to_bytes-append n v [] rest)
      (read-append n (uint_be_to_bytes n v []) rest (omega (arith, length-uint_be_to_bytes n v [])))
