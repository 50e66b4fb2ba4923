-- ===== src/Int128.antt =====
-- common/Int128.hpp: the number of 128 bits in which sums of difficulties are kept.
pub mod Refinement
mod Runs
use cryo_nero.Prelude.{
  ℕ, ◌+◌, ◌-◌, ◌*◌, ◌%◌, ◌^◌, ◌<◌, Bool, ltb, ◌==◌, not, ◌&&◌, ◌||◌, if◌then◌else◌,
}

pub record Uint128 : Type 0 where
  pub lo : ℕ
  pub hi : ℕ

-- The implicit constructor from `uint64_t`.
abbrev pub from_u64 : ℕ → Uint128
from_u64 d = record { lo = d; hi = 0 }

-- `operator+=` and `operator-=`, and the operators that call them.
pub add_assign : Uint128 → Uint128 → Uint128
add_assign a other =
    let hi = (a.hi + other.hi) % 2 ^ 64 in
    let lo = (a.lo + other.lo) % 2 ^ 64 in
    record { lo = lo; hi = if ltb lo a.lo then (hi + 1) % 2 ^ 64 else hi }

pub sub_assign : Uint128 → Uint128 → Uint128
sub_assign a other =
    let hi = (a.hi + 2 ^ 64 - other.hi) % 2 ^ 64 in
    record {
      lo = (a.lo + 2 ^ 64 - other.lo) % 2 ^ 64;
      hi = if ltb a.lo other.lo then (hi + 2 ^ 64 - 1) % 2 ^ 64 else hi;
    }

-- The comparisons go by the pair (hi, lo).
pub less : Uint128 → Uint128 → Bool
less a b = ltb a.hi b.hi || (a.hi == b.hi && ltb a.lo b.lo)

pub equal : Uint128 → Uint128 → Bool
equal a b = a.hi == b.hi && a.lo == b.lo

pub greater : Uint128 → Uint128 → Bool
unfolding less
greater a b = less b a

pub less_equal : Uint128 → Uint128 → Bool
unfolding less
less_equal a b = not (less b a)

pub greater_equal : Uint128 → Uint128 → Bool
unfolding less
greater_equal a b = not (less a b)

pub not_equal : Uint128 → Uint128 → Bool
unfolding equal
not_equal a b = not (equal a b)
