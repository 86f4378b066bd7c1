-- ===== src/Concepts/Division.antt =====
-- The templates of TimeInterval.hpp that scale an interval, at an integer factor.
use assfire_suite.Base.{
  ℕ, ℤ, pos, negsuc, pos_part, neg_part, zero, suc, ◌+◌, ◌*◌, ◌/◌, ◌<◌, ◌≡◌, Option, some, none,
  Bool, true, false, arith,
}
use assfire_suite.Concepts.TimeInterval
use assfire_suite.Concepts.TimeInterval.{TimeInterval}

abbrev is_negative : ℤ → Bool
is_negative (pos n) = false
is_negative (negsuc n) = true

-- The integer with this sign and magnitude.
abbrev signed : Bool → Bool → ℕ → ℤ
signed true false (suc n) = negsuc n
signed false true (suc n) = negsuc n
signed _ _ n = pos n

abbrev magnitude : ℤ → ℕ
magnitude a = pos_part a + neg_part a

-- C++ integer division, which truncates; a zero divisor is undefined behaviour.
quotient : ℤ → ℤ → Option ℤ
quotient a (pos zero) = none
quotient a b = some (signed (is_negative a) (is_negative b) (magnitude a / magnitude b))

-- operator*(val)
pub multiply : TimeInterval → ℤ → TimeInterval
multiply i v =
    TimeInterval.from_seconds
      (signed (is_negative v) (is_negative i.seconds) (magnitude v * magnitude i.seconds))

-- operator/(val), which divides the factor by the interval
pub divide : TimeInterval → ℤ → Option TimeInterval
unfolding quotient
divide i v = elim (quotient v i.seconds) [
  | none ↦ none
  | some s ↦ some (TimeInterval.from_seconds s)
]

div_small : (k s : ℕ) → k < s → k / s ≡ 0
div_small k s h = grind arith

-- Dividing an interval by a smaller positive factor gives the zero interval.
pub divide_of_lt :
    (s k : ℕ)
    → 0 < k
    → k < s
    → divide (TimeInterval.from_seconds (pos s)) (pos k) ≡ some TimeInterval.zero
unfolding divide
divide_of_lt zero k h lt = elim lt [ ]
divide_of_lt (suc s) k h lt = ground (arith, div_small k (suc s) lt)
