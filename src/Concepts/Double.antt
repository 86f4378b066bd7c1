-- ===== src/Concepts/Double.antt =====
-- C++ doubles. A double is kept as its 64 bits; the machine's arithmetic on doubles is a parameter.
use assfire_suite.Base.{ℕ, ℤ, Bool}

pub record Double : Type 0 where
  pub bits : ℕ

-- The operations of the C++ implementation on doubles. `to_int64` is the conversion that truncates.
pub record Fpu : Type 0 where
  pub add : Double → Double → Double
  pub mul : Double → Double → Double
  pub div : Double → Double → Double
  pub fabs : Double → Double
  pub round : Double → Double
  pub lt : Double → Double → Bool
  pub le : Double → Double → Bool
  pub to_int64 : Double → ℤ
  pub of_int64 : ℤ → Double

abbrev pub double_zero : Double
double_zero = record { bits = 0 }

-- 1000000000.0
abbrev pub infinite_distance : Double
infinite_distance = record { bits = 0x41cdcd6500000000 }

-- std::numeric_limits<double>::epsilon()
abbrev pub epsilon : Double
epsilon = record { bits = 0x3cb0000000000000 }

abbrev pub thousand : Double
thousand = record { bits = 0x408f400000000000 }

abbrev pub seconds_per_hour : Double
seconds_per_hour = record { bits = 0x40ac200000000000 }
