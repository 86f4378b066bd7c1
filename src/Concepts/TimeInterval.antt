-- ===== src/Concepts/TimeInterval.antt =====
-- TimeInterval.hpp/.cpp: a duration in whole seconds, an int64 held here as an integer.
use assfire_suite.Base.{ℤ, pos, ◌+ℤ◌, ◌-ℤ◌, ltb_ℤ, geb_ℤ, eqb_ℤ, Bool, if◌then◌else◌}

pub record TimeInterval : Type 0 where
  pub seconds : ℤ

-- TimeInterval::INFINITE_TIME_INTERVAL
abbrev pub infinite_time_interval : ℤ
infinite_time_interval = pos 3600000000

abbrev pub from_seconds : ℤ → TimeInterval
from_seconds s = record { seconds = s }

abbrev pub zero : TimeInterval
zero = from_seconds (pos 0)

abbrev pub infinity : TimeInterval
infinity = from_seconds infinite_time_interval

abbrev pub is_infinity : TimeInterval → Bool
is_infinity i = geb_ℤ i.seconds infinite_time_interval

abbrev pub is_zero : TimeInterval → Bool
is_zero i = eqb_ℤ i.seconds (pos 0)

abbrev pub is_positive : TimeInterval → Bool
is_positive i = ltb_ℤ (pos 0) i.seconds

abbrev pub add : TimeInterval → TimeInterval → TimeInterval
add a b = from_seconds (a.seconds +ℤ b.seconds)

abbrev pub sub : TimeInterval → TimeInterval → TimeInterval
sub a b = from_seconds (a.seconds -ℤ b.seconds)

-- The generic std::min and std::max, by the defaulted comparison.
abbrev pub min : TimeInterval → TimeInterval → TimeInterval
min a b = if ltb_ℤ b.seconds a.seconds then b else a

abbrev pub max : TimeInterval → TimeInterval → TimeInterval
max a b = if ltb_ℤ a.seconds b.seconds then b else a
