-- ===== src/Concepts/TimePoint.antt =====
-- TimePoint.hpp/.cpp, with the operators that TimeInterval.cpp defines: an instant in whole
-- seconds since the epoch, an int64 held here as an integer.
use assfire_suite.Base.{ℤ, pos, ◌+ℤ◌, ◌-ℤ◌, ltb_ℤ, if◌then◌else◌}
use assfire_suite.Concepts.TimeInterval.{TimeInterval}

pub record TimePoint : Type 0 where
  pub epoch_seconds : ℤ

-- std::numeric_limits<int64_t>::max()
abbrev pub int64_max : ℤ
int64_max = pos 9223372036854775807

abbrev pub from_epoch_seconds : ℤ → TimePoint
from_epoch_seconds s = record { epoch_seconds = s }

abbrev pub zero : TimePoint
zero = from_epoch_seconds (pos 0)

abbrev pub infinity : TimePoint
infinity = from_epoch_seconds int64_max

-- operator+(TimeInterval), which operator+= agrees with
abbrev pub add : TimePoint → TimeInterval → TimePoint
add t i = from_epoch_seconds (t.epoch_seconds +ℤ i.seconds)

-- operator-(TimeInterval)
abbrev pub sub : TimePoint → TimeInterval → TimePoint
sub t i = from_epoch_seconds (t.epoch_seconds -ℤ i.seconds)

-- operator-(TimePoint)
abbrev pub diff : TimePoint → TimePoint → TimeInterval
diff a b = record { seconds = a.epoch_seconds -ℤ b.epoch_seconds }

-- std::min and std::max on TimePoint
abbrev pub min : TimePoint → TimePoint → TimePoint
min a b = if ltb_ℤ a.epoch_seconds b.epoch_seconds then a else b

abbrev pub max : TimePoint → TimePoint → TimePoint
max a b = if ltb_ℤ b.epoch_seconds a.epoch_seconds then a else b
