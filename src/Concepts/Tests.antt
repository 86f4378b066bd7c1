-- ===== src/Concepts/Tests.antt =====
-- The theorem on division at a concrete interval.
use assfire_suite.Base.{pos, ◌≡◌, some, arith}
use assfire_suite.Concepts.TimeInterval
use assfire_suite.Concepts.Division.{divide, divide_of_lt}

-- Ten minutes, divided by two
divide_of_lt_example : divide (TimeInterval.from_seconds (pos 600)) (pos 2) ≡ some TimeInterval.zero
divide_of_lt_example = divide_of_lt 600 2 (omega arith) (omega arith)
