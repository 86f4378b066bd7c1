-- ===== src/Concepts/Distance.antt =====
-- Distance.hpp/.cpp
use assfire_suite.Base.{Bool}
use assfire_suite.Concepts.Double.{Double, Fpu, double_zero, infinite_distance, epsilon, thousand}

pub record Distance : Type 0 where
  pub meters : Double

abbrev pub from_meters : Double → Distance
from_meters m = record { meters = m }

abbrev pub zero : Distance
zero = from_meters double_zero

abbrev pub infinity : Distance
infinity = from_meters infinite_distance

module _ (fpu : Fpu) where
  abbrev pub from_kilometers : Double → Distance
  from_kilometers k = from_meters (fpu.mul k thousand)

  abbrev pub is_infinity : Distance → Bool
  is_infinity d = fpu.le infinite_distance d.meters

  abbrev pub is_zero : Distance → Bool
  is_zero d = fpu.lt (fpu.fabs d.meters) epsilon
