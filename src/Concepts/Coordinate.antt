-- ===== src/Concepts/Coordinate.antt =====
-- Coordinate.hpp/.cpp: an encoded coordinate, degrees times 10^6.
use assfire_suite.Base.{ℤ, eqb_ℤ, Bool}
use assfire_suite.Concepts.Double.{Double, Fpu}

pub record Coordinate : Type 0 where
  pub encoded : ℤ

abbrev encode_multiplier : Double
encode_multiplier = record { bits = 0x412e848000000000 }

abbrev pub from_encoded_value : ℤ → Coordinate
from_encoded_value v = record { encoded = v }

-- operator==
abbrev pub eqb : Coordinate → Coordinate → Bool
eqb a b = eqb_ℤ a.encoded b.encoded

module _ (fpu : Fpu) where
  abbrev pub double_value : Coordinate → Double
  double_value c = fpu.div (fpu.of_int64 c.encoded) encode_multiplier

  abbrev pub from_double_value : Double → Coordinate
  from_double_value v = from_encoded_value (fpu.to_int64 (fpu.mul v encode_multiplier))
