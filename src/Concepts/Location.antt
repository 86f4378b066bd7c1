-- ===== src/Concepts/Location.antt =====
-- Location.hpp/.cpp: a pair of coordinates.
use assfire_suite.Base.{ℤ, Bool, true, ◌&&◌, ◌≡◌, ◌↔◌, arith}
use assfire_suite.Concepts.Coordinate
use assfire_suite.Concepts.Coordinate.{Coordinate}

pub record Location : Type 0 where
  pub latitude : Coordinate
  pub longitude : Coordinate

abbrev pub from_encoded_lat_lon : ℤ → ℤ → Location
from_encoded_lat_lon lat lon = record {
  latitude = Coordinate.from_encoded_value lat;
  longitude = Coordinate.from_encoded_value lon;
}

-- operator==
unfoldable pub eqb : Location → Location → Bool
eqb a b = Coordinate.eqb a.latitude b.latitude && Coordinate.eqb a.longitude b.longitude

pub eqb_iff : (a b : Location) → (eqb a b ≡ true) ↔ (a ≡ b)
unfolding eqb
eqb_iff a b = (λ h. ground arith, λ h. ground arith)
