-- ===== src/Router/IndexedLocation.antt =====
-- api/assfire/router/api/IndexedLocation.hpp: a location with its index in one distance matrix.
use assfire_suite.Base.{ℤ, negsuc, eqb_ℤ, Bool, ◌&&◌}
use assfire_suite.Concepts.Location
use assfire_suite.Concepts.Location.{Location}

pub record IndexedLocation : Type 0 where
  pub id : ℤ
  pub index_tag : ℤ
  pub location : Location

-- -1
abbrev pub invalid_tag : ℤ
invalid_tag = negsuc 0

-- operator==
unfoldable pub eqb : IndexedLocation → IndexedLocation → Bool
eqb a b = eqb_ℤ a.id b.id && eqb_ℤ a.index_tag b.index_tag && Location.eqb a.location b.location
