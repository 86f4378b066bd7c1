-- ===== src/Base/Int32.antt =====
-- The conversion of a 64-bit integer to an int32_t, as C++ makes it where a protobuf field is int32.
use Prim.Native.Nat.{ℕ, ◌-◌, ◌%◌, ◌<◌}
use mathlib.Core.Path.{◌≡◌, subst}
use mathlib.Core.Logic.{◌↔◌, inl, inr}
use native.Mathlib.Omega.{arith}
use assfire_suite.Base.Tests.{ltb, if◌then◌else◌, if_true, Bool-cases, ltb→lt, lt→ltb}
use assfire_suite.Base.Int.{ℤ, pos, negsuc}

-- The low 32 bits of a number below 2^32, with the highest as the sign
abbrev pub signed_pos : ℕ → ℤ
signed_pos m = if ltb m 2147483648 then pos m else negsuc (4294967295 - m)

abbrev pub signed_neg : ℕ → ℤ
signed_neg m = if ltb m 2147483648 then negsuc m else pos (4294967295 - m)

unfoldable pub to_int32 : ℤ → ℤ
to_int32 (pos n) = signed_pos (n % 4294967296)
to_int32 (negsuc n) = signed_neg (n % 4294967296)

-- From -2^31 to 2^31 - 1
abbrev pub IsInt32 : ℤ → Type 0
IsInt32 (pos n) = n < 2147483648
IsInt32 (negsuc n) = n < 2147483648

-- The conversion keeps the values in the range.
pub to_int32-eq : (v : ℤ) → IsInt32 v → to_int32 v ≡ v
unfolding to_int32
to_int32-eq (pos n) h =
    let e : n % 4294967296 ≡ n = omega arith in rw e (if_true _ _ _ (lt→ltb n 2147483648 h))
to_int32-eq (negsuc n) h =
    let e : n % 4294967296 ≡ n = omega arith in rw e (if_true _ _ _ (lt→ltb n 2147483648 h))

signed_pos-IsInt32 : (m : ℕ) → m < 4294967296 → IsInt32 (signed_pos m)
signed_pos-IsInt32 m h = elim (Bool-cases (ltb m 2147483648)) [
  | inl e ↦ rw e (ltb→lt m 2147483648 e)
  | inr e ↦ rw e (ground arith)
]

signed_neg-IsInt32 : (m : ℕ) → m < 4294967296 → IsInt32 (signed_neg m)
signed_neg-IsInt32 m h = elim (Bool-cases (ltb m 2147483648)) [
  | inl e ↦ rw e (ltb→lt m 2147483648 e)
  | inr e ↦ rw e (ground arith)
]

-- What comes out is in the range.
pub to_int32-IsInt32 : (v : ℤ) → IsInt32 (to_int32 v)
unfolding to_int32
to_int32-IsInt32 (pos n) = signed_pos-IsInt32 (n % 4294967296) (omega arith)
to_int32-IsInt32 (negsuc n) = signed_neg-IsInt32 (n % 4294967296) (omega arith)

-- So exactly these are kept.
pub to_int32-keeps : (v : ℤ) → (to_int32 v ≡ v) ↔ IsInt32 v
to_int32-keeps v = (λ e. subst (λ x. IsInt32 x) e (to_int32-IsInt32 v), to_int32-eq v)
