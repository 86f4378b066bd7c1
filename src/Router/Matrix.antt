-- ===== src/Router/Matrix.antt =====
-- api/assfire/router/api/Matrix.hpp: a matrix in one vector, row by row. A row or column number is an
-- int, which the index arithmetic converts to a 64-bit size_t.
pub mod Fill
pub mod Correct
use assfire_suite.Base.{
  ℕ, zero, suc, ◌+◌, ◌-◌, ◌*◌, ◌%◌, ◌^◌, ℤ, pos, negsuc, List, Result, ok, ◌>>=◌, of_option,
  out_of_range, err, length, ltb, if◌then◌else◌, get_elem?, set, replicate,
}

pub record Matrix {ℓ} (T : Type ℓ) : Type ℓ where
  pub cells : List T
  pub rows : ℕ
  pub columns : ℕ

abbrev pub size_mod : ℕ
size_mod = 2 ^ 64

-- (size_t) i
pub to_size : ℤ → ℕ
to_size (pos n) = n % size_mod
to_size (negsuc n) = size_mod - 1 - n % size_mod

-- columns * i + j
pub index : ℕ → ℤ → ℤ → ℕ
unfolding to_size
index columns i j = (columns * to_size i + to_size j) % size_mod

module _ {ℓ} {T : Type ℓ} where
  -- at(i, j), which throws std::out_of_range behind the end of the vector
  unfoldable pub at : Matrix T → ℤ → ℤ → Result T
  unfolding index
  at m i j = of_option (get_elem? m.cells (index m.columns i j)) out_of_range

  -- at(i, j) = v
  pub write : ℕ → ℤ → ℤ → T → List T → Result (List T)
  write columns i j v cells =
      if ltb (index columns i j) (length cells)
      then ok (set cells (index columns i j) v)
      else err out_of_range

  -- The inner loop of the constructor: `left` columns of row `i` to go, from column `j` on.
  pub fill_row : (ℕ → ℕ → Result T) → ℕ → ℕ → ℕ → ℕ → List T → Result (List T)
  fill_row supplier columns i j zero cells = ok cells
  fill_row supplier columns i j (suc left) cells = do
    v ← supplier i j
    written ← write columns (pos i) (pos j) v cells
    fill_row supplier columns i (suc j) left written

  -- The outer loop: `left` rows to go, from row `i` on.
  pub fill_rows : (ℕ → ℕ → Result T) → ℕ → ℕ → ℕ → List T → Result (List T)
  fill_rows supplier columns i zero cells = ok cells
  fill_rows supplier columns i (suc left) cells = do
    filled ← fill_row supplier columns i 0 columns cells
    fill_rows supplier columns (suc i) left filled

  -- The constructor; `default` is T(), and the supplier may throw.
  unfoldable pub construct : T → ℕ → ℕ → (ℕ → ℕ → Result T) → Result (Matrix T)
  unfolding write fill_row fill_rows index
  construct default rows columns supplier = do
    filled ← fill_rows supplier columns 0 rows (replicate (rows * columns) default)
    ok (record { cells = filled; rows = rows; columns = columns })
