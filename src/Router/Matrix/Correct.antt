-- ===== src/Router/Matrix/Correct.antt =====
-- What the constructor and `at` of Matrix.hpp promise together.
use assfire_suite.Base.{
  ℕ, ◌+◌, ◌*◌, ◌<◌, pos, ◌≡◌, sym, ◌∙◌, length, get_elem?, replicate, some, Result, ok, >>=-eq-ok,
  length-replicate, arith,
}
use assfire_suite.Router.Matrix.{Matrix, size_mod, at, fill_rows, construct}
use assfire_suite.Router.Matrix.Fill.{
  index-eq, Filled, fill_rows-Filled, fill_rows_total, cell_below,
}

pub at-eq-ok {ℓ} :
    {T : Type ℓ} (m : Matrix T) (columns i j : ℕ) (v : T)
    → m.columns ≡ columns
    → j < columns
    → columns * i + j < size_mod
    → get_elem? m.cells (columns * i + j) ≡ some v
    → at m (pos i) (pos j) ≡ ok v
unfolding at
at-eq-ok m columns i j v c h k e = rw (c, index-eq columns i j h k, e)

module _ {ℓ} {T : Type ℓ} (default : T) (rows columns : ℕ) (supplier : ℕ → ℕ → Result T) where
  -- What a constructor that returns has built.
  pub construct-cases :
      (m : Matrix T)
      → rows * columns < size_mod
      → construct default rows columns supplier ≡ ok m
      → (m.rows ≡ rows)
        × (m.columns ≡ columns)
        × (length m.cells ≡ rows * columns)
        × Filled supplier columns (columns * rows) m.cells
  unfolding construct
  construct-cases m h e =
      let start = replicate (rows * columns) default in
      let size = length-replicate (rows * columns) default in
      let (filled, p, q) = >>=-eq-ok (fill_rows supplier columns 0 rows start) _ e in
      let (f, n) =
        fill_rows-Filled supplier columns 0 rows start filled (omega (arith, size))
          (omega (arith, size)) p (λ a b hb lt. absurd (omega arith)) in
      let same : filled ≡ m.cells = cc in
      (cc, cc, rw (sym same) (n ∙ size), λ a b hb lt. rw (sym same) (f a b hb (omega arith)))

  -- In a matrix that was built, each cell within the bounds has the supplier's value.
  pub at-construct :
      (m : Matrix T) (i j : ℕ)
      → rows * columns < size_mod
      → construct default rows columns supplier ≡ ok m
      → i < rows
      → j < columns
      → (v : T) × (supplier i j ≡ ok v) × (at m (pos i) (pos j) ≡ ok v)
  at-construct m i j h e hi hj =
      let (r, c, n, f) = construct-cases m h e in
      let low = cell_below rows columns i j hi hj in
      let (v, p, q) = f i j hj (omega arith) in
      (v, p, at-eq-ok m columns i j v c hj (omega arith) q)

  pub size-construct :
      (m : Matrix T)
      → rows * columns < size_mod
      → construct default rows columns supplier ≡ ok m
      → (m.rows ≡ rows) × (m.columns ≡ columns) × (length m.cells ≡ rows * columns)
  size-construct m h e = let (r, c, n, f) = construct-cases m h e in (r, c, n)

  -- If the supplier answers for every cell, the constructor returns a matrix of the given size.
  pub construct_total :
      rows * columns < size_mod
      → ((i j : ℕ) → i < rows → j < columns → (v : T) × (supplier i j ≡ ok v))
      → (m : Matrix T) × (construct default rows columns supplier ≡ ok m)
        × (m.rows ≡ rows)
        × (m.columns ≡ columns)
        × (length m.cells ≡ rows * columns)
  unfolding construct
  construct_total h all =
      let start = replicate (rows * columns) default in
      let size = length-replicate (rows * columns) default in
      let (filled, p) =
        fill_rows_total supplier columns 0 rows start (omega (arith, size)) (omega (arith, size))
          (λ a b ha hb. all a b (omega arith) hb) in
      let m : Matrix T = record { cells = filled; rows = rows; columns = columns } in
      let built : construct default rows columns supplier ≡ ok m = rw p in
      let (r, c, n) = size-construct m h built in (m, built, r, c, n)
