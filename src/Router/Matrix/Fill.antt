-- ===== src/Router/Matrix/Fill.antt =====
-- The matrix that the constructor builds holds at (i, j) what the supplier gave for (i, j).
use assfire_suite.Base.{
  ℕ, zero, suc, ◌+◌, ◌*◌, ◌%◌, ◌<◌, ◌≤◌, pos, ◌≡◌, refl, ap, sym, ◌∙◌, List, length, get_elem?, set,
  some, Result, ok, >>=-eq-ok, length-set, get_elem?-set_self, get_elem?-set_ne, lt→ltb, arith,
}
use native.Mathlib.Decide.{ℕ_discrete, dec_lt}
use assfire_suite.Router.Matrix.{size_mod, index, write, fill_row, fill_rows}

row_bound : (columns i j : ℕ) → j < columns → i ≤ columns * i + j
row_bound columns i j h = grind arith

-- The index of a cell, where it does not wrap.
pub index-eq :
    (columns i j : ℕ)
    → j < columns
    → columns * i + j < size_mod
    → index columns (pos i) (pos j) ≡ columns * i + j
unfolding index
index-eq columns i j h k =
    let i_small : i % size_mod ≡ i = omega (arith, row_bound columns i j h) in
    let j_small : j % size_mod ≡ j = omega arith in rw (i_small, j_small) (omega arith)

next_row : (columns a i : ℕ) → a < i → columns * a + columns ≤ columns * i
next_row columns a i h = grind arith

pub cell_below : (rows columns i j : ℕ) → i < rows → j < columns → columns * i + j < columns * rows
cell_below rows columns i j h k = omega (arith, next_row columns i rows h)

-- Two cells with one index are one cell.
pub cell_unique :
    (columns i j a b : ℕ)
    → j < columns
    → b < columns
    → columns * a + b ≡ columns * i + j
    → (a ≡ i) × (b ≡ j)
cell_unique columns i j a b h k e = elim (dec_lt a i) [
  | yes p ↦ absurd (omega (arith, next_row columns a i p))
  | no p ↦ elim (dec_lt i a) [
    | yes q ↦ absurd (omega (arith, next_row columns i a q))
    | no q ↦
        let same : a ≡ i = omega arith in (same, omega (arith, ap (λ (t : ℕ). columns * t) same))
  ]
]

module _ {ℓ} {T : Type ℓ} (supplier : ℕ → ℕ → Result T) (columns : ℕ) where
  -- The first `p` cells hold the supplier's values.
  abbrev pub Filled : ℕ → List T → Type ℓ
  Filled p cells =
      (a b : ℕ)
      → b < columns
      → columns * a + b < p
      → (v : T) × (supplier a b ≡ ok v) × (get_elem? cells (columns * a + b) ≡ some v)

  Filled-set :
      (i j : ℕ) (v : T) (cells : List T)
      → j < columns
      → columns * i + j < length cells
      → supplier i j ≡ ok v
      → Filled (columns * i + j) cells
      → Filled (columns * i + suc j) (set cells (columns * i + j) v)
  Filled-set i j v cells h k e f a b hb lt = elim (ℕ_discrete (columns * i + j) (columns * a + b)) [
    | yes q ↦
        let u = cell_unique columns i j a b h hb (sym q) in
        (v, rw (u.0, u.1) e, rw (sym q) (get_elem?-set_self cells (columns * i + j) v k))
    | no q ↦
        let (w, x, y) = f a b hb (omega arith) in
        (w, x, get_elem?-set_ne cells (columns * i + j) (columns * a + b) v q ∙ y)
  ]

  pub write-eq :
      (i j : ℕ) (v : T) (cells : List T)
      → j < columns
      → columns * i + j < length cells
      → length cells < size_mod
      → write columns (pos i) (pos j) v cells ≡ ok (set cells (columns * i + j) v)
  unfolding write
  write-eq i j v cells h k m = rw (index-eq columns i j h (omega arith), lt→ltb _ _ k)

  fill_row-Filled :
      (i j left : ℕ) (cells filled : List T)
      → j + left ≡ columns
      → columns * i + columns ≤ length cells
      → length cells < size_mod
      → fill_row supplier columns i j left cells ≡ ok filled
      → Filled (columns * i + j) cells
      → Filled (columns * i + columns) filled × (length filled ≡ length cells)
  unfolding fill_row
  fill_row-Filled i j zero cells filled s k m e f =
      let same : cells ≡ filled = cc in
      let full : j ≡ columns = omega arith in
      rw (sym same) (λ a b hb lt. f a b hb (omega arith), refl)
  fill_row-Filled i j (suc left) cells filled s k m e f =
      let (v, p, q) = >>=-eq-ok (supplier i j) _ e in
      let w = write-eq i j v cells (omega arith) (omega arith) m in
      let r = rw w at q in
      let (x, y) =
        fill_row-Filled i (suc j) left (set cells (columns * i + j) v) filled (omega arith)
          (omega (arith, length-set cells (columns * i + j) v))
          (omega (arith, length-set cells (columns * i + j) v)) r
          (Filled-set i j v cells (omega arith) (omega arith) p f) in
      (x, y ∙ length-set cells (columns * i + j) v)

  pub fill_rows-Filled :
      (i left : ℕ) (cells filled : List T)
      → columns * i + columns * left ≤ length cells
      → length cells < size_mod
      → fill_rows supplier columns i left cells ≡ ok filled
      → Filled (columns * i) cells
      → Filled (columns * (i + left)) filled × (length filled ≡ length cells)
  unfolding fill_rows
  fill_rows-Filled i zero cells filled k m e f =
      let same : cells ≡ filled = cc in
      let all : columns * (i + 0) ≡ columns * i = grind arith in rw (sym same, all) (f, refl)
  fill_rows-Filled i (suc left) cells filled k m e f =
      let (row, p, q) = >>=-eq-ok (fill_row supplier columns i 0 columns cells) _ e in
      let (x, y) =
        fill_row-Filled i 0 columns cells row (omega arith) (omega arith) m p
          (λ a b hb lt. f a b hb (omega arith)) in
      let next : columns * suc i ≡ columns * i + columns = omega arith in
      let all : columns * (i + suc left) ≡ columns * (suc i + left) = omega arith in
      let (z, w) =
        fill_rows-Filled (suc i) left row filled (omega arith) (omega arith) q
          (λ a b hb lt. x a b hb (omega arith)) in
      (λ a b hb lt. z a b hb (omega arith), w ∙ y)

  -- A supplier that answers on the whole of a row lets the loop over it return.
  fill_row_total :
      (i j left : ℕ) (cells : List T)
      → j + left ≡ columns
      → columns * i + columns ≤ length cells
      → length cells < size_mod
      → ((b : ℕ) → b < columns → (v : T) × (supplier i b ≡ ok v))
      → (filled : List T) × (fill_row supplier columns i j left cells ≡ ok filled)
        × (length filled ≡ length cells)
  unfolding fill_row
  fill_row_total i j zero cells s k m h = (cells, refl, refl)
  fill_row_total i j (suc left) cells s k m h =
      let (v, p) = h j (omega arith) in
      let w = write-eq i j v cells (omega arith) (omega arith) m in
      let (filled, q, r) =
        fill_row_total i (suc j) left (set cells (columns * i + j) v) (omega arith)
          (omega (arith, length-set cells (columns * i + j) v))
          (omega (arith, length-set cells (columns * i + j) v)) h in
      (filled, rw (p, fill_row) (rw w q), r ∙ length-set cells (columns * i + j) v)

  pub fill_rows_total :
      (i left : ℕ) (cells : List T)
      → columns * i + columns * left ≤ length cells
      → length cells < size_mod
      → ((a b : ℕ) → a < i + left → b < columns → (v : T) × (supplier a b ≡ ok v))
      → (filled : List T) × (fill_rows supplier columns i left cells ≡ ok filled)
  unfolding fill_rows
  fill_rows_total i zero cells k m h = (cells, refl)
  fill_rows_total i (suc left) cells k m h =
      let (row, p, q) =
        fill_row_total i 0 columns cells (omega arith) (omega arith) m
          (λ b hb. h i b (omega arith) hb) in
      let (filled, r) =
        fill_rows_total (suc i) left row (omega arith) (omega arith)
          (λ a b ha hb. h a b (omega arith) hb) in
      (filled, rw (p, fill_rows) r)
