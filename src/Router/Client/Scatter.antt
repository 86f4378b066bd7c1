-- ===== src/Router/Client/Scatter.antt =====
-- The loops that write a route into all cells of its pair of locations.
use assfire_suite.Base.{
  ℕ, ◌+◌, ◌*◌, ◌<◌, ◌==◌, ==_iff, pos, ◌≡◌, refl, sym, ap, subst, ◌∙◌, ◌⊎◌, inl, inr, Bool, true,
  false, ◌&&◌, ◌||◌, Bool-cases, List, [], ◌∷◌, All, length, get_elem?, set, length-set,
  get_elem?-set_self, get_elem?-set_ne, some, Result, ok, ◌>>=◌, if◌then◌else◌, if_true, if_false,
  arith,
}
use assfire_suite.Router.Matrix.{Matrix, size_mod, write}
use assfire_suite.Router.Matrix.Fill.{write-eq, cell_below, cell_unique}
use assfire_suite.Router.Client.{assign_row, assign_all, assign}

-- Whether a number is in a list
abbrev pub elem : ℕ → List ℕ → Bool
elem i [] = false
elem i (x ∷ xs) = i == x || elem i xs

pub &&-true : (x y : Bool) → (x && y) ≡ true → (x ≡ true) × (y ≡ true)
&&-true true y h = (refl, h)
&&-true false y h = cc

&&-false : (x y : Bool) → (x && y) ≡ false → x ≡ true → y ≡ true → ⊥
&&-false true y h p q = cc
&&-false false y h p q = cc

cell_test_cases :
    (i j a b : ℕ)
    → ((((i == a) && (j == b)) ≡ true) × (i ≡ a) × (j ≡ b))
      ⊎ ((((i == a) && (j == b)) ≡ false) × (i ≡ a → j ≡ b → ⊥))
cell_test_cases i j a b = elim (Bool-cases ((i == a) && (j == b))) [
  | inl e ↦ let (p, q) = &&-true (i == a) (j == b) e in inl (e, (==_iff i a).0 p, (==_iff j b).0 q)
  | inr e ↦ inr (e, λ p q. &&-false (i == a) (j == b) e ((==_iff i a).1 p) ((==_iff j b).1 q))
]

&&-||-left : (x y z : Bool) → (x && (y || z)) ≡ ((x && y) || (x && z))
&&-||-left true y z = refl
&&-||-left false y z = refl

&&-||-right : (x y z : Bool) → ((x || y) && z) ≡ ((x && z) || (y && z))
&&-||-right true y true = refl
&&-||-right true true false = refl
&&-||-right true false false = refl
&&-||-right false y z = refl

&&-end : (x : Bool) → (x && false) ≡ false
&&-end true = refl
&&-end false = refl

-- A choice after a choice of the same value is the choice of either.
either_choice {ℓ} :
    {A : Type ℓ} (x y : Bool) (v w start middle end : A)
    → middle ≡ (if x then v else start)
    → end ≡ (if y then w else middle)
    → (x ≡ true → v ≡ w)
    → end ≡ (if x || y then w else start)
either_choice true true v w start middle end p q h = q
either_choice true false v w start middle end p q h = q ∙ p ∙ h refl
either_choice false true v w start middle end p q h = q
either_choice false false v w start middle end p q h = q ∙ p

module _ {T : Type 0} (rows columns : ℕ) where
  -- A matrix of this size
  pub record IsSized (m : Matrix T) : Type 0 where
    pub has_columns : m.columns ≡ columns
    pub has_cells : length m.cells ≡ rows * columns

  -- m' is m with `value` at the cells that `chosen` names.
  abbrev pub Updated : (ℕ → ℕ → Bool) → (ℕ → ℕ → T) → Matrix T → Matrix T → Type 0
  Updated chosen value m m' =
      (i j : ℕ)
      → i < rows
      → j < columns
      → get_elem? m'.cells (columns * i + j)
        ≡ (if chosen i j then some (value i j) else get_elem? m.cells (columns * i + j))

  Updated-then :
      (first second both : ℕ → ℕ → Bool) (v w : ℕ → ℕ → T) (m m1 m2 : Matrix T)
      → Updated first v m m1
      → Updated second w m1 m2
      → ((i j : ℕ) → first i j ≡ true → v i j ≡ w i j)
      → ((i j : ℕ) → both i j ≡ (first i j || second i j))
      → Updated both w m m2
  Updated-then first second both v w m m1 m2 p q same same_test i j hi hj = rw (same_test i j) (
      either_choice (first i j) (second i j) (some (v i j)) (some (w i j))
        (get_elem? m.cells (columns * i + j)) (get_elem? m1.cells (columns * i + j))
        (get_elem? m2.cells (columns * i + j)) (p i j hi hj) (q i j hi hj)
        (λ e. ap (λ (x : T). some x) (same i j e)))

module _ {T : Type 0} (rows columns : ℕ) (small : rows * columns < size_mod) where
  assign-eq :
      (m : Matrix T) (a b : ℕ) (v : T)
      → IsSized rows columns m
      → a < rows
      → b < columns
      → assign m a b v ≡ ok (record m { cells = set m.cells (columns * a + b) v })
  assign-eq m a b v sized ha hb =
      let low = cell_below rows columns a b ha hb in
      let written : write columns (pos a) (pos b) v m.cells ≡ ok (set m.cells (columns * a + b) v) =
        write-eq (λ i j. ok v) columns a b v m.cells hb (omega (arith, sized.has_cells))
          (omega (arith, sized.has_cells)) in
      ap (λ c. write c (pos a) (pos b) v m.cells >>= λ cells. ok (record m { cells = cells }))
        sized.has_columns
      ∙ ap (λ (r : Result (List T)). r >>= λ cells. ok (record m { cells = cells })) written

  assign_lem :
      (m : Matrix T) (a b : ℕ) (v : T)
      → IsSized rows columns m
      → a < rows
      → b < columns
      → (m' : Matrix T) × (assign m a b v ≡ ok m')
        × IsSized rows columns m'
        × Updated rows columns (λ i j. (i == a) && (j == b)) (λ i j. v) m m'
  assign_lem m a b v sized ha hb = (
    record m { cells = set m.cells (columns * a + b) v },
    assign-eq m a b v sized ha hb,
    record {
      has_columns = sized.has_columns;
      has_cells = length-set m.cells (columns * a + b) v ∙ sized.has_cells;
    },
    λ i j hi hj. elim (cell_test_cases i j a b) [
      | inl (e, p, q) ↦
          subst
            (λ (k : ℕ).
              get_elem? (set m.cells (columns * a + b) v) k
              ≡ (if (i == a) && (j == b) then some v else get_elem? m.cells k))
            (ap (λ (x : ℕ). columns * x + b) (sym p) ∙ ap (λ (y : ℕ). columns * i + y) (sym q))
            (get_elem?-set_self m.cells (columns * a + b) v
                (omega (arith, sized.has_cells, cell_below rows columns a b ha hb))
              ∙ sym (if_true ((i == a) && (j == b)) _ _ e))
      | inr (e, n) ↦
          get_elem?-set_ne m.cells (columns * a + b) (columns * i + j) v
            (λ same. let u = cell_unique columns a b i j hb hj (sym same) in n u.0 u.1)
          ∙ sym (if_false ((i == a) && (j == b)) _ _ e)
    ],
  )

  -- All cells of row a that are in the range of the destinations
  assign_row_lem :
      (value : ℕ → ℕ → T) (a : ℕ) (js : List ℕ) (m : Matrix T)
      → IsSized rows columns m
      → a < rows
      → All (λ j. j < columns) js
      → (m' : Matrix T) × (assign_row value a js m ≡ ok m')
        × IsSized rows columns m'
        × Updated rows columns (λ i j. (i == a) && elem j js) value m m'
  unfolding assign_row
  assign_row_lem value a [] m sized ha h =
      (m, refl, sized, λ i j hi hj. sym (if_false ((i == a) && false) _ _ (&&-end (i == a))))
  assign_row_lem value a (b ∷ js) m sized ha h =
      let (m1, p, s1, u) = assign_lem m a b (value a b) sized ha h.0 in
      let (m2, q, s2, w) = assign_row_lem value a js m1 s1 ha h.1 in
      (
        m2,
        rw p q,
        s2,
        Updated-then rows columns (λ i j. (i == a) && (j == b)) (λ i j. (i == a) && elem j js)
            (λ i j. (i == a) && elem j (b ∷ js)) (λ i j. value a b) value m m1 m2 u w
            (λ i j e.
              let (x, y) = &&-true (i == a) (j == b) e in cc ((==_iff i a).0 x, (==_iff j b).0 y))
            (λ i j. &&-||-left (i == a) (j == b) (elem j js)),
      )

  -- All cells of the two ranges
  pub assign_all_lem :
      (value : ℕ → ℕ → T) (is js : List ℕ) (m : Matrix T)
      → IsSized rows columns m
      → All (λ i. i < rows) is
      → All (λ j. j < columns) js
      → (m' : Matrix T) × (assign_all value is js m ≡ ok m')
        × IsSized rows columns m'
        × Updated rows columns (λ i j. elem i is && elem j js) value m m'
  unfolding assign_all
  assign_all_lem value [] js m sized g h = (m, refl, sized, λ i j hi hj. refl)
  assign_all_lem value (a ∷ is) js m sized g h =
      let (m1, p, s1, u) = assign_row_lem value a js m sized g.0 h in
      let (m2, q, s2, w) = assign_all_lem value is js m1 s1 g.1 h in
      (
        m2,
        rw p q,
        s2,
        Updated-then rows columns (λ i j. (i == a) && elem j js) (λ i j. elem i is && elem j js)
            (λ i j. elem i (a ∷ is) && elem j js) value value m m1 m2 u w (λ i j e. refl)
            (λ i j. &&-||-right (i == a) (elem i is) (elem j js)),
      )
