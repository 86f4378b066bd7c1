-- ===== src/Router/Client/Cells.antt =====
-- What the client's matrices hold behind the replies of the server.
use assfire_suite.Base.{
  ℕ, zero, suc, ◌+◌, ◌*◌, ◌<◌, ◌≤◌, ◌==◌, ==_iff, ◌≡◌, ◌≢◌, refl, sym, ap, subst, ◌∙◌, ◌⊎◌, inl,
  inr, Bool, true, false, ◌&&◌, ◌||◌, Bool-cases, List, [], ◌∷◌, ◌++◌, All, length, get_elem?,
  get_elem?-lt-length, Option, some, ok, Text, text_eq, text_eq_refl, text_eq→eq, if◌then◌else◌,
  if_true, if_false, arith,
}
use assfire_suite.Concepts.Location.{Location}
use assfire_suite.Concepts.Translators.{location_from_proto}
use assfire_suite.Router.LocationKey.{build_location_key, build_location_key-injective}
use assfire_suite.Router.Matrix.{Matrix, size_mod}
use assfire_suite.Router.Translators.{ProtoRouteInfo}
use assfire_suite.Router.Client.{equal_range, mapping_of, assign_all, scatter}
use assfire_suite.Router.Client.Scatter.{elem, IsSized, &&-true, assign_all_lem}

-- The numbers of a range are those of the locations.
equal_range-All :
    (bound n : ℕ) (k : Text) (ls : List Location)
    → n + length ls ≤ bound
    → All (λ i. i < bound) (equal_range k (mapping_of n ls))
unfolding equal_range mapping_of
equal_range-All bound n k [] h = tt
equal_range-All bound n k (l ∷ ls) h =
    let rest = equal_range-All bound (suc n) k ls (omega arith) in
    elim (Bool-cases (text_eq (build_location_key l) k)) [
      | inl e ↦ rw e (omega arith, rest)
      | inr e ↦ rw e rest
    ]

==-ne : (i j : ℕ) → i ≢ j → (i == j) ≡ false
==-ne i j n = ground arith

equal_range_later :
    (i n : ℕ) (k : Text) (ls : List Location)
    → i < n
    → elem i (equal_range k (mapping_of n ls)) ≡ false
unfolding equal_range mapping_of
equal_range_later i n k [] h = refl
equal_range_later i n k (l ∷ ls) h =
    let rest = equal_range_later i (suc n) k ls (omega arith) in
    elim (Bool-cases (text_eq (build_location_key l) k)) [
      | inl e ↦ rw (e, ==-ne i n (λ p. omega arith)) rest
      | inr e ↦ rw e rest
    ]

-- A number is in the range of a key if the location with this number has that key.
equal_range_lem :
    (i n : ℕ) (k : Text) (ls : List Location) (l : Location)
    → get_elem? ls i ≡ some l
    → elem (n + i) (equal_range k (mapping_of n ls)) ≡ text_eq (build_location_key l) k
unfolding equal_range mapping_of
equal_range_lem i n k [] l h = cc
equal_range_lem zero n k (x ∷ ls) l h =
    let same : x ≡ l = cc in
    rw (sym same) (elim (Bool-cases (text_eq (build_location_key x) k)) [
      | inl e ↦ rw e (
          ap (λ (b : Bool). b || elem (n + 0) (equal_range k (mapping_of (suc n) ls)))
            ((==_iff (n + 0) n).1 (omega arith)))
      | inr e ↦ rw e (equal_range_later (n + 0) (suc n) k ls (omega arith))
    ])
equal_range_lem (suc i) n k (x ∷ ls) l h =
    let shift : n + suc i ≡ suc n + i = omega arith in
    let rest =
      subst
        (λ (m : ℕ).
          elem m (equal_range k (mapping_of (suc n) ls)) ≡ text_eq (build_location_key l) k)
        (sym shift) (equal_range_lem i (suc n) k ls l h) in
    elim (Bool-cases (text_eq (build_location_key x) k)) [
      | inl e ↦ rw (e, ==-ne (n + suc i) n (λ p. omega arith)) rest
      | inr e ↦ rw e rest
    ]

equal_range_first :
    (i : ℕ) (k : Text) (ls : List Location) (l : Location)
    → get_elem? ls i ≡ some l
    → elem i (equal_range k (mapping_of 0 ls)) ≡ text_eq (build_location_key l) k
equal_range_first i k ls l h =
    subst (λ (m : ℕ). elem m (equal_range k (mapping_of 0 ls)) ≡ text_eq (build_location_key l) k)
      (omega arith) (equal_range_lem i 0 k ls l h)

-- A route from o to d
pub record Joins (o d : Location) (r : ProtoRouteInfo) : Type 0 where
  pub same_origin : location_from_proto r.origin ≡ o
  pub same_destination : location_from_proto r.destination ≡ d

abbrev joins_test : Location → Location → ProtoRouteInfo → Bool
joins_test o d r =
    text_eq (build_location_key o) (build_location_key (location_from_proto r.origin))
    && text_eq (build_location_key d) (build_location_key (location_from_proto r.destination))

Joins→test : (o d : Location) (r : ProtoRouteInfo) → Joins o d r → joins_test o d r ≡ true
Joins→test o d r h =
    rw (h.same_origin, h.same_destination, text_eq_refl (build_location_key o))
      (text_eq_refl (build_location_key d))

test→Joins : (o d : Location) (r : ProtoRouteInfo) → joins_test o d r ≡ true → Joins o d r
test→Joins o d r e =
    let (p, q) = &&-true _ _ e in
    record {
      same_origin = sym (build_location_key-injective _ _ (text_eq→eq _ _ p));
      same_destination = sym (build_location_key-injective _ _ (text_eq→eq _ _ q));
    }

-- r is the last route from o to d.
pub record IsLast (o d : Location) (rs : List ProtoRouteInfo) (r : ProtoRouteInfo) : Type 0 where
  pub before : List ProtoRouteInfo
  pub after : List ProtoRouteInfo
  pub split : rs ≡ before ++ r ∷ after
  pub joins : Joins o d r
  pub is_last : All (λ q. Joins o d q → ⊥) after

IsLast-∷ :
    (o d : Location) (r q : ProtoRouteInfo) (rs : List ProtoRouteInfo)
    → IsLast o d rs q
    → IsLast o d (r ∷ rs) q
IsLast-∷ o d r q rs h = record {
  before = r ∷ h.before;
  after = h.after;
  split = ap (λ (t : List ProtoRouteInfo). r ∷ t) h.split;
  joins = h.joins;
  is_last = h.is_last;
}

module _ {T : Type 0} (value : ProtoRouteInfo → ℕ → ℕ → T) (origins destinations : List Location)
    (small : length origins * length destinations < size_mod) where
  -- A route goes into the cells of the pairs that it joins.
  scatter_one :
      (r : ProtoRouteInfo) (m : Matrix T)
      → IsSized (length origins) (length destinations) m
      → (m' : Matrix T) × (assign_all
            (value r)
            (equal_range (build_location_key (location_from_proto r.origin)) (mapping_of 0 origins))
            (equal_range
              (build_location_key (location_from_proto r.destination))
              (mapping_of 0 destinations))
            m
          ≡ ok m')
        × IsSized (length origins) (length destinations) m'
        × ((i j : ℕ) (o d : Location)
            → get_elem? origins i ≡ some o
            → get_elem? destinations j ≡ some d
            → get_elem? m'.cells (length destinations * i + j) ≡ (
                if joins_test o d r
                then some (value r i j)
                else get_elem? m.cells (length destinations * i + j)))
  scatter_one r m sized =
      let (m', p, s, u) =
        assign_all_lem (length origins) (length destinations) small (value r)
          (equal_range (build_location_key (location_from_proto r.origin)) (mapping_of 0 origins))
          (equal_range (build_location_key (location_from_proto r.destination))
            (mapping_of 0 destinations))
          m sized (equal_range-All (length origins) 0 _ origins (omega arith))
          (equal_range-All (length destinations) 0 _ destinations (omega arith)) in
      (
        m',
        p,
        s,
        λ i j o d ho hd.
            let first =
              equal_range_first i (build_location_key (location_from_proto r.origin)) origins o
                ho in
            let second =
              equal_range_first j (build_location_key (location_from_proto r.destination))
                destinations d hd in
            let w =
              u i j (get_elem?-lt-length origins i o ho)
                (get_elem?-lt-length destinations j d hd) in
            rw (sym first, sym second) w,
      )

  -- A cell of the matrix behind the loop, with what it was before
  abbrev pub CellOf :
      List ProtoRouteInfo → (i j : ℕ) → Location → Location → Option T → Option T → Type 0
  CellOf rs i j o d old new =
      ((r : ProtoRouteInfo) × IsLast o d rs r × (new ≡ some (value r i j)))
      ⊎ (All (λ r. Joins o d r → ⊥) rs × (new ≡ old))

  CellOf-∷ :
      (r : ProtoRouteInfo) (rs : List ProtoRouteInfo) (i j : ℕ) (o d : Location)
      (old middle new : Option T)
      → middle ≡ (if joins_test o d r then some (value r i j) else old)
      → CellOf rs i j o d middle new
      → CellOf (r ∷ rs) i j o d old new
  CellOf-∷ r rs i j o d old middle new e (inl (q, h, p)) = inl (q, IsLast-∷ o d r q rs h, p)
  CellOf-∷ r rs i j o d old middle new e (inr (none, p)) = elim (Bool-cases (joins_test o d r)) [
    | inl t ↦ inl (
      r,
      record { before = []; after = rs; split = refl; joins = test→Joins o d r t; is_last = none },
      p ∙ e ∙ if_true _ _ _ t,
    )
    | inr f ↦ inr ((λ h. cc (Joins→test o d r h, f), none), p ∙ e ∙ if_false _ _ _ f)
  ]

  pub scatter_lem :
      (rs : List ProtoRouteInfo) (m : Matrix T)
      → IsSized (length origins) (length destinations) m
      → (m' : Matrix T) × (scatter value (mapping_of 0 origins) (mapping_of 0 destinations) rs m
          ≡ ok m')
        × IsSized (length origins) (length destinations) m'
        × ((i j : ℕ) (o d : Location)
            → get_elem? origins i ≡ some o
            → get_elem? destinations j ≡ some d
            → CellOf rs i j o d
                (get_elem? m.cells (length destinations * i + j))
                (get_elem? m'.cells (length destinations * i + j)))
  unfolding scatter
  scatter_lem [] m sized = (m, refl, sized, λ i j o d ho hd. inr (tt, refl))
  scatter_lem (r ∷ rs) m sized =
      let (m1, p, s1, u) = scatter_one r m sized in
      let (m2, q, s2, w) = scatter_lem rs m1 s1 in
      (
        m2,
        rw p q,
        s2,
        λ i j o d ho hd.
            CellOf-∷ r rs i j o d (get_elem? m.cells (length destinations * i + j))
              (get_elem? m1.cells (length destinations * i + j))
              (get_elem? m2.cells (length destinations * i + j)) (u i j o d ho hd)
              (w i j o d ho hd),
      )
