-- ===== src/Tsp/TwoOpt/Next.antt =====
-- The states of the search: their bounds, and that each is followed by a later one.
use assfire_suite.Base.{
  ℕ, suc, ◌+◌, ◌-◌, ◌*◌, ◌<◌, ◌≤◌, leb, pos, pos_part, ◌≡◌, refl, sym, ap, ◌∙◌, ◌⊎◌, inl, inr,
  Bool-cases, false, Option, none, some, if◌then◌else◌, arith,
}
use assfire_suite.Tsp.TwoOpt.{State, next_state}

abbrev pub at : ℕ → ℕ → ℕ → ℕ → State
at i j k size = record { i = pos i; j = pos j; k = pos k; size = pos size }

-- What comes behind a state, in natural numbers.
next_at : ℕ → ℕ → ℕ → ℕ → Option State
next_at i j k size =
    if leb size j
    then (if leb size (suc i)
        then (if leb size (suc k) then none else some (at 0 1 (suc k) size))
        else some (at (suc i) (suc (suc i)) k size))
    else some (at i (suc j) k size)

next_state-at : (i j k size : ℕ) → k < size → next_state (at i j k size) ≡ next_at i j k size
unfolding next_state next_at
next_state-at i j k size h = ground arith

-- A state of a search over `n` points: a range of the sequence that is not empty, in one of n rounds.
pub record InRange (n : ℕ) (s : State) : Type 0 where
  pub at_i : ℕ
  pub at_j : ℕ
  pub at_k : ℕ
  pub is_at : s ≡ at at_i at_j at_k n
  pub not_empty : at_i < at_j
  pub within : at_j ≤ n
  pub in_rounds : at_k < n

-- How far a state is from the last one, at most.
unfoldable pub left_at : ℕ → ℕ → ℕ → ℕ → ℕ
left_at i j k n = ((n - k) * n + (n - i)) * suc n + (n - j)

unfoldable pub left : State → ℕ
unfolding left_at
left s = left_at (pos_part s.i) (pos_part s.j) (pos_part s.k) (pos_part s.size)

left_j : (i j k n : ℕ) → j < n → left_at i (suc j) k n < left_at i j k n
unfolding left_at
left_j i j k n h = omega arith

left_i : (i j k n : ℕ) → suc i < n → left_at (suc i) (suc (suc i)) k n < left_at i j k n
unfolding left_at
left_i i j k n h =
    let outer : suc ((n - k) * n + (n - suc i)) ≡ (n - k) * n + (n - i) = omega arith in
    rw (sym outer) (grind arith)

outweighs : (a b c d m : ℕ) → a < b → c < m → a * m + c < b * m + d
outweighs a b c d m h k = grind arith

next_round : (a n i : ℕ) → i < n → a * n + (n - 0) < suc a * n + (n - i)
next_round a n i h = omega arith

left_k : (i j k n : ℕ) → i < n → k < n → left_at 0 1 (suc k) n < left_at i j k n
unfolding left_at
left_k i j k n h l =
    let rounds : suc (n - suc k) ≡ n - k = omega arith in
    outweighs ((n - suc k) * n + (n - 0)) ((n - k) * n + (n - i)) (n - 1) (n - j) (suc n)
      (rw (sym rounds) (next_round (n - suc k) n i h)) (omega arith)

closer : (s a t : State) → s ≡ a → left t < left a → left t < left s
closer s a t e h = rw e h

leb→gt : (a b : ℕ) → leb a b ≡ false → b < a
leb→gt a b h = ground arith

-- A state in range is the last one, or is followed by a state in range that is closer to the last.
pub next_state-InRange :
    (n : ℕ) (s : State)
    → InRange n s
    → (next_state s ≡ none)
      ⊎ ((t : State) × (next_state s ≡ some t) × InRange n t × (left t < left s))
unfolding next_at left
next_state-InRange n s h =
    let i = h.at_i in
    let j = h.at_j in
    let k = h.at_k in
    let next = ap next_state h.is_at ∙ next_state-at i j k n h.in_rounds in
    elim (Bool-cases (leb n j)) [
      | inr e ↦ inr (
        at i (suc j) k n,
        next ∙ rw (e),
        record {
          at_i = i;
          at_j = suc j;
          at_k = k;
          is_at = refl;
          not_empty = omega (arith, h.not_empty);
          within = leb→gt n j e;
          in_rounds = h.in_rounds;
        },
        closer s (at i j k n) (at i (suc j) k n) h.is_at (left_j i j k n (leb→gt n j e)),
      )
      | inl e ↦ elim (Bool-cases (leb n (suc i))) [
        | inr f ↦ inr (
          at (suc i) (suc (suc i)) k n,
          next ∙ rw (e, f),
          record {
            at_i = suc i;
            at_j = suc (suc i);
            at_k = k;
            is_at = refl;
            not_empty = omega arith;
            within = leb→gt n (suc i) f;
            in_rounds = h.in_rounds;
          },
          closer s (at i j k n) (at (suc i) (suc (suc i)) k n) h.is_at
              (left_i i j k n (leb→gt n (suc i) f)),
        )
        | inl f ↦ elim (Bool-cases (leb n (suc k))) [
          | inl g ↦ inl (next ∙ rw (e, f, g))
          | inr g ↦ inr (
            at 0 1 (suc k) n,
            next ∙ rw (e, f, g),
            record {
              at_i = 0;
              at_j = 1;
              at_k = suc k;
              is_at = refl;
              not_empty = omega arith;
              within = omega (arith, h.in_rounds);
              in_rounds = leb→gt n (suc k) g;
            },
            closer s (at i j k n) (at 0 1 (suc k) n) h.is_at
                (left_k i j k n (omega (arith, h.not_empty, h.within)) h.in_rounds),
          )
        ]
      ]
    ]
