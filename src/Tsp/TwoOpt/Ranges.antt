-- ===== src/Tsp/TwoOpt/Ranges.antt =====
-- Reversing a range of a sequence: where it is defined, that it permutes, and that it is its own
-- inverse, on which the algorithm relies to take a rejected move back.
use mathlib.Core.List.{append_assoc, Perm, reverse-reverse, reverse_perm}
use mathlib.Core.List.Perm
use assfire_suite.Base.{
  ℕ, ◌+◌, ◌-◌, ◌≤◌, le→leb, ℤ, pos, ◌≡◌, sym, ap, ◌∙◌, List, ◌++◌, length, take, drop, reverse,
  take-append-drop, length-take, length-drop, take-append, drop-append, length-append,
  length-reverse, arith,
}
use assfire_suite.Tsp.Outcome.{done}
use assfire_suite.Tsp.TwoOpt.{reverse_from, reverse_range}

-- The three parts of a sequence.
reverse_from-parts :
    (a m b : List ℤ) (i j : ℕ)
    → length a ≡ i
    → length a + length m ≡ j
    → reverse_from i j (a ++ (m ++ b)) ≡ a ++ (reverse m ++ b)
reverse_from-parts a m b i j p q =
    let whole = append_assoc a m b in
    let back : drop j (a ++ (m ++ b)) ≡ b =
      ap (drop j) (sym whole) ∙ drop-append j (a ++ m) b (length-append a m ∙ q) in
    rw (take-append i a (m ++ b) p, drop-append i a (m ++ b) p, back)
      (rw (take-append (j - i) m b (omega arith)) (append_assoc a (reverse m) b))

split :
    (xs : List ℤ) (i j : ℕ)
    → i ≤ j
    → j ≤ length xs
    → (a : List ℤ) × (m : List ℤ) × (b : List ℤ) × (xs ≡ a ++ (m ++ b))
      × (length a ≡ i)
      × (length a + length m ≡ j)
split xs i j h k =
    let a = take i xs in
    let rest = drop i xs in
    let la = length-take i xs (omega arith) in
    let lr = length-drop i xs (omega arith) in
    (
      a,
      take (j - i) rest,
      drop (j - i) rest,
      sym (ap (λ l. a ++ l) (take-append-drop (j - i) rest) ∙ take-append-drop i xs),
      la,
      omega (arith, la, length-take (j - i) rest (omega (arith, lr))),
    )

-- Reversing a range of a sequence is defined where the range lies within it, and then permutes the
-- sequence, and reversing the same range of the outcome gives the sequence again.
pub reverse_range-within :
    (i j : ℕ) (xs : List ℤ)
    → i ≤ j
    → j ≤ length xs
    → (ys : List ℤ) × (reverse_range (pos i) (pos j) xs ≡ done ys)
      × Perm ys xs
      × (length ys ≡ length xs)
      × (reverse_range (pos i) (pos j) ys ≡ done xs)
unfolding reverse_range
reverse_range-within i j xs h k =
    let (a, m, b, e, p, q) = split xs i j h k in
    let ys = a ++ (reverse m ++ b) in
    let lm = length-reverse m in
    let size : length ys ≡ length xs = omega (
      arith,
      lm,
      ap length e,
      length-append a (reverse m ++ b),
      length-append (reverse m) b,
      length-append a (m ++ b),
      length-append m b,
    ) in
    let there = reverse_from-parts a m b i j p q in
    let back = reverse_from-parts a (reverse m) b i j p (omega (arith, lm)) in
    (
      ys,
      rw (le→leb i j h, le→leb j (length xs) k)
          (ap (λ l. done (reverse_from i j l)) e ∙ ap done there),
      rw e (Perm.append_left a (Perm.append_right b (reverse_perm m))),
      size,
      rw (le→leb i j h, le→leb j (length ys) (omega (arith, size)))
          (ap done (back ∙ ap (λ l. a ++ (l ++ b)) (reverse-reverse m) ∙ sym e)),
    )
