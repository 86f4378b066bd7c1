-- ===== src/Tsp/Worker/Keys/Distinct.antt =====
-- The keys tell apart what they are of, and of which task, although a task's id may hold dots and
-- end like a suffix.
use mathlib.Core.List.{append_assoc, append_cancel_left, append_cancel_right}
use assfire_suite.Base.{
  ℕ, ◌+◌, ◌*◌, ◌≤◌, ◌==◌, ◌≡◌, refl, sym, ap, ◌∙◌, [], ◌∷◌, ◌++◌, length, length-append, Text,
  codes, if◌then◌else◌, arith,
}
use assfire_suite.Tsp.Worker.Keys.{
  redis_prefix, task_key, attempts_key, lock_key, state_key, status_key, keep_alive_key,
  solution_key,
}

pub data Kind : Type 0 where
  task attempts lock state status keep_alive solution : Kind

abbrev pub key_of : Kind → Text → Text
key_of task = task_key
key_of attempts = attempts_key
key_of lock = lock_key
key_of state = state_key
key_of status = status_key
key_of keep_alive = keep_alive_key
key_of solution = solution_key

abbrev suffix_of : Kind → Text
suffix_of task = codes ".task"
suffix_of attempts = codes ".attempts"
suffix_of lock = codes ".lock"
suffix_of state = codes ".state"
suffix_of status = codes ".status"
suffix_of keep_alive = codes ".keepAlive"
suffix_of solution = codes ".solution"

key_of-eq : (k : Kind) (id : Text) → key_of k id ≡ redis_prefix ++ (id ++ suffix_of k)
unfolding task_key attempts_key lock_key state_key status_key keep_alive_key solution_key
key_of-eq task id = refl
key_of-eq attempts id = refl
key_of-eq lock id = refl
key_of-eq state id = refl
key_of-eq status id = refl
key_of-eq keep_alive id = refl
key_of-eq solution id = refl

-- The last two characters, as one number
last_two : Text → ℕ
last_two [] = 0
last_two (x ∷ []) = x
last_two (x ∷ y ∷ []) = x * 256 + y
last_two (x ∷ y ∷ z ∷ rest) = last_two (y ∷ z ∷ rest)

last_two-cons : (x : ℕ) (xs : Text) → 2 ≤ length xs → last_two (x ∷ xs) ≡ last_two xs
unfolding last_two
last_two-cons x [] h = absurd (omega arith)
last_two-cons x (y ∷ []) h = absurd (omega arith)
last_two-cons x (y ∷ z ∷ rest) h = refl

last_two-append : (xs ys : Text) → 2 ≤ length ys → last_two (xs ++ ys) ≡ last_two ys
last_two-append [] ys h = refl
last_two-append (x ∷ xs) ys h =
    last_two-cons x (xs ++ ys) (omega (arith, length-append xs ys)) ∙ last_two-append xs ys h

-- The kind that ends in these characters
kind_of : ℕ → Kind
kind_of n =
    if n == last_two (suffix_of task)
    then task
    else if n == last_two (suffix_of attempts)
    then attempts
    else if n == last_two (suffix_of lock)
    then lock
    else if n == last_two (suffix_of state)
    then state
    else if n == last_two (suffix_of status)
    then status
    else if n == last_two (suffix_of keep_alive)
    then keep_alive
    else solution

kind_of-suffix : (k : Kind) → kind_of (last_two (suffix_of k)) ≡ k
unfolding kind_of last_two
kind_of-suffix task = refl
kind_of-suffix attempts = refl
kind_of-suffix lock = refl
kind_of-suffix state = refl
kind_of-suffix status = refl
kind_of-suffix keep_alive = refl
kind_of-suffix solution = refl

suffix_length : (k : Kind) → 2 ≤ length (suffix_of k)
suffix_length task = omega arith
suffix_length attempts = omega arith
suffix_length lock = omega arith
suffix_length state = omega arith
suffix_length status = omega arith
suffix_length keep_alive = omega arith
suffix_length solution = omega arith

kind_of-key : (k : Kind) (id : Text) → kind_of (last_two (key_of k id)) ≡ k
kind_of-key k id =
    ap (λ t. kind_of (last_two t))
      (key_of-eq k id ∙ sym (append_assoc redis_prefix id (suffix_of k)))
    ∙ ap kind_of (last_two-append (redis_prefix ++ id) (suffix_of k) (suffix_length k))
    ∙ kind_of-suffix k

-- Equal keys are of the same kind and of the same task, whatever the ids are.
pub key_of-injective : (k l : Kind) (a b : Text) → key_of k a ≡ key_of l b → (k ≡ l) × (a ≡ b)
key_of-injective k l a b e =
    let same : k ≡ l = sym (kind_of-key k a) ∙ ap (λ t. kind_of (last_two t)) e ∙ kind_of-key l b in
    let shown = sym (key_of-eq k a) ∙ e ∙ ap (λ m. key_of m b) (sym same) ∙ key_of-eq k b in
    (same, append_cancel_right a b (suffix_of k) (append_cancel_left redis_prefix _ _ shown))
