-- ===== src/Runner/RoundRobin/Order.antt =====
-- The order in which `roundrobin` yields, against a description by rounds.
use Prim.Native.Nat.{max}
use reckon_k8s.Prelude.{
  ℕ, zero, suc, ◌+◌, ◌≤◌, ◌≡◌, refl, ap, List, [], ◌∷◌, ◌++◌, Option, some, length, arith,
  append-nil, append_assoc, length-append, take-length_append,
}
use reckon_k8s.Runner.RoundRobin.{yield_then, turns, calls, roundrobin}

module _ {ℓ} {A : Type ℓ} where
  -- The first items of the iterables that are not exhausted.
  abbrev pub heads : List (List A) → List A
  heads [] = []
  heads ([] ∷ its) = heads its
  heads ((x ∷ xs) ∷ its) = x ∷ heads its

  -- What is left of them.
  abbrev pub tails : List (List A) → List (List A)
  tails [] = []
  tails ([] ∷ its) = tails its
  tails ((x ∷ xs) ∷ its) = xs ∷ tails its

  -- A number of rounds, each of one item from every iterable that still has one.
  pub columns : ℕ → List (List A) → List A
  columns zero its = []
  columns (suc n) its = heads its ++ columns n (tails its)

  abbrev yield_all : List A → Option (List A) → Option (List A)
  yield_all [] o = o
  yield_all (x ∷ xs) o = yield_then x (yield_all xs o)

  yield_all-some : (xs ys : List A) → yield_all xs (some ys) ≡ some (xs ++ ys)
  yield_all-some [] ys = refl
  yield_all-some (x ∷ xs) ys = ap (yield_then x) (yield_all-some xs ys)

  -- One round, with the iterators of `later` already served.
  turns_round :
      (its later : List (List A)) (before after active left : ℕ)
      → before ≡ length its + after
      → active ≡ length its + length later
      → left ≡ length later + length (tails its)
      → turns before active (its ++ later)
        ≡ yield_all (heads its) (turns after left (later ++ tails its))
  unfolding turns
  turns_round [] later before after active left e f g =
      let same : before ≡ after = omega arith in
      let full : active ≡ left = omega arith in rw (same, full, append-nil) refl
  turns_round (xs ∷ its) later zero after active left e f g = absurd (omega arith)
  turns_round (xs ∷ its) later (suc before) after zero left e f g = absurd (omega arith)
  turns_round ([] ∷ its) later (suc before) after (suc active) left e f g =
      let fits : active ≡ length (its ++ later) = omega (arith, length-append its later) in
      rw (fits, take-length_append (its ++ later) ([] ∷ []))
        (turns_round its later before after _ left (omega arith)
          (omega (arith, length-append its later)) g)
  turns_round ((x ∷ xs) ∷ its) later (suc before) after (suc active) left e f g =
      let l = length-append later (xs ∷ []) in
      rw append_assoc (
        ap (yield_then x) (
          rw append_assoc at (
            turns_round its (later ++ xs ∷ []) before after (suc active) left (omega arith)
              (omega (arith, l)) (omega (arith, l)))))

  -- The calls that a round makes are made no more.
  calls-tails : (its : List (List A)) → calls its ≡ length its + calls (tails its)
  calls-tails [] = omega arith
  calls-tails ([] ∷ its) = omega (arith, calls-tails its)
  calls-tails ((x ∷ xs) ∷ its) = omega (arith, calls-tails its)

  -- The length of the longest iterable.
  abbrev pub longest : List (List A) → ℕ
  longest [] = 0
  longest (xs ∷ its) = max (length xs) (longest its)

  longest-tails-le : (k : ℕ) (its : List (List A)) → longest its ≤ suc k → longest (tails its) ≤ k
  longest-tails-le k [] h = omega arith
  longest-tails-le k ([] ∷ its) h = longest-tails-le k its (omega arith)
  longest-tails-le k ((x ∷ xs) ∷ its) h = omega (arith, longest-tails-le k its (omega arith))

  exhausted : (its : List (List A)) → longest its ≤ 0 → (heads its ≡ []) × (tails its ≡ [])
  exhausted [] h = (refl, refl)
  exhausted ([] ∷ its) h = exhausted its (omega arith)
  exhausted ((x ∷ xs) ∷ its) h = absurd (omega arith)

  turns_first_round :
      (its : List (List A))
      → turns (calls its) (length its) its
        ≡ yield_all (heads its) (turns (calls (tails its)) (length (tails its)) (tails its))
  turns_first_round its = rw append-nil at (
      turns_round its [] (calls its) (calls (tails its)) (length its) (length (tails its))
        (calls-tails its) (omega arith) (omega arith))

  turns-columns :
      (k : ℕ) (its : List (List A))
      → longest its ≤ k
      → turns (calls its) (length its) its ≡ some (columns k its)
  unfolding turns columns
  turns-columns zero its h =
      let (no_heads, no_tails) = exhausted its h in
      rw (turns_first_round its, no_heads, no_tails) refl
  turns-columns (suc k) its h =
      rw (turns_first_round its, turns-columns k (tails its) (longest-tails-le k its h))
        (yield_all-some (heads its) _)

  -- `roundrobin` ends for every list of iterables, and yields them by rounds: in each round one item
  -- of every iterable that still has one, in the order of the iterables.
  pub roundrobin-columns :
      (iterables : List (List A))
      → roundrobin iterables ≡ some (columns (longest iterables) iterables)
  unfolding roundrobin
  roundrobin-columns its = turns-columns (longest its) its (omega arith)

  -- One item of each list in turn, from the first list.
  abbrev pub alternate : List A → List A → List A
  alternate [] ys = []
  alternate (x ∷ xs) [] = x ∷ xs
  alternate (x ∷ xs) (y ∷ ys) = x ∷ y ∷ alternate xs ys

  columns-none : (k : ℕ) → columns k [] ≡ []
  unfolding columns
  columns-none zero = refl
  columns-none (suc k) = columns-none k

  columns-ended : (k : ℕ) → columns k ([] ∷ []) ≡ []
  unfolding columns
  columns-ended zero = refl
  columns-ended (suc k) = columns-none k

  -- With one item more in the first of two lists the rounds alternate between them.
  pub columns-alternate :
      (k : ℕ) (xs ys : List A)
      → length xs ≡ length ys + 1
      → length xs ≤ k
      → columns k (xs ∷ ys ∷ []) ≡ alternate xs ys
  unfolding columns
  columns-alternate k [] ys e h = absurd (omega arith)
  columns-alternate zero (x ∷ xs) ys e h = absurd (omega arith)
  columns-alternate (suc k) (x ∷ []) [] e h = ap (λ l. x ∷ l) (columns-ended k)
  columns-alternate (suc k) (x ∷ x' ∷ xs) [] e h = absurd (omega arith)
  columns-alternate (suc k) (x ∷ xs) (y ∷ ys) e h =
      ap (λ l. x ∷ y ∷ l) (columns-alternate k xs ys (omega arith) (omega arith))
