-- ===== src/Runner/Collate/Gathered.antt =====
-- What `collate` of reckon/client_runner.py comes to.
use reckon_k8s.Prelude.{
  ℕ, zero, suc, ◌<◌, ◌≡◌, refl, sym, ◌∙◌, ◌⊎◌, inl, inr, List, [], ◌∷◌, ◌++◌, Option, none, some,
  arith, append_assoc, append-nil, Bool-cases, range_from, if◌then◌else◌,
}
use reckon_k8s.Outcome.{ok, raise, Exception}
use reckon_k8s.Types.{Message, Response}
use reckon_k8s.Runner.Collate.{Wait, returns, fails, waits, Arrival, unregister, collate}
use reckon_k8s.Runner.Collate.Heard.{
  is_heard, finishers, unfinished, unfinished-cons_le, unfinished-known, is_heard-known,
  is_heard-done, Agrees, Agrees-unregister, heard-new, is_among-range_from, unfinished-none,
}

-- The results that clients send before they finish.
abbrev pub responses : (n : ℕ) → List ℕ → List Arrival → List Response
responses n gone [] = []
responses n gone ((i, ok (Message.result r)) ∷ xs) =
    let rest = responses n gone xs in if is_heard n gone i then r ∷ rest else rest
responses n gone ((i, ok Message.finished) ∷ xs) = responses n (i ∷ gone) xs
responses n gone (a ∷ xs) = responses n gone xs

-- The first exception of a `recv` from a client that has not finished before.
abbrev pub failure : (n : ℕ) → List ℕ → List Arrival → Option Exception
failure n gone [] = none
failure n gone ((i, raise e) ∷ xs) =
    let rest = failure n gone xs in if is_heard n gone i then some e else rest
failure n gone ((i, ok Message.finished) ∷ xs) = failure n (i ∷ gone) xs
failure n gone (a ∷ xs) = failure n gone xs

abbrev ended : (unfinished : ℕ) → List Response → Wait (List Response)
ended zero resps = returns resps
ended (suc n) resps = waits

abbrev unless_failed : Option Exception → Wait (List Response) → Wait (List Response)
unless_failed none w = w
unless_failed (some e) w = fails e

-- What `collate` comes to, once the clients `gone` have finished and with these responses before.
abbrev gathered_from : (n : ℕ) → List ℕ → List Arrival → List Response → Wait (List Response)
gathered_from n gone xs resps =
    unless_failed (failure n gone xs)
      (ended (unfinished n (finishers gone xs)) (resps ++ responses n gone xs))

-- Of `n` clients: the first exception; else the responses once all clients have finished; else it waits.
abbrev pub gathered : (n : ℕ) → List Arrival → Wait (List Response)
gathered n arrivals = gathered_from n [] arrivals []

-- Once all have finished nothing else is read.
abbrev IsOver : ℕ → List ℕ → List Arrival → Type 0
IsOver n gone xs =
    (failure n gone xs ≡ none) × (responses n gone xs ≡ []) × (unfinished n (finishers gone xs) ≡ 0)

done-IsOver : (n : ℕ) (gone : List ℕ) (xs : List Arrival) → unfinished n gone ≡ 0 → IsOver n gone xs
done-IsOver n gone [] e = (refl, refl, e)
done-IsOver n gone ((i, raise x) ∷ xs) e =
    let (f, r, u) = done-IsOver n gone xs e in (rw (is_heard-done n gone e i) f, r, u)
done-IsOver n gone ((i, ok Message.finished) ∷ xs) e =
    let le = unfinished-cons_le n i gone in done-IsOver n (i ∷ gone) xs (omega arith)
done-IsOver n gone ((i, ok (Message.result m)) ∷ xs) e =
    let (f, r, u) = done-IsOver n gone xs e in (f, rw (is_heard-done n gone e i) r, u)
done-IsOver n gone ((i, ok Message.ready) ∷ xs) e = done-IsOver n gone xs e
done-IsOver n gone ((i, ok Message.finalise) ∷ xs) e = done-IsOver n gone xs e
done-IsOver n gone ((i, ok Message.start) ∷ xs) e = done-IsOver n gone xs e
done-IsOver n gone ((i, ok (Message.preload b op)) ∷ xs) e = done-IsOver n gone xs e

collate_lem :
    (reg : List ℕ) (remaining n : ℕ) (gone : List ℕ) (xs : List Arrival) (resps : List Response)
    → Agrees reg n gone
    → unfinished n gone ≡ remaining
    → collate reg remaining xs resps ≡ gathered_from n gone xs resps
unfolding collate
collate_lem reg zero n gone xs resps h e =
    let (f, r, u) = done-IsOver n gone xs e in rw (f, r, u, append-nil) refl
collate_lem reg (suc m) n gone [] resps h e = rw e refl
collate_lem reg (suc m) n gone ((i, raise x) ∷ xs) resps h e =
    elim (Bool-cases (is_heard n gone i)) [
      | inl y ↦ rw (h i, y) refl
      | inr a ↦ rw (h i, a) (collate_lem reg (suc m) n gone xs resps h e)
    ]
collate_lem reg (suc m) n gone ((i, ok Message.finished) ∷ xs) resps h e =
    elim (Bool-cases (is_heard n gone i)) [
      | inl y ↦
          let fewer = heard-new n i gone y in
          rw (h i, y)
            (collate_lem (unregister i reg) m n (i ∷ gone) xs resps
              (Agrees-unregister reg n i gone h) (omega arith))
      | inr a ↦
          let same = unfinished-known n i gone a n (omega arith) in
          rw (h i, a)
            (collate_lem reg (suc m) n (i ∷ gone) xs resps
              (λ j. h j ∙ sym (is_heard-known n i gone a j)) (same ∙ e))
    ]
collate_lem reg (suc m) n gone ((i, ok (Message.result r)) ∷ xs) resps h e =
    elim (Bool-cases (is_heard n gone i)) [
      | inl y ↦
          rw (h i, y) (rw append_assoc at (collate_lem reg (suc m) n gone xs (resps ++ r ∷ []) h e))
      | inr a ↦ rw (h i, a) (collate_lem reg (suc m) n gone xs resps h e)
    ]
collate_lem reg (suc m) n gone ((i, ok Message.ready) ∷ xs) resps h e =
    collate_lem reg (suc m) n gone xs resps h e
collate_lem reg (suc m) n gone ((i, ok Message.finalise) ∷ xs) resps h e =
    collate_lem reg (suc m) n gone xs resps h e
collate_lem reg (suc m) n gone ((i, ok Message.start) ∷ xs) resps h e =
    collate_lem reg (suc m) n gone xs resps h e
collate_lem reg (suc m) n gone ((i, ok (Message.preload b op)) ∷ xs) resps h e =
    collate_lem reg (suc m) n gone xs resps h e

pub collate-gathered :
    (n : ℕ) (arrivals : List Arrival) → collate (range_from n 0) n arrivals [] ≡ gathered n arrivals
collate-gathered n arrivals =
    collate_lem (range_from n 0) n n [] arrivals [] (λ j. is_among-range_from n 0 j ∙ ground arith)
      (unfinished-none n)

-- From the registration of all clients, `collate` raises what the first `recv` raises that fails for a
-- client which has not sent `finished` before; else it returns when every client has sent `finished`,
-- with the results that each client sent before its own `finished`, in the order of their arrival; else
-- it waits. A second `finished` of one client does not count for another, what a client sends after its
-- `finished` is not read, and other messages are dropped.
pub collate_returns :
    (n : ℕ) (arrivals : List Arrival)
    → ((e : Exception) × (failure n [] arrivals ≡ some e)
        × (collate (range_from n 0) n arrivals [] ≡ fails e))
      ⊎ ((failure n [] arrivals ≡ none)
          × (unfinished n (finishers [] arrivals) ≡ 0)
          × (collate (range_from n 0) n arrivals [] ≡ returns (responses n [] arrivals)))
      ⊎ ((failure n [] arrivals ≡ none)
          × (0 < unfinished n (finishers [] arrivals))
          × (collate (range_from n 0) n arrivals [] ≡ waits))
collate_returns n arrivals =
    split (failure n [] arrivals) refl (unfinished n (finishers [] arrivals)) refl
  where
    split :
        (f : Option Exception)
        → failure n [] arrivals ≡ f
        → (u : ℕ) → unfinished n (finishers [] arrivals) ≡ u
        → ((e : Exception) × (failure n [] arrivals ≡ some e)
            × (collate (range_from n 0) n arrivals [] ≡ fails e))
          ⊎ ((failure n [] arrivals ≡ none)
              × (unfinished n (finishers [] arrivals) ≡ 0)
              × (collate (range_from n 0) n arrivals [] ≡ returns (responses n [] arrivals)))
          ⊎ ((failure n [] arrivals ≡ none)
              × (0 < unfinished n (finishers [] arrivals))
              × (collate (range_from n 0) n arrivals [] ≡ waits))
    split (some e) f u h = inl (e, f, collate-gathered n arrivals ∙ rw f refl)
    split none f zero h = inr (inl (f, h, collate-gathered n arrivals ∙ rw (f, h) refl))
    split none f (suc m) h =
        inr (inr (f, omega (arith, h), collate-gathered n arrivals ∙ rw (f, h) refl))
