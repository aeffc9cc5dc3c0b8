-- ===== src/Text/Search.antt =====
-- `needle in s` and `s.find(needle) >= 0`.
use reckon_k8s.Prelude.{
  ◌≡◌, refl, ap, inl, inr, Bool, true, false, ◌||◌, ◌==◌, ==_iff, [], ◌∷◌, ◌++◌, Bool-cases,
}
use reckon_k8s.Text.{Text}
use reckon_k8s.Text.Split.{starts_with}

-- `needle in s`
unfoldable pub occurs : Text → Text → Bool
occurs needle [] = starts_with needle []
occurs needle (c ∷ s) = let rest = occurs needle s in starts_with needle (c ∷ s) || rest

-- A text within another.
abbrev pub Within : Text → Text → Type 0
Within needle s = (before after : Text) × (s ≡ before ++ (needle ++ after))

starts_with-append :
    (needle s : Text) → starts_with needle s ≡ true → (after : Text) × (s ≡ needle ++ after)
starts_with-append [] s e = (s, refl)
starts_with-append (c ∷ needle) [] e = cc
starts_with-append (c ∷ needle) (d ∷ s) e = elim (Bool-cases (c == d)) [
  | inl y ↦
      let same : c ≡ d = (==_iff c d).0 y in
      let (after, at) = starts_with-append needle s (rw y at e) in (after, cc)
  | inr n ↦ cc (rw n at e)
]

append-starts_with : (needle after : Text) → starts_with needle (needle ++ after) ≡ true
append-starts_with [] after = refl
append-starts_with (c ∷ needle) after =
    let same : (c == c) ≡ true = (==_iff c c).1 refl in
    rw (same, append-starts_with needle after) refl

pub occurs-Within : (needle s : Text) → occurs needle s ≡ true → Within needle s
unfolding occurs
occurs-Within needle [] e = let (after, at) = starts_with-append needle [] e in ([], after, at)
occurs-Within needle (c ∷ s) e = elim (Bool-cases (starts_with needle (c ∷ s))) [
  | inl y ↦ let (after, at) = starts_with-append needle (c ∷ s) y in ([], after, at)
  | inr n ↦
      let (before, after, at) = occurs-Within needle s (rw n at e) in
      (c ∷ before, after, ap (λ t. c ∷ t) at)
]

occurs-start : (needle s : Text) → starts_with needle s ≡ true → occurs needle s ≡ true
unfolding occurs
occurs-start needle [] e = e
occurs-start needle (c ∷ s) e = rw e refl

or_true : (b : Bool) → (b || true) ≡ true
or_true true = refl
or_true false = refl

Within-occurs : (needle before after : Text) → occurs needle (before ++ (needle ++ after)) ≡ true
unfolding occurs
Within-occurs needle [] after =
    occurs-start needle (needle ++ after) (append-starts_with needle after)
Within-occurs needle (c ∷ before) after =
    rw (Within-occurs needle before after)
      (or_true (starts_with needle (c ∷ (before ++ (needle ++ after)))))

pub not-Within : (needle s : Text) → occurs needle s ≡ false → ¬ Within needle s
not-Within needle s n (before, after, at) = cc (rw at at n, Within-occurs needle before after)
