-- ===== src/Text/Split.antt =====
-- `str.split(sep)` and `str.strip()`.
use reckon_k8s.Prelude.{
  sym, ℕ, zero, suc, ◌-◌, ◌==◌, ◌&&◌, ◌||◌, ◌≡◌, refl, ap, ◌∙◌, Bool, true, false, List, [], ◌∷◌,
  ◌++◌, length, if◌then◌else◌, leb, All, arith, append_assoc, append-nil,
}
use reckon_k8s.Text.{Text}

-- `s.startswith(sep)`
abbrev pub starts_with : Text → Text → Bool
starts_with [] s = true
starts_with (c ∷ sep) [] = false
starts_with (c ∷ sep) (d ∷ s) = (c == d) && starts_with sep s

-- `piece` is read since the last separator; the next `skip` characters belong to a separator.
unfoldable pub split_from : (sep : Text) (skip : ℕ) (piece : Text) → Text → List Text
split_from sep skip piece [] = piece ∷ []
split_from sep (suc skip) piece (c ∷ s) = split_from sep skip piece s
split_from sep zero piece (c ∷ s) = elim (starts_with sep (c ∷ s)) [
  | true ↦ piece ∷ split_from sep (length sep - 1) [] s
  | false ↦ split_from sep zero (piece ++ c ∷ []) s
]

-- `s.split(sep)`, for a separator that is not empty.
unfoldable pub split_on : Text → Text → List Text
unfolding split_from
split_on sep s = split_from sep 0 [] s

-- The whitespace of ASCII.
abbrev pub is_white : ℕ → Bool
is_white c = (leb 9 c && leb c 13) || ((leb 28 c && leb c 32))

abbrev pub lstrip : Text → Text
lstrip [] = []
lstrip (c ∷ s) = let rest = lstrip s in if is_white c then rest else c ∷ s

abbrev pub rstrip : Text → Text
rstrip [] = []
rstrip (c ∷ s) = elim (rstrip s) [ [] ↦ if is_white c then [] else c ∷ [] | d ∷ t ↦ c ∷ d ∷ t ]

-- `s.strip()`
abbrev pub strip : Text → Text
strip s = rstrip (lstrip s)

-- The last item of a list, and all but the last: `l[-1]` of a list that is not empty and `l[0:-1]`.
abbrev pub last_of : Text → List Text → Text
last_of x [] = x
last_of x (y ∷ ys) = last_of y ys

abbrev pub but_last : List Text → List Text
but_last [] = []
but_last (x ∷ []) = []
but_last (x ∷ y ∷ ys) = x ∷ but_last (y ∷ ys)

-- A character does not occur in a text.
abbrev pub Lacks : ℕ → Text → Type 0
Lacks c s = All (λ d. (c == d) ≡ false) s

pub split_from-Lacks :
    (c : ℕ) (sep piece s rest : Text)
    → Lacks c s
    → split_from (c ∷ sep) 0 piece (s ++ rest) ≡ split_from (c ∷ sep) 0 (piece ++ s) rest
unfolding split_from
split_from-Lacks c sep piece [] rest h = rw append-nil refl
split_from-Lacks c sep piece (d ∷ s) rest h =
    rw (h.0, split_from)
      (split_from-Lacks c sep (piece ++ d ∷ []) s rest h.1
        ∙ rw (append_assoc piece (d ∷ []) s) refl)

same_self : (c : ℕ) → (c == c) ≡ true
same_self c = ground arith

-- Up to the first separator of one character, and after it.
pub split_on-first :
    (c : ℕ) (s rest : Text)
    → Lacks c s
    → split_on (c ∷ []) (s ++ c ∷ rest) ≡ s ∷ split_on (c ∷ []) rest
unfolding split_on split_from
split_on-first c s rest h =
    split_from-Lacks c [] [] s (c ∷ rest) h ∙ rw (same_self c, split_from) refl

pub split_on-none : (c : ℕ) (s : Text) → Lacks c s → split_on (c ∷ []) s ≡ s ∷ []
unfolding split_on split_from
split_on-none c s h =
    ap (λ t. split_from (c ∷ []) 0 [] t) (sym (append-nil s)) ∙ split_from-Lacks c [] [] s [] h
