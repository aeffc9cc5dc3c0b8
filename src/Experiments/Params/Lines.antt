-- ===== src/Experiments/Params/Lines.antt =====
-- The command line, when every parameter has a value.
use reckon_k8s.Prelude.{
  ◌≡◌, refl, ◌∙◌, ◌&&◌, Bool, true, false, List, [], ◌∷◌, ◌++◌, map, Option, none, some, All,
  All-append, Bool-cases, inl, inr,
}
use reckon_k8s.Outcome.{ok}
use reckon_k8s.Text.{Text, text_eq}
use reckon_k8s.Text.Dict.{Dict, put, get, keys, has_key, get-put, has_key-keys}
use reckon_k8s.Text.Split.{Lacks}
use reckon_k8s.Text.Shell.{IsPlain, is_empty, apostrophe}
use reckon_k8s.Text.Shell.Template.{Piece, lit, plain, enclosed, IsFit}
use reckon_k8s.Experiments.Params.{
  Value, shown, merged, Part, says, param, param_in_quotes, given, line,
}

-- `str(params[key])`, for a key that there is.
abbrev pub shown_or : Option Value → Text
shown_or none = []
shown_or (some v) = shown v

abbrev pub shown_at : Dict Value → Text → Text
shown_at params key = shown_or (get key params)

abbrev pub pieces_of : (Text → Text) → List Part → List Piece
pieces_of v [] = []
pieces_of v (says s ∷ ps) = map Piece.lit s ++ pieces_of v ps
pieces_of v (param key ∷ ps) = plain (v key) ∷ pieces_of v ps
pieces_of v (param_in_quotes key ∷ ps) = lit 39 ∷ enclosed (v key) ∷ lit 39 ∷ pieces_of v ps
pieces_of v (given s ∷ ps) = plain s ∷ pieces_of v ps

-- The parameters between apostrophes and the others, and the other values.
abbrev pub params_of : List Part → List Text
params_of [] = []
params_of (param key ∷ ps) = key ∷ params_of ps
params_of (p ∷ ps) = params_of ps

abbrev pub quoted_of : List Part → List Text
quoted_of [] = []
quoted_of (param_in_quotes key ∷ ps) = key ∷ quoted_of ps
quoted_of (p ∷ ps) = quoted_of ps

abbrev pub given_of : List Part → List Text
given_of [] = []
given_of (given s ∷ ps) = s ∷ given_of ps
given_of (p ∷ ps) = given_of ps

abbrev pub HasKey : Dict Value → Text → Type 0
HasKey params key = has_key key (keys params) ≡ true

-- A text that is one word of a command line as it stands, or between apostrophes.
abbrev pub IsWord : Text → Type 0
IsWord s = IsPlain s × (is_empty s ≡ false)

abbrev pub IsQuotable : Text → Type 0
IsQuotable s = Lacks apostrophe s × (is_empty s ≡ false)

get-HasKey :
    (params : Dict Value) (key : Text) → HasKey params key → (v : Value) × (get key params ≡ some v)
get-HasKey [] key h = cc
get-HasKey ((k, v) ∷ params) key h = elim (Bool-cases (text_eq key k)) [
  | inl e ↦ (v, rw e refl)
  | inr n ↦ let (w, at) = get-HasKey params key (rw n at h) in (w, rw n at)
]

pub line-pieces_of :
    (params : Dict Value) (ps : List Part)
    → All (HasKey params) (params_of ps)
    → All (HasKey params) (quoted_of ps)
    → line params ps ≡ ok (pieces_of (shown_at params) ps)
unfolding line
line-pieces_of params [] h q = refl
line-pieces_of params (says s ∷ ps) h q = rw (line-pieces_of params ps h q) refl
line-pieces_of params (param key ∷ ps) h q =
    let (v, at) = get-HasKey params key h.0 in rw (line-pieces_of params ps h.1 q, at) refl
line-pieces_of params (param_in_quotes key ∷ ps) h q =
    let (v, at) = get-HasKey params key q.0 in rw (line-pieces_of params ps h q.1, at) refl
line-pieces_of params (given s ∷ ps) h q = rw (line-pieces_of params ps h q) refl

All-lit : (s : Text) → All IsFit (map Piece.lit s)
All-lit [] = tt
All-lit (c ∷ s) = (tt, All-lit s)

pub pieces_of-IsFit :
    (v : Text → Text) (ps : List Part)
    → All (λ key. IsWord (v key)) (params_of ps)
    → All (λ key. IsQuotable (v key)) (quoted_of ps)
    → All IsWord (given_of ps)
    → All IsFit (pieces_of v ps)
pieces_of-IsFit v [] h q g = tt
pieces_of-IsFit v (says s ∷ ps) h q g =
    All-append IsFit (map Piece.lit s) (pieces_of v ps) (All-lit s) (pieces_of-IsFit v ps h q g)
pieces_of-IsFit v (param key ∷ ps) h q g = (h.0, pieces_of-IsFit v ps h.1 q g)
pieces_of-IsFit v (param_in_quotes key ∷ ps) h q g = (tt, (q.0, (tt, pieces_of-IsFit v ps h q.1 g)))
pieces_of-IsFit v (given s ∷ ps) h q g = (g.0, pieces_of-IsFit v ps h q g.1)

-- Putting parameters over others keeps the keys.
HasKey-put : (key k : Text) (v : Value) (d : Dict Value) → HasKey d key → HasKey (put k v d) key
HasKey-put key k v d h = elim (Bool-cases (text_eq key k)) [
  | inl e ↦ has_key-keys key (put k v d) {v = v} (get-put key k v d ∙ rw e refl)
  | inr n ↦
      let (w, at) = get-HasKey d key h in
      has_key-keys key (put k v d) {v = w} (get-put key k v d ∙ rw n at)
]

pub HasKey-merged :
    (key : Text) (params config : Dict Value)
    → HasKey params key
    → HasKey (merged params config) key
unfolding merged
HasKey-merged key params [] h = h
HasKey-merged key params ((k, v) ∷ config) h =
    HasKey-merged key (put k v params) config (HasKey-put key k v params h)

abbrev pub has_keys : Dict Value → List Text → Bool
has_keys params [] = true
has_keys params (key ∷ ks) = has_key key (keys params) && has_keys params ks

pub All-HasKey :
    (params : Dict Value) (ks : List Text) → has_keys params ks ≡ true → All (HasKey params) ks
All-HasKey params [] h = tt
All-HasKey params (key ∷ ks) h = elim (Bool-cases (has_key key (keys params))) [
  | inl e ↦ (e, All-HasKey params ks (rw e at h))
  | inr n ↦ cc (rw n at h)
]
