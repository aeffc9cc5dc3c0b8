-- ===== src/Text/Dict.antt =====
-- A Python dictionary whose keys are texts, in the order in which they were first put in.
use reckon_k8s.Prelude.{
  ◌≡◌, refl, ap, ◌∙◌, Bool, true, false, List, [], ◌∷◌, ◌++◌, Option, none, some, if◌then◌else◌,
  ◌||◌, ℕ, Bool-cases, inl, inr, arith, get_elem?, map, zero, suc,
}
use reckon_k8s.Text.{Text, text_eq}
use reckon_k8s.Text.Decimal.{text_eq_iff}

abbrev pub Dict : Type 0 → Type 0
Dict A = List (Text × A)

-- `d[key] = value`
abbrev pub put : {A : Type 0} → Text → A → Dict A → Dict A
put key value [] = (key, value) ∷ []
put key value ((k, v) ∷ d) =
    let rest = put key value d in if text_eq key k then (k, value) ∷ d else (k, v) ∷ rest

-- `d[key]`; `none` is a `KeyError`.
abbrev pub get : {A : Type 0} → Text → Dict A → Option A
get key [] = none
get key ((k, v) ∷ d) = let rest = get key d in if text_eq key k then some v else rest

abbrev pub keys : {A : Type 0} → Dict A → List Text
keys [] = []
keys ((k, v) ∷ d) = k ∷ keys d

-- `key in keys`
abbrev pub has_key : Text → List Text → Bool
has_key key [] = false
has_key key (k ∷ ks) = text_eq key k || has_key key ks

pub put-new :
    {A : Type 0} (key : Text) (value : A) (d : Dict A)
    → has_key key (keys d) ≡ false
    → put key value d ≡ d ++ (key, value) ∷ []
put-new key value [] h = refl
put-new key value ((k, v) ∷ d) h = elim (Bool-cases (text_eq key k)) [
  | inl e ↦ cc (rw e at h)
  | inr n ↦ rw n (ap (λ l. (k, v) ∷ l) (put-new key value d (rw n at h)))
]

pub text_eq_comm : (s t : Text) → text_eq s t ≡ text_eq t s
text_eq_comm [] [] = refl
text_eq_comm [] (d ∷ t) = refl
text_eq_comm (c ∷ s) [] = refl
text_eq_comm (c ∷ s) (d ∷ t) = ground (arith, text_eq_comm s t)

pub has_key-append :
    {A : Type 0} (key k : Text) (v : A) (d : Dict A)
    → has_key key (keys d) ≡ false
    → text_eq key k ≡ false
    → has_key key (keys (d ++ (k, v) ∷ [])) ≡ false
has_key-append key k v [] h n = rw n refl
has_key-append key k v ((k', v') ∷ d) h n = elim (Bool-cases (text_eq key k')) [
  | inl e ↦ cc (rw e at h)
  | inr m ↦ rw m (has_key-append key k v d (rw m at h) n)
]

pub has_key-keys :
    {A : Type 0} (key : Text) (d : Dict A) {v : A}
    → get key d ≡ some v
    → has_key key (keys d) ≡ true
has_key-keys key [] e = cc
has_key-keys key ((k, v) ∷ d) e = elim (Bool-cases (text_eq key k)) [
  | inl y ↦ rw y refl
  | inr n ↦ rw n (has_key-keys key d (rw n at e))
]

-- No key occurs twice.
abbrev pub Distinct : List Text → Type 0
Distinct [] = Unit {0}
Distinct (t ∷ ts) = (has_key t ts ≡ false) × Distinct ts

pub absent-map :
    {A : Type 0} (f : A → Text) (t : Text) (k : ℕ) (xs : List A) (x : A)
    → get_elem? xs k ≡ some x
    → has_key t (map f xs) ≡ false
    → text_eq t (f x) ≡ false
absent-map f t k [] x at n = cc
absent-map f t zero (y ∷ xs) x at n =
    let e : y ≡ x = cc in
    elim (Bool-cases (text_eq t (f y))) [ inl found ↦ cc (rw found at n) | inr m ↦ rw (← e) m ]
absent-map f t (suc k) (y ∷ xs) x at n = elim (Bool-cases (text_eq t (f y))) [
  | inl found ↦ cc (rw found at n)
  | inr m ↦ absent-map f t k xs x at (rw m at n)
]

-- `d[key] = value`, read back.
pub get-put :
    {A : Type 0} (j key : Text) (value : A) (d : Dict A)
    → get j (put key value d) ≡ (if text_eq j key then some value else get j d)
get-put j key value [] = refl
get-put j key value ((k, v) ∷ d) = elim (Bool-cases (text_eq key k)) [
  | inl e ↦
      let same : key ≡ k = (text_eq_iff key k).0 e in
      rw e (rw same (elim (Bool-cases (text_eq j k)) [ inl y ↦ rw y refl | inr n ↦ rw n refl ]))
  | inr n ↦ rw n (elim (Bool-cases (text_eq j k)) [
    | inl y ↦
        let same : j ≡ k = (text_eq_iff j k).0 y in
        let other : text_eq j key ≡ false = text_eq_comm j key ∙ ap (text_eq key) same ∙ n in
        rw (y, other) refl
    | inr m ↦ rw m (get-put j key value d)
  ])
]
