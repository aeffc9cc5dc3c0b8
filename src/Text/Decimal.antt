-- ===== src/Text/Decimal.antt =====
-- The decimal print of a number determines it, and longer numbers have longer prints.
use reckon_k8s.Prelude.{
  ℕ, zero, suc, ◌+◌, ◌-◌, ◌*◌, ◌/◌, ◌%◌, ◌≤◌, ◌<◌, ◌≡◌, refl, sym, ap, ◌∙◌, [], ◌∷◌, ◌++◌, arith,
  length, replicate, length-append, true, ◌↔◌, inl, inr, ==_iff, Bool-cases, ltb, leb, Bool, ◌&&◌,
  All, All-append,
}
use reckon_k8s.Text.{Text, digits, str, zfill, text_eq}

-- The number that digits stand for, after the digits that stand for `acc`.
abbrev pub read : ℕ → Text → ℕ
read acc [] = acc
read acc (c ∷ s) = read (acc * 10 + (c - b'0')) s

read-append : (acc : ℕ) (s t : Text) → read acc (s ++ t) ≡ read (read acc s) t
read-append acc [] t = refl
read-append acc (c ∷ s) t = read-append (acc * 10 + (c - b'0')) s t

read-digits : (fuel n : ℕ) → n < fuel → read 0 (digits fuel n) ≡ n
unfolding digits
read-digits zero n h = absurd (omega arith)
read-digits (suc fuel) n h = elim (Bool-cases (ltb n 10)) [
  | inl small ↦ rw small (omega arith)
  | inr large ↦ rw (large, read-append, read-digits fuel (n / 10) (ground arith)) (ground arith)
]

-- The decimal print of a number reads back as that number.
pub read-str : (n : ℕ) → read 0 (str n) ≡ n
unfolding str
read-str n = read-digits (suc n) n (omega arith)

pub str-injective : (m n : ℕ) → str m ≡ str n → m ≡ n
str-injective m n e = sym (read-str m) ∙ ap (read 0) e ∙ read-str n

read-zeros : (k : ℕ) (s : Text) → read 0 (replicate k b'0' ++ s) ≡ read 0 s
read-zeros zero s = refl
read-zeros (suc k) s = read-zeros k s

pub read-zfill : (s : Text) (width : ℕ) → read 0 (zfill s width) ≡ read 0 s
unfolding zfill
read-zfill s width = read-zeros (width - length s) s

length-digits_mono :
    (f g m n : ℕ) → m < f → n < g → m ≤ n → length (digits f m) ≤ length (digits g n)
unfolding digits
length-digits_mono zero g m n hf hg h = absurd (omega arith)
length-digits_mono (suc f) zero m n hf hg h = absurd (omega arith)
length-digits_mono (suc f) (suc g) m n hf hg h = ground (
  arith,
  length-digits_mono f g (m / 10) (n / 10),
  length-append (digits f (m / 10)) ((b'0' + m % 10) ∷ []),
  length-append (digits g (n / 10)) ((b'0' + n % 10) ∷ []),
)

pub length-str_mono : (m n : ℕ) → m ≤ n → length (str m) ≤ length (str n)
unfolding str
length-str_mono m n h = length-digits_mono (suc m) (suc n) m n (omega arith) (omega arith) h

length-replicate : (k c : ℕ) → length (replicate k c) ≡ k
length-replicate zero c = refl
length-replicate (suc k) c = ap suc (length-replicate k c)

pub length-zfill : (s : Text) (width : ℕ) → length s ≤ width → length (zfill s width) ≡ width
unfolding zfill
length-zfill s width h = omega (
  arith,
  length-append (replicate (width - length s) b'0') s,
  length-replicate (width - length s) b'0',
)

pub text_eq_iff : (s t : Text) → (text_eq s t ≡ true) ↔ (s ≡ t)
text_eq_iff [] [] = ground arith
text_eq_iff [] (d ∷ t) = ground arith
text_eq_iff (c ∷ s) [] = ground arith
text_eq_iff (c ∷ s) (d ∷ t) = ground (arith, ==_iff c d, text_eq_iff s t)

-- A decimal digit of ASCII.
abbrev pub is_digit : ℕ → Bool
is_digit c = leb b'0' c && leb c b'9'

digits-is_digit : (fuel n : ℕ) → All (λ c. is_digit c ≡ true) (digits fuel n)
unfolding digits
digits-is_digit zero n = tt
digits-is_digit (suc fuel) n = elim (Bool-cases (ltb n 10)) [
  | inl small ↦ rw small (ground arith, tt)
  | inr large ↦ rw large (
      All-append _ (digits fuel (n / 10)) ((b'0' + n % 10) ∷ []) (digits-is_digit fuel (n / 10))
        (ground arith, tt))
]

pub str-is_digit : (n : ℕ) → All (λ c. is_digit c ≡ true) (str n)
unfolding str
str-is_digit n = digits-is_digit (suc n) n

-- A print has at least one digit.
pub length-str_pos : (n : ℕ) → 1 ≤ length (str n)
unfolding str digits
length-str_pos n = omega (arith, length-str_mono 0 n)
