-- ===== src/Systems/Ocons/Pings/Patterns.antt =====
-- Decimals and texts without a slash, in the pattern for what `ping` prints.
use reckon_k8s.Prelude.{
  ℕ, ◌<◌, ◌==◌, ◌≡◌, refl, ap, true, false, [], ◌∷◌, ◌++◌, length, none, some, All, arith,
  Bool-cases, inl, inr, append_assoc,
}
use reckon_k8s.Text.{Text}
use reckon_k8s.Text.Decimal.{is_digit}
use reckon_k8s.Text.Split.{Lacks}
use reckon_k8s.Systems.Ocons.Logs.{digits_of}
use reckon_k8s.Systems.Ocons.Pings.{
  Decimal, drop_digits, after_char, decimal_of, decimal, with_rest, slashed, average_at,
  await_latency,
}

abbrev AreDigits : Text → Type 0
AreDigits s = All (λ c. is_digit c ≡ true) s

-- A decimal with digits before its point.
abbrev pub IsDecimal : Decimal → Type 0
IsDecimal (whole, fraction) = (0 < length whole) × AreDigits whole × AreDigits fraction

abbrev pub shown : Decimal → Text
shown (whole, fraction) = whole ++ b'.' ∷ fraction

digits_of-before :
    (s : Text) (c : ℕ) (t : Text) → AreDigits s → is_digit c ≡ false → digits_of (s ++ c ∷ t) ≡ s
digits_of-before [] c t h n = rw n refl
digits_of-before (d ∷ s) c t h n = rw (h.0, digits_of-before s c t h.1 n) refl

drop_digits-before :
    (s : Text) (c : ℕ) (t : Text)
    → AreDigits s
    → is_digit c ≡ false
    → drop_digits (s ++ c ∷ t) ≡ c ∷ t
drop_digits-before [] c t h n = rw n refl
drop_digits-before (d ∷ s) c t h n = rw (h.0, drop_digits-before s c t h.1 n) refl

decimal_of-some :
    (w : Text) (r : Text)
    → 0 < length w
    → decimal_of w (some r) ≡ some ((w, digits_of r), drop_digits r)
decimal_of-some [] r h = absurd (omega arith)
decimal_of-some (d ∷ w) r h = refl

pub decimal-shown :
    (d : Decimal) (s : Text)
    → IsDecimal d
    → decimal (shown d ++ s) ≡ some ((d.0, digits_of (d.1 ++ s)), drop_digits (d.1 ++ s))
decimal-shown (w, f) s h =
    let at : shown (w, f) ++ s ≡ w ++ b'.' ∷ (f ++ s) = append_assoc w (b'.' ∷ f) s in
    rw (at, digits_of-before w b'.' (f ++ s) h.1 refl, drop_digits-before w b'.' (f ++ s) h.1 refl)
      (decimal_of-some w (f ++ s) h.0)

pub slashed-shown :
    (d : Decimal) (s : Text) → IsDecimal d → slashed (decimal (shown d ++ b'/' ∷ s)) ≡ some (d, s)
slashed-shown (w, f) s h =
    rw
      (
        decimal-shown (w, f) (b'/' ∷ s) h,
        digits_of-before f b'/' s h.2 refl,
        drop_digits-before f b'/' s h.2 refl,
      )
      refl

-- A text without a slash.
abbrev pub NoSlash : Text → Type 0
NoSlash s = Lacks b'/' s

drop_digits-NoSlash : (s : Text) → NoSlash s → NoSlash (drop_digits s)
drop_digits-NoSlash [] h = tt
drop_digits-NoSlash (c ∷ s) h = elim (Bool-cases (is_digit c)) [
  | inl y ↦ rw y (drop_digits-NoSlash s h.1)
  | inr n ↦ rw n h
]

-- The text that follows a text without a slash: nothing, or one that begins with another character than a
-- digit, a point and a slash.
pub data Follows : Text → Type 0 where
  nothing : Follows []
  other :
      (c : ℕ) (s : Text)
      → is_digit c ≡ false
      → (c == b'.') ≡ false
      → (c == b'/') ≡ false
      → Follows (c ∷ s)

drop_digits-Follows : (s t : Text) → Follows t → drop_digits (s ++ t) ≡ drop_digits s ++ t
drop_digits-Follows [] [] Follows.nothing = refl
drop_digits-Follows [] (c ∷ t) (Follows.other _ _ d p l) = rw d refl
drop_digits-Follows (c ∷ s) t f = elim (Bool-cases (is_digit c)) [
  | inl y ↦ rw y (drop_digits-Follows s t f)
  | inr n ↦ rw n refl
]

no_slash : (c : ℕ) → (b'/' == c) ≡ false → (c == b'/') ≡ false
no_slash c h = ground arith

after_char-NoSlash : (s t : Text) → NoSlash s → Follows t → after_char b'/' (s ++ t) ≡ none
after_char-NoSlash [] [] h Follows.nothing = refl
after_char-NoSlash [] (c ∷ t) h (Follows.other _ _ d p l) = rw l refl
after_char-NoSlash (c ∷ s) t h f = rw (no_slash c h.0) refl

slashed-none :
    (s t ds : Text)
    → NoSlash s
    → Follows t
    → slashed (decimal_of ds (after_char b'.' (s ++ t))) ≡ none
slashed-none s t [] h f = refl
slashed-none [] [] (d ∷ ds) h f = refl
slashed-none [] (c ∷ t) (d ∷ ds) h (Follows.other _ _ e p l) = rw p refl
slashed-none (c ∷ s) t (d ∷ ds) h f = elim (Bool-cases (c == b'.')) [
  | inl y ↦
      rw (y, drop_digits-Follows s t f)
        (ap (with_rest (d ∷ ds, digits_of (s ++ t)))
          (after_char-NoSlash (drop_digits s) t (drop_digits-NoSlash s h.1) f))
  | inr n ↦ rw n refl
]

module _ (float : Decimal → ℕ) where
  average_at-none : (s t : Text) → NoSlash s → Follows t → average_at float (s ++ t) ≡ none
  average_at-none s t h f =
      let start : slashed (decimal (s ++ t)) ≡ none =
        rw (drop_digits-Follows s t f)
          (slashed-none (drop_digits s) t (digits_of (s ++ t)) (drop_digits-NoSlash s h) f) in
      rw start refl

  -- Nothing is found in a text without a slash.
  pub await_latency-Follows :
      (s t : Text) → NoSlash s → Follows t → await_latency float (s ++ t) ≡ await_latency float t
  unfolding await_latency
  await_latency-Follows [] t h f = refl
  await_latency-Follows (c ∷ s) t h f =
      rw (average_at-none (c ∷ s) t h f, await_latency-Follows s t h.1 f) refl
