-- ===== src/Systems/Ocons/Logs/Entries.antt =====
-- Lines of a log, printed of the terms that a host has led, and what is found in them.
use reckon_k8s.Prelude.{
  ℕ, ◌<◌, ◌==◌, ◌≡◌, refl, ap, ◌∙◌, true, false, List, [], ◌∷◌, ◌++◌, map, some, All, All-append,
  All-imp, arith, length, append_assoc, append-nil,
}
use reckon_k8s.Text.{Text, str}
use reckon_k8s.Text.Decimal.{read, is_digit, read-str, str-is_digit, length-str_pos}
use reckon_k8s.Systems.Ocons.Logs.{
  lower, digits_of, as_number, phrase, search_term, is_break, lines_from,
}

-- A line of a log: a term that the host has led, between other text.
pub record Entry : Type 0 where
  pub before : Text
  pub term : ℕ
  pub rest : Text

abbrev pub printed_line : Entry → Text
printed_line e = e.before ++ (phrase ++ (str e.term ++ e.rest))

abbrev pub printed : List Entry → Text
printed [] = []
printed (e ∷ es) = printed_line e ++ 10 ∷ printed es

abbrev pub Unbroken : Text → Type 0
Unbroken s = All (λ c. is_break c ≡ false) s

-- The text before the phrase has no letter L, so that the phrase does not begin in it, the text after the
-- number does not go on with a digit, and both are on one line.
pub record IsLine (e : Entry) : Type 0 where
  pub no_l : All (λ c. (b'l' == lower c) ≡ false) e.before
  pub ends : digits_of e.rest ≡ []
  pub before_unbroken : Unbroken e.before
  pub rest_unbroken : Unbroken e.rest

abbrev AreDigits : Text → Type 0
AreDigits s = All (λ c. is_digit c ≡ true) s

digits_of-append : (s t : Text) → AreDigits s → digits_of t ≡ [] → digits_of (s ++ t) ≡ s
digits_of-append [] t h e = e
digits_of-append (c ∷ s) t h e = rw (h.0, digits_of-append s t h.1 e) refl

as_number-str : (n : ℕ) → as_number (str n) ≡ some n
as_number-str n = full (str n) (length-str_pos n) ∙ ap some (read-str n)
  where
    full : (s : Text) → 0 < length s → as_number s ≡ some (read 0 s)
    full [] h = absurd (omega arith)
    full (c ∷ s) h = refl

pub search_term-line :
    (before : Text) (n : ℕ) (rest : Text)
    → All (λ c. (b'l' == lower c) ≡ false) before
    → digits_of rest ≡ []
    → search_term (before ++ (phrase ++ (str n ++ rest))) ≡ some n
unfolding search_term
search_term-line [] n rest h e =
    rw (digits_of-append (str n) rest (str-is_digit n) e, as_number-str n) refl
search_term-line (c ∷ before) n rest h e = rw h.0 (search_term-line before n rest h.1 e)

lines_from-Unbroken :
    (line s rest : Text)
    → Unbroken s
    → lines_from false line (s ++ 10 ∷ rest) ≡ (line ++ s) ∷ lines_from false [] rest
unfolding lines_from
lines_from-Unbroken line [] rest h = rw append-nil refl
lines_from-Unbroken line (c ∷ s) rest h =
    rw (h.0, lines_from)
      (lines_from-Unbroken (line ++ c ∷ []) s rest h.1
        ∙ ap (λ l. l ∷ lines_from false [] rest) (append_assoc line (c ∷ []) s))

str-Unbroken : (n : ℕ) → Unbroken (str n)
str-Unbroken n = All-imp _ _ (str n) (λ c d. ground arith) (str-is_digit n)

phrase-Unbroken : Unbroken phrase
phrase-Unbroken = ground arith

line-Unbroken : (e : Entry) → IsLine e → Unbroken (printed_line e)
line-Unbroken e l = All-append _ e.before (phrase ++ (str e.term ++ e.rest)) l.before_unbroken (
    All-append _ phrase (str e.term ++ e.rest) phrase-Unbroken
      (All-append _ (str e.term) e.rest (str-Unbroken e.term) l.rest_unbroken))

pub lines_from-printed :
    (es : List Entry) → All IsLine es → lines_from false [] (printed es) ≡ map printed_line es
unfolding lines_from
lines_from-printed [] h = refl
lines_from-printed (e ∷ es) h =
    lines_from-Unbroken [] (printed_line e) (printed es) (line-Unbroken e h.0)
    ∙ ap (λ ls. printed_line e ∷ ls) (lines_from-printed es h.1)
