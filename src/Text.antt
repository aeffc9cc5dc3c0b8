-- ===== src/Text.antt =====
-- Python's `str`, as the list of its code points, and the built-in operations that the program uses.
pub mod Decimal
pub mod Shell
pub mod Dict
pub mod Split
pub mod Search
use Prim.Native.Char.{code}
use Prim.Native.String.{String}
use reckon_k8s.Prelude.{
  ℕ, zero, suc, ◌+◌, ◌-◌, ◌/◌, ◌%◌, List, [], ◌∷◌, ◌++◌, Bool, true, false, ◌&&◌, length, replicate,
  ltb, ◌==◌, if◌then◌else◌,
}

abbrev pub Text : Type 0
Text = List ℕ

abbrev pub codes : String → Text
codes String.[] = []
codes (String.◌∷◌ c s) = code c ∷ codes s

-- Equality of texts.
abbrev pub text_eq : Text → Text → Bool
text_eq [] [] = true
text_eq [] (d ∷ t) = false
text_eq (c ∷ s) [] = false
text_eq (c ∷ s) (d ∷ t) = (c == d) && text_eq s t

-- The decimal digits of `n`; any fuel above `n` is enough.
pub digits : ℕ → ℕ → Text
digits zero n = []
digits (suc fuel) n =
    let rest = digits fuel (n / 10) in
    if ltb n 10 then (b'0' + n) ∷ [] else rest ++ (b'0' + n % 10) ∷ []

-- `str(n)`
unfoldable pub str : ℕ → Text
unfolding digits
str n = digits (suc n) n

-- `s.zfill(width)`, for a text with no sign.
unfoldable pub zfill : Text → ℕ → Text
zfill s width = replicate (width - length s) b'0' ++ s

-- `sep.join(texts)`
abbrev pub join : Text → List Text → Text
join sep [] = []
join sep (t ∷ []) = t
join sep (t ∷ u ∷ ts) = t ++ sep ++ join sep (u ∷ ts)
