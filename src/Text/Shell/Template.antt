-- ===== src/Text/Shell/Template.antt =====
-- Command lines with places for values, such as those that f-strings make: how a shell reads them
-- whatever the values are.
use reckon_k8s.Prelude.{
  ℕ, ◌==◌, ◌&&◌, not, ◌≡◌, Bool, true, false, List, [], ◌∷◌, ◌++◌, Option, none, some,
  if◌then◌else◌,
}
use reckon_k8s.Text.{Text}
use reckon_k8s.Text.Split.{Lacks}
use reckon_k8s.Text.Shell.{Mode, is_space, is_empty, quote_mark, apostrophe, backslash, IsPlain}

-- A character of the text, a value with no special character, or a value between apostrophes.
pub data Piece : Type 0 where
  lit : ℕ → Piece
  plain : Text → Piece
  enclosed : Text → Piece

abbrev pub text_of : Piece → Text
text_of (lit c) = c ∷ []
text_of (plain v) = v
text_of (enclosed v) = v

abbrev pub flatten : List Piece → Text
flatten [] = []
flatten (p ∷ ps) = text_of p ++ flatten ps

-- The values are not empty and have no special character, or no apostrophe.
abbrev pub IsFit : Piece → Type 0
IsFit (lit c) = Unit {0}
IsFit (plain v) = IsPlain v × (is_empty v ≡ false)
IsFit (enclosed v) = Lacks apostrophe v × (is_empty v ≡ false)

-- The machine of `split`, on pieces.
pub record Reading : Type 0 where
  pub words : List (List Piece)
  pub token : List Piece
  pub quoted : Bool
  pub mode : Mode

abbrev pub is_nil : List Piece → Bool
is_nil [] = true
is_nil (p ∷ ps) = false

abbrev pub end_of_word : Reading → Reading
end_of_word r =
    if is_nil r.token && not r.quoted
    then record r { mode = Mode.between }
    else record { words = r.words ++ r.token ∷ []; token = []; quoted = false; mode = Mode.between }

abbrev pub append_piece : Reading → Piece → Mode → Reading
append_piece r p m = record r { token = r.token ++ p ∷ []; mode = m }

abbrev pub read_text : Reading → ℕ → Option Reading
read_text r c =
    if c == quote_mark
    then none
    else if c == apostrophe
    then some (record r { quoted = true; mode = Mode.in_apostrophes })
    else if c == backslash
    then none
    else some (append_piece r (lit c) Mode.in_word)

-- `none` where the template is outside of what these machines agree on.
abbrev pub read_piece : Mode → Reading → Piece → Option Reading
read_piece Mode.between r (lit c) = if is_space c then some r else read_text r c
read_piece Mode.between r (plain v) = some (append_piece r (plain v) Mode.in_word)
read_piece Mode.in_word r (lit c) = if is_space c then some (end_of_word r) else read_text r c
read_piece Mode.in_word r (plain v) = some (append_piece r (plain v) Mode.in_word)
read_piece Mode.in_apostrophes r (lit c) =
    if c == apostrophe
    then some (record r { mode = Mode.in_word })
    else some (append_piece r (lit c) Mode.in_apostrophes)
read_piece Mode.in_apostrophes r (enclosed v) =
    some (append_piece r (enclosed v) Mode.in_apostrophes)
read_piece _ r p = none

abbrev pub and_then : Option Reading → (Reading → Option Reading) → Option Reading
and_then none f = none
and_then (some r) f = f r

abbrev pub read_pieces : Reading → List Piece → Option Reading
read_pieces r [] = some r
read_pieces r (p ∷ ps) = and_then (read_piece r.mode r p) (λ r'. read_pieces r' ps)

abbrev pub finish_pieces : Option Reading → Option (List (List Piece))
finish_pieces none = none
finish_pieces (some r) = elim r.mode [
  | Mode.between ↦ some r.words
  | Mode.in_word ↦ some (end_of_word r).words
  | _ ↦ none
]

abbrev pub begin : Reading
begin = record { words = []; token = []; quoted = false; mode = Mode.between }

abbrev pub split_pieces : List Piece → Option (List (List Piece))
split_pieces ps = finish_pieces (read_pieces begin ps)
