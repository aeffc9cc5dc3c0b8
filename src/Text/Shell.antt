-- ===== src/Text/Shell.antt =====
-- `shlex.split`, as a machine that reads one character at a time, for texts without comments: the
-- words of a command line, with the quoting of a POSIX shell.
pub mod Template
pub mod Values
use reckon_k8s.Prelude.{
  All, ◌≡◌, ℕ, ◌==◌, ◌||◌, ◌&&◌, not, Bool, true, false, List, [], ◌∷◌, ◌++◌, if◌then◌else◌,
}
use reckon_k8s.Outcome.{Outcome, ok, raise, value_error}
use reckon_k8s.Text.{Text}

abbrev pub quote_mark : ℕ
quote_mark = 34

abbrev pub apostrophe : ℕ
apostrophe = 39

abbrev pub backslash : ℕ
backslash = 92

abbrev pub is_space : ℕ → Bool
is_space c = c == 32 || (c == 9 || (c == 10 || c == 13))

-- Where the machine is: before a word, in a word, between two quotes, or after a backslash.
pub data Mode : Type 0 where
  between in_word in_quotes in_apostrophes escaped escaped_in_quotes : Mode

-- The words that are complete, the one that is being read, and whether that one had quotes.
pub record Lexer : Type 0 where
  pub words : List Text
  pub token : Text
  pub quoted : Bool
  pub mode : Mode

abbrev pub start : Lexer
start = record { words = []; token = []; quoted = false; mode = Mode.between }

abbrev pub is_empty : Text → Bool
is_empty [] = true
is_empty (c ∷ s) = false

-- The end of a word, which is a word if it has characters or had quotes.
abbrev pub end_word : Lexer → Lexer
end_word l =
    if is_empty l.token && not l.quoted
    then record l { mode = Mode.between }
    else record { words = l.words ++ l.token ∷ []; token = []; quoted = false; mode = Mode.between }

abbrev pub add : Lexer → Text → Mode → Lexer
add l s m = record l { token = l.token ++ s; mode = m }

-- A character at the start of a word or in one.
abbrev pub in_text : Lexer → ℕ → Lexer
in_text l c =
    if c == quote_mark
    then record l { quoted = true; mode = Mode.in_quotes }
    else if c == apostrophe
    then record l { quoted = true; mode = Mode.in_apostrophes }
    else if c == backslash
    then record l { mode = Mode.escaped }
    else add l (c ∷ []) Mode.in_word

abbrev pub read : Mode → Lexer → ℕ → Lexer
read Mode.between l c = if is_space c then l else in_text l c
read Mode.in_word l c = if is_space c then end_word l else in_text l c
read Mode.in_quotes l c =
    if c == quote_mark
    then record l { mode = Mode.in_word }
    else if c == backslash
    then record l { mode = Mode.escaped_in_quotes }
    else add l (c ∷ []) Mode.in_quotes
read Mode.in_apostrophes l c =
    if c == apostrophe then record l { mode = Mode.in_word } else add l (c ∷ []) Mode.in_apostrophes
read Mode.escaped l c = add l (c ∷ []) Mode.in_word
read Mode.escaped_in_quotes l c =
    if c == quote_mark || c == backslash
    then add l (c ∷ []) Mode.in_quotes
    else add l (backslash ∷ c ∷ []) Mode.in_quotes

unfoldable pub read_all : Lexer → Text → Lexer
read_all l [] = l
read_all l (c ∷ s) = read_all (read l.mode l c) s

-- At the end of the text an open quote or a last backslash is an error.
abbrev pub finish : Mode → Lexer → Outcome (List Text)
finish Mode.between l = ok l.words
finish Mode.in_word l = ok (end_word l).words
finish _ l = raise value_error

-- `shlex.split(s)`
unfoldable pub split : Text → Outcome (List Text)
split s = let l = read_all start s in finish l.mode l

-- Every character but these is taken as it is.
abbrev pub is_special : ℕ → Bool
is_special c = is_space c || (c == quote_mark || (c == apostrophe || c == backslash))

abbrev pub IsPlain : Text → Type 0
IsPlain s = All (λ c. is_special c ≡ false) s
