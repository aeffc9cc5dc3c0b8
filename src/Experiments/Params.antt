-- ===== src/Experiments/Params.antt =====
-- What scripts/kubetester.py and scripts/tester.py share: the parameters of a test, which are put over
-- the default ones, and the command line that is made of them by f-strings.
pub mod Lines
use reckon_k8s.Prelude.{ℕ, Bool, true, false, List, [], ◌∷◌, ◌++◌, Option, none, some, not, map}
use reckon_k8s.Outcome.{
  Outcome, ok, raise, ◌>>=◌, ◌>>◌, or_raise, check, key_error, assertion_error,
}
use reckon_k8s.Text.{Text, codes, str}
use reckon_k8s.Text.Dict.{Dict, put, get}
use reckon_k8s.Text.Shell.Template.{Piece, lit, plain, enclosed}

-- A value of a parameter; a floating-point number is given by its `str`, `{}` is the empty dictionary.
pub data Value : Type 0 where
  text : Text → Value
  number : ℕ → Value
  minus_one : Value
  real : Text → Value
  flag : Bool → Value
  empty_dict : Value

abbrev pub shown : Value → Text
shown (text s) = s
shown (number n) = str n
shown minus_one = codes "-1"
shown (real s) = s
shown (flag true) = codes "True"
shown (flag false) = codes "False"
shown empty_dict = codes "{}"

-- `for k, v in config.items(): params[k] = v`, and the union `params | config` of dictionaries.
unfoldable pub merged : Dict Value → Dict Value → Dict Value
merged params [] = params
merged params ((k, v) ∷ config) = merged (put k v params) config

abbrev pub is_minus_one : Value → Bool
is_minus_one minus_one = true
is_minus_one v = false

-- `assert (params['repeat'] != -1)`
unfoldable pub check_repeat : Dict Value → Outcome (Unit {0})
check_repeat params = do
  repeat ← or_raise (get (codes "repeat") params) key_error
  check (not (is_minus_one repeat)) assertion_error

-- A part of an f-string: text, `{params[key]}`, that between apostrophes, or another value.
pub data Part : Type 0 where
  says : Text → Part
  param param_in_quotes : Text → Part
  given : Text → Part

abbrev pub part : Dict Value → Part → Outcome (List Piece)
part params (says s) = ok (map Piece.lit s)
part params (param key) = do v ← or_raise (get key params) key_error; ok (plain (shown v) ∷ [])
part params (param_in_quotes key) = do
  v ← or_raise (get key params) key_error
  ok (lit 39 ∷ enclosed (shown v) ∷ lit 39 ∷ [])
part params (given s) = ok (plain s ∷ [])

unfoldable pub line : Dict Value → List Part → Outcome (List Piece)
line params [] = ok []
line params (p ∷ ps) = do here ← part params p; rest ← line params ps; ok (here ++ rest)

-- `" ".join(lines)`
abbrev pub joined : List (List Part) → List Part
joined [] = []
joined (l ∷ []) = l
joined (l ∷ m ∷ ls) = l ++ says (codes " ") ∷ joined (m ∷ ls)
