-- ===== src/Systems/Ocons/Logs.antt =====
-- `get_leader_term` of reckon/systems/ocons/__init__.py, which searches the log of a host, and the leader
-- that `get_leader` finds by it. Logs are taken to be ASCII; what a host replies to `grep` is a parameter.
pub mod Entries
pub mod Terms
use reckon_k8s.Prelude.{
  ℕ, ◌+◌, ◌==◌, Bool, true, false, ◌&&◌, ◌||◌, List, [], ◌∷◌, ◌++◌, map, Option, none, some, ltb,
  leb, if◌then◌else◌,
}
use reckon_k8s.Outcome.{Outcome}
use reckon_k8s.Text.{Text, codes}
use reckon_k8s.Text.Decimal.{read, is_digit}
use reckon_k8s.Cluster.{Node}
use reckon_k8s.Systems.Screen.{Settings, get_node_tag}
use reckon_k8s.Systems.Ocons.{get_leader}

-- `re.IGNORECASE`
abbrev pub lower : ℕ → ℕ
lower c = if leb b'A' c && leb c b'Z' then c + 32 else c

-- What follows the pattern at the start of a text.
abbrev pub after : Text → Text → Option Text
after [] s = some s
after (p ∷ ps) [] = none
after (p ∷ ps) (c ∷ s) = let rest = after ps s in if p == lower c then rest else none

-- `(\d+)`
abbrev pub digits_of : Text → Text
digits_of [] = []
digits_of (c ∷ s) = let rest = digits_of s in if is_digit c then c ∷ rest else []

-- `int(match.group(1))`
abbrev pub as_number : Text → Option ℕ
as_number [] = none
as_number (d ∷ ds) = some (read 0 (d ∷ ds))

abbrev pub phrase : Text
phrase = codes "leader for term "

abbrev pub number_in : Option Text → Option ℕ
number_in none = none
number_in (some rest) = as_number (digits_of rest)

abbrev pub or_else : Option ℕ → Option ℕ → Option ℕ
or_else none o = o
or_else (some n) o = some n

-- `re.search('leader for term (\\d+)', line, re.IGNORECASE)`
unfoldable pub search_term : Text → Option ℕ
search_term [] = none
search_term (c ∷ s) = let rest = search_term s in or_else (number_in (after phrase (c ∷ s))) rest

-- The characters that end a line.
abbrev pub is_break : ℕ → Bool
is_break c = leb 10 c && leb c 13 || (leb 28 c && leb c 30)

abbrev pub last_line : Text → List Text
last_line [] = []
last_line (c ∷ s) = (c ∷ s) ∷ []

-- `log.splitlines()`, with what is read of a line; a line feed after a carriage return ends no line.
unfoldable pub lines_from : (after_return : Bool) → Text → Text → List Text
lines_from r line [] = last_line line
lines_from r line (c ∷ s) = elim (r && (c == 10)) [
  | true ↦ lines_from false line s
  | false ↦ elim (is_break c) [
    | true ↦ line ∷ lines_from (c == 13) [] s
    | false ↦ lines_from false (line ++ c ∷ []) s
  ]
]

-- `mterm`, where `none` is -1, and a match.
abbrev pub later_term : Option ℕ → Option ℕ → Option ℕ
later_term mterm none = mterm
later_term none (some n) = some n
later_term (some m) (some n) = some (if ltb m n then n else m)

unfoldable pub last_term : Option ℕ → List Text → Option ℕ
last_term mterm [] = mterm
last_term mterm (l ∷ ls) = last_term (later_term mterm (search_term l)) ls

-- `get_leader_term`, of the reply.
unfoldable pub get_leader_term : Text → Option ℕ
get_leader_term log = last_term none (lines_from false [] log)

-- The command that a host is given.
abbrev pub grep_cmd : {F : Type 0} → Settings F → Node → Text
grep_cmd self host =
    codes "grep -i 'leader for term' "
    ++ (self.log_location
        ++ (codes "/"
            ++ (self.creation_time ++ (codes "_" ++ (get_node_tag host ++ codes ".err")))))

-- `get_leader`, with the term of the leader.
unfoldable pub leader :
    {F : Type 0} → Settings F → (reply : Node → Text → Text) → List Node → Outcome (Node × ℕ)
leader self reply cluster =
    get_leader (map (λ h. (h, get_leader_term (reply h (grep_cmd self h)))) cluster)
