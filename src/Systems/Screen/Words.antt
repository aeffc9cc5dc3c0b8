-- ===== src/Systems/Screen/Words.antt =====
-- The words that the screens are started and killed with.
use reckon_k8s.Prelude.{
  ℕ, ◌==◌, Bool, true, false, ◌≡◌, refl, List, [], ◌∷◌, ◌++◌, append_assoc, append-nil, Bool-cases,
  ==_iff, inl, inr, ap, ◌∙◌,
}
use reckon_k8s.Outcome.{ok}
use reckon_k8s.Text.{Text, codes}
use reckon_k8s.Text.Shell.{
  IsPlain, Lexer, Mode, read, read_all, split, finish, quote_mark, backslash,
}
use reckon_k8s.Text.Shell.Values.{read_all-plain}
use reckon_k8s.Cluster.{Node}
use reckon_k8s.Systems.Screen.{
  Act, popen, cmd, get_node_tag, escape, quoted, screen_cmd, start_screen, kill_screen,
}

in_state : List Text → Text → Bool → Mode → Lexer
in_state words token quoted mode = record {
  words = words;
  token = token;
  quoted = quoted;
  mode = mode;
}

read-plain :
    (words : List Text) (token : Text) (q : Bool) (s rest : Text)
    → IsPlain s
    → read_all (in_state words token q Mode.in_word) (s ++ rest)
      ≡ read_all (in_state words (token ++ s) q Mode.in_word) rest
unfolding in_state
read-plain words token q s rest h = read_all-plain (in_state words token q Mode.in_word) s rest h

read-escape :
    (words : List Text) (token : Text) (q : Bool) (c : ℕ) (rest : Text)
    → read_all (in_state words token q Mode.in_quotes) (escape c ++ rest)
      ≡ read_all (in_state words (token ++ c ∷ []) q Mode.in_quotes) rest
unfolding read_all in_state
read-escape words token q c rest = elim (Bool-cases (c == backslash)) [
  | inl e ↦ rw ((==_iff c backslash).0 e) refl
  | inr n ↦ elim (Bool-cases (c == quote_mark)) [
    | inl e ↦ rw ((==_iff c quote_mark).0 e) refl
    | inr m ↦ rw (n, m) (rw (m, n, read) refl)
  ]
]

read-quoted :
    (words : List Text) (token : Text) (q : Bool) (s rest : Text)
    → read_all (in_state words token q Mode.in_quotes) (quoted s ++ rest)
      ≡ read_all (in_state words (token ++ s) q Mode.in_quotes) rest
unfolding quoted
read-quoted words token q [] rest = rw append-nil refl
read-quoted words token q (c ∷ s) rest =
    ap (λ t. read_all (in_state words token q Mode.in_quotes) t) (append_assoc (escape c) _ rest)
    ∙ read-escape words token q c (quoted s ++ rest)
    ∙ read-quoted words (token ++ c ∷ []) q s rest
    ∙ ap (λ t. read_all (in_state words t q Mode.in_quotes) rest) (append_assoc token (c ∷ []) s)

-- A word with quotes is kept when it is empty, too.
end-quoted :
    (words : List Text) (command : Text)
    → finish Mode.in_word (in_state words command true Mode.in_word) ≡ ok (words ++ command ∷ [])
unfolding in_state
end-quoted words [] = refl
end-quoted words (c ∷ s) = refl

screen_words : Text → Text → List Text
screen_words tag command =
    codes "screen" ∷ codes "-dmS" ∷ tag ∷ codes "bash" ∷ codes "-c" ∷ command ∷ []

split-screen_cmd :
    (host : Node) (command : Text)
    → IsPlain host.name
    → split (screen_cmd (get_node_tag host) command) ≡ ok (screen_words (get_node_tag host) command)
unfolding split screen_cmd screen_words in_state quoted read_all
split-screen_cmd host command h =
    let rest : Text = quoted command ++ quote_mark ∷ [] in
    let name_read =
      read-plain (codes "screen" ∷ codes "-dmS" ∷ []) (codes "node_") false host.name
        (codes " bash -c " ++ quote_mark ∷ rest) h in
    let words : List Text =
      codes "screen" ∷ codes "-dmS" ∷ get_node_tag host ∷ codes "bash" ∷ codes "-c" ∷ [] in
    let command_read = read-quoted words [] true command (quote_mark ∷ []) in
    ap (λ l. finish l.mode l) (name_read ∙ command_read) ∙ end-quoted words command

split-kill_cmd :
    (host : Node)
    → IsPlain host.name
    → split (codes "screen -X -S " ++ (get_node_tag host ++ codes " quit"))
      ≡ ok (codes "screen" ∷ codes "-X" ∷ codes "-S" ∷ get_node_tag host ∷ codes "quit" ∷ [])
unfolding split in_state read_all
split-kill_cmd host h =
    ap (λ l. finish l.mode l)
      (read-plain (codes "screen" ∷ codes "-X" ∷ codes "-S" ∷ []) (codes "node_") false host.name
        (codes " quit") h)

-- The session that a host runs in.
abbrev pub started : Node → Text → Act
started host command =
    popen host
      (codes "screen" ∷ codes "-dmS" ∷ get_node_tag host ∷ codes "bash" ∷ codes "-c" ∷ command ∷ [])

abbrev pub killed : Node → Act
killed host =
    cmd host (codes "screen" ∷ codes "-X" ∷ codes "-S" ∷ get_node_tag host ∷ codes "quit" ∷ [])

-- For a host whose name has no character that is special to a shell, every command at all, with
-- its spaces, quotes and backslashes, arrives whole as the one argument of `bash -c`, in a session
-- under the tag of the host, and `kill_screen` quits the session of that tag.
pub start_screen_lem :
    (host : Node) (command : Text)
    → IsPlain host.name
    → (start_screen host command ≡ ok (started host command))
      × (kill_screen host ≡ ok (killed host))
unfolding start_screen kill_screen screen_words
start_screen_lem host command h =
    (rw (split-screen_cmd host command h) refl, rw (split-kill_cmd host h) refl)
