-- ===== src/Text/Shell/Values.antt =====
-- A template is read as the machine of its pieces reads it, whatever fit values it has.
use mathlib.Core.Path.{subst}
use reckon_k8s.Prelude.{
  ℕ, ◌==◌, ◌&&◌, not, ◌≡◌, refl, ap, ◌∙◌, sym, false, List, [], ◌∷◌, ◌++◌, some, All, All-append,
  append_assoc, append-nil, Bool-cases, Option-cases, inl, inr, map, arith,
}
use reckon_k8s.Outcome.{ok}
use reckon_k8s.Text.{Text}
use reckon_k8s.Text.Split.{Lacks}
use reckon_k8s.Text.Shell.{
  Lexer, Mode, read, read_all, in_text, split, finish, is_space, is_empty, quote_mark, apostrophe,
  backslash, IsPlain, end_word,
}
use reckon_k8s.Text.Shell.Template.{
  Piece, lit, plain, enclosed, text_of, flatten, IsFit, Reading, is_nil, end_of_word, append_piece,
  read_text, read_piece, begin, read_pieces, finish_pieces, split_pieces,
}

abbrev lexer_of : Reading → Lexer
lexer_of r = record {
  words = map flatten r.words;
  token = flatten r.token;
  quoted = r.quoted;
  mode = r.mode;
}

flatten-append : (ps qs : List Piece) → flatten (ps ++ qs) ≡ flatten ps ++ flatten qs
flatten-append [] qs = refl
flatten-append (p ∷ ps) qs =
    ap (λ t. text_of p ++ t) (flatten-append ps qs) ∙ rw (append_assoc (text_of p)) refl

map-flatten-append :
    (ws : List (List Piece)) (w : List Piece)
    → map flatten (ws ++ w ∷ []) ≡ map flatten ws ++ flatten w ∷ []
map-flatten-append [] w = refl
map-flatten-append (x ∷ ws) w = ap (λ l. flatten x ∷ l) (map-flatten-append ws w)

is_empty-append : (s t : Text) → is_empty s ≡ false → is_empty (s ++ t) ≡ false
is_empty-append [] t e = cc
is_empty-append (c ∷ s) t e = refl

is_empty-flatten : (ps : List Piece) → All IsFit ps → is_empty (flatten ps) ≡ is_nil ps
is_empty-flatten [] h = refl
is_empty-flatten (lit c ∷ ps) h = refl
is_empty-flatten (plain v ∷ ps) h = is_empty-append v (flatten ps) h.0.1
is_empty-flatten (enclosed v ∷ ps) h = is_empty-append v (flatten ps) h.0.1

some-injective : {A : Type 0} {a b : A} → some a ≡ some b → a ≡ b
some-injective e = cc

-- The machines agree, and what has been read stays fit.
abbrev Agrees : Lexer → Reading → Type 0
Agrees l r = (l ≡ lexer_of r) × All IsFit r.token

flatten-lit : (ps : List Piece) (c : ℕ) → flatten ps ++ c ∷ [] ≡ flatten (ps ++ lit c ∷ [])
flatten-lit ps c = sym (flatten-append ps (lit c ∷ []))

appended :
    (r : Reading) (c : ℕ) (m : Mode)
    → All IsFit r.token
    → Agrees
        (record (lexer_of r) { token = flatten r.token ++ c ∷ []; mode = m })
        (append_piece r (lit c) m)
appended r c m h = (
  ap (λ t. record (lexer_of r) { token = t; mode = m }) (flatten-lit r.token c),
  All-append IsFit r.token (lit c ∷ []) h (tt, tt),
)

in_text-read_text :
    (r r' : Reading) (c : ℕ)
    → read_text r c ≡ some r'
    → All IsFit r.token
    → Agrees (in_text (lexer_of r) c) r'
in_text-read_text r r' c e h = elim (Bool-cases (c == quote_mark)) [
  | inl q ↦ cc (rw q at e)
  | inr n ↦ elim (Bool-cases (c == apostrophe)) [
    | inl a ↦
        let same = some-injective (rw (n, a) at e) in
        subst (λ x. Agrees (in_text (lexer_of r) c) x) same (rw (n, a) ((refl, h)))
    | inr m ↦ elim (Bool-cases (c == backslash)) [
      | inl b ↦ cc (rw (n, m, b) at e)
      | inr k ↦
          let same = some-injective (rw (n, m, k) at e) in
          subst (λ x. Agrees (in_text (lexer_of r) c) x) same
            (rw (n, m, k) (appended r c Mode.in_word h))
    ]
  ]
]

end_word-end_of_word :
    (r : Reading) → All IsFit r.token → Agrees (end_word (lexer_of r)) (end_of_word r)
end_word-end_of_word r h =
    let same = is_empty-flatten r.token h in
    elim (Bool-cases (is_nil r.token && not r.quoted)) [
      | inl e ↦ rw (same, e) ((refl, h))
      | inr n ↦
          rw (same, n)
            (
              ap (λ l. record { words = l; token = []; quoted = false; mode = Mode.between })
                  (sym (map-flatten-append r.words r.token)),
              tt,
            )
    ]

pub read_all-plain :
    (l : Lexer) (s rest : Text)
    → IsPlain s
    → read_all (record l { mode = Mode.in_word }) (s ++ rest)
      ≡ read_all (record l { token = l.token ++ s; mode = Mode.in_word }) rest
unfolding read_all
read_all-plain l [] rest h = rw append-nil refl
read_all-plain l (c ∷ s) rest h =
    let next : Lexer = record l { token = l.token ++ c ∷ []; mode = Mode.in_word } in
    let one : read Mode.in_word (record l { mode = Mode.in_word }) c ≡ next = ground (arith, h.0) in
    ap (λ x. read_all x (s ++ rest)) one
    ∙ read_all-plain next s rest h.1
    ∙ ap (λ t. read_all (record l { token = t; mode = Mode.in_word }) rest)
        (append_assoc l.token (c ∷ []) s)

read_all-between :
    (l : Lexer) (s rest : Text)
    → IsPlain s
    → is_empty s ≡ false
    → read_all (record l { mode = Mode.between }) (s ++ rest)
      ≡ read_all (record l { token = l.token ++ s; mode = Mode.in_word }) rest
unfolding read_all
read_all-between l [] rest h e = cc
read_all-between l (c ∷ s) rest h e =
    let one : read Mode.between (record l { mode = Mode.between }) c
        ≡ read Mode.in_word (record l { mode = Mode.in_word }) c =
      ground (arith, h.0) in
    ap (λ x. read_all x (s ++ rest)) one ∙ read_all-plain l (c ∷ s) rest h

read_all-enclosed :
    (l : Lexer) (s rest : Text)
    → Lacks apostrophe s
    → read_all (record l { mode = Mode.in_apostrophes }) (s ++ rest)
      ≡ read_all (record l { token = l.token ++ s; mode = Mode.in_apostrophes }) rest
unfolding read_all
read_all-enclosed l [] rest h = rw append-nil refl
read_all-enclosed l (c ∷ s) rest h =
    let next : Lexer = record l { token = l.token ++ c ∷ []; mode = Mode.in_apostrophes } in
    let one : read Mode.in_apostrophes (record l { mode = Mode.in_apostrophes }) c ≡ next =
      ground (arith, h.0) in
    ap (λ x. read_all x (s ++ rest)) one
    ∙ read_all-enclosed next s rest h.1
    ∙ ap (λ t. read_all (record l { token = t; mode = Mode.in_apostrophes }) rest)
        (append_assoc l.token (c ∷ []) s)

-- The rest of the text is read from where the piece is read to.
abbrev Follows : Mode → Reading → Piece → Reading → Type 0
Follows m r p r' =
    ((rest : Text)
      → read_all (lexer_of (record r { mode = m })) (text_of p ++ rest)
        ≡ read_all (lexer_of r') rest)
    × All IsFit r'.token

with_value :
    (m m' : Mode) (r : Reading) (p : Piece)
    → ((rest : Text)
        → read_all (record (lexer_of r) { mode = m }) (text_of p ++ rest)
          ≡ read_all (record (lexer_of r) { token = flatten r.token ++ text_of p; mode = m' }) rest)
    → IsFit p
    → All IsFit r.token
    → Follows m r p (append_piece r p m')
with_value m m' r p reads fit h = (
  λ rest.
      reads rest
      ∙ ap (λ t. read_all (record (lexer_of r) { token = t; mode = m' }) rest)
          (ap (λ t. flatten r.token ++ t) (sym (append-nil (text_of p)))
            ∙ sym (flatten-append r.token (p ∷ []))),
  All-append IsFit r.token (p ∷ []) h (fit, tt),
)

read_piece-Follows :
    (m : Mode) (r r' : Reading) (p : Piece)
    → read_piece m (record r { mode = m }) p ≡ some r'
    → IsFit p
    → All IsFit r.token
    → Follows m r p r'
unfolding read_all
read_piece-Follows Mode.between r r' (lit c) e fit h = elim (Bool-cases (is_space c)) [
  | inl space ↦
      subst (Follows Mode.between r (lit c)) (some-injective (rw space at e))
        (λ rest. rw space refl, h)
  | inr n ↦
      let agree = in_text-read_text (record r { mode = Mode.between }) r' c (rw n at e) h in
      (λ rest. rw n (ap (λ l. read_all l rest) agree.0), agree.1)
]
read_piece-Follows Mode.between r r' (plain v) e fit h =
    subst (Follows Mode.between r (plain v)) (some-injective e) (
      with_value Mode.between Mode.in_word r (plain v)
        (λ rest. read_all-between (lexer_of r) v rest fit.0 fit.1) fit h)
read_piece-Follows Mode.in_word r r' (lit c) e fit h = elim (Bool-cases (is_space c)) [
  | inl space ↦
      let agree = end_word-end_of_word (record r { mode = Mode.in_word }) h in
      subst (Follows Mode.in_word r (lit c)) (some-injective (rw space at e))
        (λ rest. rw space (ap (λ l. read_all l rest) agree.0), agree.1)
  | inr n ↦
      let agree = in_text-read_text (record r { mode = Mode.in_word }) r' c (rw n at e) h in
      (λ rest. rw n (ap (λ l. read_all l rest) agree.0), agree.1)
]
read_piece-Follows Mode.in_word r r' (plain v) e fit h =
    subst (Follows Mode.in_word r (plain v)) (some-injective e) (
      with_value Mode.in_word Mode.in_word r (plain v)
        (λ rest. read_all-plain (lexer_of r) v rest fit.0) fit h)
read_piece-Follows Mode.in_apostrophes r r' (lit c) e fit h = elim (Bool-cases (c == apostrophe)) [
  | inl close ↦
      subst (Follows Mode.in_apostrophes r (lit c)) (some-injective (rw close at e))
        (λ rest. rw close refl, h)
  | inr n ↦
      let agree = appended (record r { mode = Mode.in_apostrophes }) c Mode.in_apostrophes h in
      subst (Follows Mode.in_apostrophes r (lit c)) (some-injective (rw n at e))
        (λ rest. rw n (ap (λ l. read_all l rest) agree.0), agree.1)
]
read_piece-Follows Mode.in_apostrophes r r' (enclosed v) e fit h =
    subst (Follows Mode.in_apostrophes r (enclosed v)) (some-injective e) (
      with_value Mode.in_apostrophes Mode.in_apostrophes r (enclosed v)
        (λ rest. read_all-enclosed (lexer_of r) v rest fit.0) fit h)
read_piece-Follows m r r' p e fit h = cc

read_pieces-lexer :
    (ps : List Piece) (r r' : Reading)
    → read_pieces r ps ≡ some r'
    → All IsFit ps
    → All IsFit r.token
    → (read_all (lexer_of r) (flatten ps) ≡ lexer_of r') × All IsFit r'.token
unfolding read_all
read_pieces-lexer [] r r' e fit h =
    let same = some-injective e in
    subst (λ x. (lexer_of r ≡ lexer_of x) × All IsFit x.token) same (refl, h)
read_pieces-lexer (p ∷ ps) r r' e fit h = elim (Option-cases (read_piece r.mode r p)) [
  | inl n ↦ cc (rw n at e)
  | inr (q, s) ↦
      let (one, kept) = read_piece-Follows r.mode r q p s fit.0 h in
      let (all, left) = read_pieces-lexer ps q r' (rw s at e) fit.1 kept in
      (one (flatten ps) ∙ all, left)
]

finish-lexer :
    (r : Reading) (ws : List (List Piece))
    → finish_pieces (some r) ≡ some ws
    → All IsFit r.token
    → finish r.mode (lexer_of r) ≡ ok (map flatten ws)
finish-lexer r ws e h = at_mode r.mode e
  where
    at_mode :
        (m : Mode)
        → finish_pieces (some (record r { mode = m })) ≡ some ws
        → finish m (lexer_of (record r { mode = m })) ≡ ok (map flatten ws)
    at_mode Mode.between e = ap (λ l. ok (map flatten l)) (some-injective e)
    at_mode Mode.in_word e =
        ap (λ l. ok l.words) (end_word-end_of_word (record r { mode = Mode.in_word }) h).0
        ∙ ap (λ l. ok (map flatten l)) (some-injective e)
    at_mode Mode.in_quotes e = cc
    at_mode Mode.in_apostrophes e = cc
    at_mode Mode.escaped e = cc
    at_mode Mode.escaped_in_quotes e = cc

-- With fit values, a template is split into the words that the machine of its pieces finds, whole.
pub split-flatten :
    (ps : List Piece) (ws : List (List Piece))
    → split_pieces ps ≡ some ws
    → All IsFit ps
    → split (flatten ps) ≡ ok (map flatten ws)
unfolding split
split-flatten ps ws e fit = elim (Option-cases (read_pieces begin ps)) [
  | inl n ↦ cc (rw n at e)
  | inr (r, s) ↦
      let (lexed, left) = read_pieces-lexer ps begin r s fit tt in
      ap (λ l. finish l.mode l) lexed ∙ finish-lexer r ws (rw s at e) left
]
