-- ===== src/Experiments/Repro/Attempts.antt =====
-- What a run that is repeated comes to: its folders are made and the program is called.
use reckon_k8s.Prelude.{
  ℕ, ◌≡◌, refl, ap, sym, ◌∙◌, ◌⊎◌, inl, inr, Bool, true, false, List, [], ◌∷◌, ◌++◌, map, All, some,
  get_elem?, Bool-cases,
}
use reckon_k8s.Outcome.{
  Exception, Outcome, ok, raise, check, first_value, ok-injective, called_process_error, ◌>>=◌,
  ◌>>◌, system_exit,
}
use reckon_k8s.Text.{Text, codes}
use reckon_k8s.Text.Shell.Template.{Piece, lit, flatten}
use reckon_k8s.Text.Dict.{Dict}
use reckon_k8s.Experiments.Params.{Value, Part, text, shown, line, joined}
use reckon_k8s.Experiments.Kubetester.{Step, run}
use reckon_k8s.Experiments.Repro.{Config, removed_logs, or_exit, edge_lines}

-- The commands of a run: its folders are made, and then the program is called.
abbrev pub run_commands : (result_folder : Text) → List Piece → List Text
run_commands result pieces =
    (codes "mkdir -p " ++ result)
    ∷ (codes "mkdir -p " ++ (result ++ codes "logs"))
    ∷ flatten pieces
    ∷ []

flatten-lits : (s : Text) (ps : List Piece) → flatten (map lit s ++ ps) ≡ s ++ flatten ps
flatten-lits [] ps = refl
flatten-lits (c ∷ s) ps = ap (λ l. c ∷ l) (flatten-lits s ps)

line-says :
    (params : Dict Value) (s : Text) (ps : List Part) (pieces : List Piece)
    → line params (Part.says s ∷ ps) ≡ ok pieces
    → (rest : Text) × (flatten pieces ≡ s ++ rest)
unfolding line
line-says params s ps pieces e =
    let (rest, same, made) = first_value (λ r. ok (map lit s ++ r)) (line params ps) e in
    (flatten rest, ap flatten (sym (ok-injective same)) ∙ flatten-lits s rest)

-- The f-strings of the command of a run, filled in.
abbrev pub command_line : Config → (result_folder name spec : Text) → Outcome (List Piece)
command_line config result name spec =
    line config.attributes
      (joined (edge_lines (shown (text name)) (result ++ codes "logs") result (shown (text spec))))

module _ (succeeds : Text → Bool) where
  -- One of these commands fails.
  abbrev pub HasFailure : List Text → Type 0
  HasFailure cmds = (i : ℕ) × (cmd : Text) × (get_elem? cmds i ≡ some cmd) × (succeeds cmd ≡ false)

  abbrev pub AllSucceed : List Text → Type 0
  AllSucceed cmds = All (λ cmd. succeeds cmd ≡ true) cmds

  -- The command line cannot be filled in, or one of the commands fails.
  abbrev pub Breaks : (result_folder : Text) → Outcome (List Piece) → Type 0
  Breaks result asked =
      ((e : Exception) × (asked ≡ raise e))
      ⊎ ((pieces : List Piece) × (asked ≡ ok pieces) × HasFailure (run_commands result pieces))

  -- After `first` the commands are run, all with success, or the call raises and there is a reason.
  abbrev pub Attempted :
      List Step → (result_folder : Text) → Outcome (List Piece) → Outcome (List Step) → Type 0
  Attempted first result asked r =
      ((pieces : List Piece) × (asked ≡ ok pieces)
        × AllSucceed (run_commands result pieces)
        × (r ≡ ok (first ++ map run (run_commands result pieces))))
      ⊎ ((e : Exception) × (r ≡ raise e)) × Breaks result asked

  -- A run that is repeated, of this topology: it is attempted after the logs are removed, the last
  -- command calls the program, and where it breaks the script ends.
  abbrev pub Repeated : (result_folder : Text) → Outcome (List Piece) → Outcome (List Step) → Type 0
  Repeated result asked r =
      ((pieces : List Piece) × (asked ≡ ok pieces)
        × ((rest : Text) × (flatten pieces ≡ codes "python -m reckon " ++ rest))
        × AllSucceed (run_commands result pieces)
        × (r ≡ ok (run removed_logs ∷ map run (run_commands result pieces))))
      ⊎ (r ≡ raise system_exit) × Breaks result asked

  pub Attempted-Repeated :
      (config : Config) (result name spec : Text) (m : Outcome (List Step))
      → Attempted [] result (command_line config result name spec) m
      → Repeated result
          (command_line config result name spec)
          (or_exit m >>= λ steps. ok (run removed_logs ∷ steps))
  Attempted-Repeated config result name spec m (inl (pieces, asked, good, e)) =
      inl (pieces, asked, line-says config.attributes _ _ pieces asked, good, rw e refl)
  Attempted-Repeated config result name spec m (inr ((x, e), broken)) = inr (rw e refl, broken)

  -- Three checked commands.
  abbrev after_checks : (x y z : Text) → Outcome (List Step)
  after_checks x y z = do
    first ← (do check (succeeds x) called_process_error; ok (run x))
    second ← (do check (succeeds y) called_process_error; ok (run y))
    third ← (do check (succeeds z) called_process_error; ok (run z))
    ok (first ∷ second ∷ third ∷ [])

  after_checks_lem :
      (x y z : Text)
      → AllSucceed (x ∷ y ∷ z ∷ []) × (after_checks x y z ≡ ok (run x ∷ run y ∷ run z ∷ []))
        ⊎ ((e : Exception) × (after_checks x y z ≡ raise e)) × HasFailure (x ∷ y ∷ z ∷ [])
  after_checks_lem x y z = elim (Bool-cases (succeeds x)) [
    | inr a ↦ inr ((called_process_error, rw a refl), (0, x, refl, a))
    | inl a ↦ elim (Bool-cases (succeeds y)) [
      | inr b ↦ inr ((called_process_error, rw (a, b) refl), (1, y, refl, b))
      | inl b ↦ elim (Bool-cases (succeeds z)) [
        | inr c ↦ inr ((called_process_error, rw (a, b, c) refl), (2, z, refl, c))
        | inl c ↦ inl ((a, (b, (c, tt))), rw (a, b, c) refl)
      ]
    ]
  ]

  pub pieces-Attempted :
      (result : Text) (asked : Outcome (List Piece))
      → Attempted [] result asked (
          asked >>= λ pieces.
          after_checks
            (codes "mkdir -p " ++ result)
            (codes "mkdir -p " ++ (result ++ codes "logs"))
            (flatten pieces))
  pieces-Attempted result (raise e) = inr ((e, refl), inl (e, refl))
  pieces-Attempted result (ok pieces) =
      elim (after_checks_lem (codes "mkdir -p " ++ result)
        (codes "mkdir -p " ++ (result ++ codes "logs")) (flatten pieces)) [
          | inl (good, e) ↦ inl (pieces, refl, good, e)
          | inr (raised, failure) ↦ inr (raised, inr (pieces, refl, failure))
        ]
