-- ===== src/Main/Arguments.antt =====
-- The arguments and the file of a configuration: in reckon/__main__.py an argument that has its default
-- value takes the value of the file. Values and their equality are parameters.
use reckon_k8s.Prelude.{
  ◌≡◌, refl, ap, ◌∙◌, Bool, [], ◌∷◌, Option, none, some, Bool-cases, inl, inr, if◌then◌else◌,
}
use reckon_k8s.Outcome.{Exception, Outcome, ok, raise}
use reckon_k8s.Text.{Text, text_eq}
use reckon_k8s.Text.Decimal.{text_eq_iff}
use reckon_k8s.Text.Dict.{Dict, get, keys}

module _ {V : Type 0} (same : V → V → Bool) (get_default : Text → V) where
  -- The value of an attribute, from the one that the file has, if it has one.
  abbrev pub chosen : V → Text → Option V → V
  chosen value attr none = value
  chosen value attr (some of_file) = if same value (get_default attr) then of_file else value

  -- The loop over `vars(args).items()`.
  unfoldable pub overridden : (config : Dict V) → Dict V → Dict V
  overridden config [] = []
  overridden config ((attr, value) ∷ args) =
      (attr, chosen value attr (get attr config)) ∷ overridden config args

  -- The first `try` block: `Config.parse_file` may raise, after which the arguments stay.
  unfoldable pub load_config : Outcome (Dict V) → Dict V → Dict V
  load_config (raise e) args = args
  load_config (ok config) args = overridden config args

  -- An attribute of the result.
  abbrev of_args : Text → Dict V → Option V → Option V
  of_args attr config none = none
  of_args attr config (some value) = some (chosen value attr (get attr config))

  get-overridden :
      (config args : Dict V) (attr : Text)
      → get attr (overridden config args) ≡ of_args attr config (get attr args)
  unfolding overridden
  get-overridden config [] attr = refl
  get-overridden config ((k, v) ∷ args) attr = elim (Bool-cases (text_eq attr k)) [
    | inl e ↦ let at : attr ≡ k = (text_eq_iff attr k).0 e in rw (e, at) refl
    | inr n ↦ rw n (get-overridden config args attr)
  ]

  keys-overridden : (config args : Dict V) → keys (overridden config args) ≡ keys args
  unfolding overridden
  keys-overridden config [] = refl
  keys-overridden config ((k, v) ∷ args) = ap (λ l. k ∷ l) (keys-overridden config args)

  -- With a file that can be read, no argument is added or lost, and each argument that differs from its
  -- default value, or that the file does not have, stays; any other has the value of the file. Without
  -- such a file all arguments stay.
  pub get-load_config :
      (config args : Dict V)
      → (keys (load_config (ok config) args) ≡ keys args)
        × ((attr : Text) (value : V)
            → get attr args ≡ some value
            → get attr (load_config (ok config) args) ≡ some (chosen value attr (get attr config)))
        × ((e : Exception) → load_config (raise e) args ≡ args)
  unfolding load_config
  get-load_config config args = (
    keys-overridden config args,
    λ attr value has. get-overridden config args attr ∙ ap (of_args attr config) has,
    λ e. refl,
  )
