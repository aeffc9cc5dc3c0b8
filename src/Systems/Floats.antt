-- ===== src/Systems/Floats.antt =====
-- The floating-point numbers of Python, which are a parameter: the operations that the systems use.
use reckon_k8s.Prelude.{ℕ}
use reckon_k8s.Text.{Text}

pub record Floats (F : Type 0) : Type 0 where
  -- The number closest to a quotient, for a literal such as 0.01.
  pub of_ratio : ℕ → ℕ → F
  pub times : F → F → F
  pub divided_by : F → F → F
  -- `int(x)`
  pub truncated : F → ℕ
  -- `str(x)`
  pub shown : F → Text
