-- ===== src/Systems/Screen.antt =====
-- What every system shares, `class AbstractSystem` of reckon/reckon_types.py: the names of its
-- processes, the logging added to a command, and the screens that its nodes run in.
pub mod Words
use reckon_k8s.Prelude.{ℕ, Bool, true, false, List, [], ◌∷◌, ◌++◌, ◌==◌, if◌then◌else◌}
use reckon_k8s.Outcome.{Outcome, ok, ◌>>=◌}
use reckon_k8s.Text.{Text, codes}
use reckon_k8s.Text.Shell.{split, backslash, quote_mark}
use reckon_k8s.Cluster.{Node}

-- The attributes that the commands use; `F` stands for the floating-point numbers.
pub record Settings (F : Type 0) : Type 0 where
  pub log_location : Text
  pub creation_time : Text
  pub data_dir : Text
  pub failure_timeout : F
  pub delay_interval : F

-- What is done to the hosts and to the machine that they run on: `host.popen(args)`,
-- `host.cmd(args)`, `host.popen(cmd, shell=True)` for a client, `subprocess.run(cmd, shell=True)`
-- and the writing of a file.
pub data Act : Type 0 where
  popen cmd : Node → List Text → Act
  client : Node → Text → Act
  run : Text → Act
  write_file : Text → Text → Act

abbrev pub get_client_tag : Node → Text
get_client_tag host = codes "mc_" ++ host.name

abbrev pub get_node_tag : Node → Text
get_node_tag host = codes "node_" ++ host.name

abbrev pub escape : ℕ → Text
escape c =
    if c == backslash
    then backslash ∷ backslash ∷ []
    else if c == quote_mark
    then backslash ∷ quote_mark ∷ []
    else c ∷ []

-- `command.translate(...)`
unfoldable pub quoted : Text → Text
quoted [] = []
quoted (c ∷ s) = escape c ++ quoted s

-- `'screen -dmS {tag} bash -c "{command}"'`
unfoldable pub screen_cmd : Text → Text → Text
screen_cmd tag command =
    codes "screen -dmS "
    ++ (tag ++ (codes " bash -c " ++ (quote_mark ∷ (quoted command ++ quote_mark ∷ []))))

unfoldable pub start_screen : Node → Text → Outcome Act
start_screen host command = do
  args ← split (screen_cmd (get_node_tag host) command)
  ok (popen host args)

unfoldable pub kill_screen : Node → Outcome Act
kill_screen host = do
  args ← split (codes "screen -X -S " ++ (get_node_tag host ++ codes " quit"))
  ok (cmd host args)

-- `{log}/{time}_{tag}` with an ending.
abbrev pub log_file : {F : Type 0} → Settings F → Text → Text → Text
log_file self tag ending =
    self.log_location ++ (codes "/" ++ (self.creation_time ++ (codes "_" ++ (tag ++ ending))))

module _ {F : Type 0} (self : Settings F) where
  unfoldable pub add_stderr_logging : Text → Text → Text
  add_stderr_logging command tag = command ++ (codes " 2> " ++ log_file self tag (codes ".err"))

  unfoldable pub add_stdout_logging : Text → Text → (verbose : Bool) → Text
  add_stdout_logging command tag verbose =
      command
      ++ ((if verbose then codes " | tee " else codes " > ") ++ log_file self tag (codes ".out"))
