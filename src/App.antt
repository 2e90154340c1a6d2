-- ===== src/App.antt =====
-- main.go and app/root.go: the root command with its flags and subcommands, and the configuration file that is read
-- before a command runs. The packages cobra and viper and os.UserHomeDir are arguments.
pub mod Laws
use kluster_capacity.Base.{
  ℕ, String, ◌<>◌, ◌++◌, false, List, [], ◌∷◌, ◌==◌, if◌then◌else◌, Option, none, some,
}
use kluster_capacity.Base.Monad.{
  Result, ok, err, panic, stuck, Action, ◌>>=◌, ◌>>◌, modify, pure, lift,
}
use kluster_capacity.StopReason.{newline}
use kluster_capacity.Print.{Output}
use kluster_capacity.Commands.{Flag, flag, flag_p, string_var, bool_var}
use kluster_capacity.Version.{Build, Runtime, run_version}

abbrev pub program : String
program = "kluster-capacity"

-- `cfgFile`, the variable of the flag config.
pub record RootOptions : Type 0 where
  pub cfg_file : String

-- viper, with its own state, and os.UserHomeDir.
pub record Viper : Type 1 where
  pub State : Type 0
  pub set_config_file : String → State → State
  pub add_config_path : String → State → State
  pub set_config_type : String → State → State
  pub set_config_name : String → State → State
  pub automatic_env : State → State
  pub read_in_config : State → Result State
  pub config_file_used : State → String
  pub user_home_dir : Result String

-- What a process changes: the state of viper and what it has printed to its two outputs.
pub record Process (V : Type 0) : Type 0 where
  pub viper : V
  pub stdout : Output
  pub stderr : Output

-- The flags of the root command. Nothing reads the value of `toggle`.
unfoldable pub root_flags : List (Flag RootOptions)
root_flags =
    flag "config" (string_var "" (λ v o. record o { cfg_file = v }))
    ∷ flag_p "toggle" "t" (bool_var false (λ v o. o))
    ∷ []

-- A subcommand, after its flags have been parsed.
pub record Command : Type 0 where
  pub use_line : String
  pub run : Action Output (Unit {0})

unfoldable pub subcommands : (ce ss cc : Command) → Build → Runtime → List Command
unfolding run_version
subcommands ce ss cc build runtime =
    ce ∷ ss ∷ cc ∷ record { use_line = "version"; run = run_version build runtime program } ∷ []

module _ (v : Viper) where
  open v use {
    State, set_config_file, add_config_path, set_config_type, set_config_name, automatic_env,
    read_in_config, config_file_used, user_home_dir,
  }

  abbrev pub on_viper : (State → State) → Action (Process State) (Unit {0})
  on_viper f = modify (λ p. record p { viper = f p.viper })

  abbrev pub tell : String → Process State → Process State
  tell text p = record p { stderr = p.stderr ++ (text <> newline) ∷ [] }

  -- The error with which cobra.CheckErr ends the process is the outcome: it is printed, and nothing catches it.
  abbrev pub check_err : Result String → Action (Process State) String
  check_err (err m) p = (err m, tell ("Error: " <> m) p)
  check_err r p = (r, p)

  abbrev pub search_in : String → State → State
  search_in home s =
      set_config_name ".kluster-capacity" (set_config_type "yaml" (add_config_path home s))

  unfoldable pub locate : String → Action (Process State) (Unit {0})
  locate cfg_file =
      if cfg_file == ""
      then (check_err user_home_dir >>= λ home. on_viper (search_in home))
      else on_viper (set_config_file cfg_file)

  -- A file that cannot be read is no error.
  abbrev pub read_result : Result State → Process State → Result (Unit {0}) × Process State
  read_result (ok s) p =
      (ok tt, tell ("Using config file: " <> config_file_used s) (record p { viper = s }))
  read_result (err m) p = (ok tt, p)
  read_result panic p = (panic, p)
  read_result stuck p = (stuck, p)

  abbrev pub read_config : Action (Process State) (Unit {0})
  read_config p = read_result (read_in_config p.viper) p

  unfoldable pub init_config : (cfg_file : String) → Action (Process State) (Unit {0})
  unfolding locate
  init_config cfg_file = locate cfg_file >> (on_viper automatic_env >> read_config)

  -- `cobra` is Command.Execute, of what is called before a command runs, the subcommands and the options. The exit code
  -- of a process that panics is 2.
  abbrev pub exit_code : Result (Unit {0}) → Option ℕ
  exit_code (ok u) = some 0
  exit_code (err m) = some 1
  exit_code panic = some 2
  exit_code stuck = none

  unfoldable pub execute :
      (cobra : (String → Action (Process State) (Unit {0}))
        → List (Flag RootOptions)
        → List Command
        → Action (Process State) (Unit {0}))
      → List Command
      → Process State
      → Option ℕ × Process State
  unfolding init_config root_flags
  execute cobra commands p =
      let (r, p') = cobra init_config root_flags commands p in (exit_code r, p')
