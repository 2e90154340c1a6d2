-- ===== src/Commands.antt =====
-- app/cmds: the options of the three commands and their flags.
pub mod Estimation
pub mod Simulation
pub mod Compression
pub mod Laws
mod Tests
use kluster_capacity.Base.{
  ℕ, String, ◌<>◌, Bool, true, false, List, [], ◌∷◌, ◌==◌, if◌then◌else◌, length,
}
use kluster_capacity.Base.Monad.{Result, ok, err, panic, stuck, Action}

-- cmds.Options. A limit below 1 is no limit, whatever its sign.
pub record Options : Type 0 where
  pub scheduler_config : String
  pub kube_config : String
  pub verbose : Bool
  pub output_format : String
  pub snapshot : String
  pub save_to : String
  pub exclude_nodes : List String
  pub max_limit : ℕ

-- `&Options{}`
abbrev pub no_options : Options
no_options = record {
  scheduler_config = "";
  kube_config = "";
  verbose = false;
  output_format = "";
  snapshot = "";
  save_to = "";
  exclude_nodes = [];
  max_limit = 0;
}

-- os.Getenv and filepath.Join.
pub record System : Type 0 where
  pub getenv : String → String
  pub join : String → String → String

abbrev pub default_path : System → String
default_path system =
    let config = system.getenv "KUBECONFIG" in
    if config == "" then system.join (system.getenv "HOME") ".kube/config" else config

-- Options.Default
unfoldable pub default : System → Options → Options
default system o = if o.kube_config == "" then record o { kube_config = default_path system } else o

-- A flag of pflag: the value that its registration gives to the option, and how a parsed value is stored. The
-- value of `var` keeps what it has, and reads its text itself.
pub data Target (O : Type 0) : Type 0 where
  string_var : String → (String → O → O) → Target O
  string_slice_var : List String → (List String → O → O) → Target O
  bool_var : Bool → (Bool → O → O) → Target O
  int_var : ℕ → (ℕ → O → O) → Target O
  var : (String → Action O (Unit {0})) → Target O

-- The shorthand of a flag without one is empty.
pub record Flag (O : Type 0) : Type 0 where
  pub name : String
  pub shorthand : String
  pub target : Target O

abbrev pub flag : {O : Type 0} → String → Target O → Flag O
flag name target = record { name = name; shorthand = ""; target = target }

abbrev pub flag_p : {O : Type 0} → String → String → Target O → Flag O
flag_p name shorthand target = record { name = name; shorthand = shorthand; target = target }

-- Registration stores the default of each flag.
abbrev pub stored : {O : Type 0} → Target O → O → O
stored (string_var value write) o = write value o
stored (string_slice_var value write) o = write value o
stored (bool_var value write) o = write value o
stored (int_var value write) o = write value o
stored (var read) o = o

abbrev pub registered : {O : Type 0} → List (Flag O) → O → O
registered [] o = o
registered (f ∷ fs) o = registered fs (stored f.target o)

-- The chain of the functions RunE: the options are completed and validated, and only then is the command run.
module _ {O S : Type 0} (system : System) (default_of : System → O → O)
    (validate : O → Result (Unit {0})) (run : O → Action S (Unit {0})) where
  abbrev run_valid : Result (Unit {0}) → O → Action S (Unit {0})
  run_valid (ok u) o s = run o s
  run_valid (err m) o s = (err m, s)
  run_valid panic o s = (panic, s)
  run_valid stuck o s = (stuck, s)

  unfoldable pub run_e : O → Action S (Unit {0})
  run_e o = let o' = default_of system o in run_valid (validate o') o'
