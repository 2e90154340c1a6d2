-- ===== src/Version.antt =====
-- pkg/version: the version of the binary, and the command that prints it. What the Go runtime says of itself is an
-- argument, and so are the variables that a build may set.
use kluster_capacity.Base.{String, ◌<>◌}
use kluster_capacity.Base.Monad.{Action}
use kluster_capacity.StopReason.{newline}
use kluster_capacity.Print.{Output, print}

-- The variables of base.go, which `go build` may replace.
pub record Build : Type 0 where
  pub git_version : String
  pub git_commit : String
  pub git_tree_state : String
  pub build_date : String

abbrev pub fallback : Build
fallback = record {
  git_version = "v0.0.0-master";
  git_commit = "unknown";
  git_tree_state = "unknown";
  build_date = "unknown";
}

-- runtime.Version, runtime.Compiler, runtime.GOOS and runtime.GOARCH, and the quotes of the verb %#v.
pub record Runtime : Type 0 where
  pub version : String
  pub compiler : String
  pub goos : String
  pub goarch : String
  pub quote : String → String

pub record Info : Type 0 where
  pub git_version : String
  pub git_commit : String
  pub git_tree_state : String
  pub build_date : String
  pub go_version : String
  pub compiler : String
  pub platform : String

-- version.Get
unfoldable pub get_info : Build → Runtime → Info
get_info build runtime = record {
  git_version = build.git_version;
  git_commit = build.git_commit;
  git_tree_state = build.git_tree_state;
  build_date = build.build_date;
  go_version = runtime.version;
  compiler = runtime.compiler;
  platform = runtime.goos <> ("/" <> runtime.goarch);
}

-- A field of a struct in the syntax of Go, and what follows it.
abbrev field : Runtime → (name value rest : String) → String
field runtime name value rest = name <> (":" <> (runtime.quote value <> rest))

-- Info.String
unfoldable pub info_string : Runtime → Info → String
info_string runtime info =
    let shown = field runtime in
    "version.Info{"
    <> shown "GitVersion" info.git_version (
        ", "
        <> shown "GitCommit" info.git_commit (
            ", "
            <> shown "GitTreeState" info.git_tree_state (
                ", "
                <> shown "BuildDate" info.build_date (
                    ", "
                    <> shown "GoVersion" info.go_version (
                        ", "
                        <> shown "Compiler" info.compiler
                            (", " <> shown "Platform" info.platform "}"))))))

-- The function run of NewCmdVersion.
unfoldable pub run_version : Build → Runtime → (parent_command : String) → Action Output (Unit {0})
unfolding get_info info_string
run_version build runtime parent_command =
    print (
      parent_command <> (" version: " <> (info_string runtime (get_info build runtime) <> newline)))
