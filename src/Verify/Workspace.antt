-- ===== src/Verify/Workspace.antt =====
-- Running a go subcommand in a workspace: `run` of internal/verify/workspace.go.
use go_cascade.Base.{
  str_eq, if◌then◌else◌, trim_space, ℕ, String, ◌<>◌, ◌⊎◌, Bool, ◌&&◌, Option, List, ◌∷◌, ◌++◌,
}
use go_cascade.Verify.Stages.{Static}
use go_cascade.Verify.Output.{TestEvent}

-- A child process, and what came of it.
pub record Spawn : Type 0 where
  pub argv : List String
  pub timeout : ℕ

pub record Process : Type 0 where
  pub printed : String
  pub error : Option String
  pub deadline : Bool
  pub duration : ℕ

pub record CmdResult : Type 0 where
  pub output : String
  pub duration : ℕ
  pub error : Option String
  pub timed_out : Bool

-- What the ladder relies on and does not implement. A process may do anything, also by what ran
-- before it in the workspace.
pub record Toolchain : Type 0 where
  pub go_bin : String
  pub exec_wrapper : List String
  pub spawn : List Spawn → Spawn → Process
  pub show_timeout : ℕ → String
  pub analyse : String → String ⊎ Static
  pub typecheck : String → Option String
  pub decode : String → Option TestEvent
  pub allocs : String → List (Option ℕ)
  pub show_number : ℕ → String

module _ (tc : Toolchain) where
  open tc use {go_bin, exec_wrapper, spawn, show_timeout}

  unfoldable pub argv_of : Bool → List String → List String
  argv_of sandbox args = if sandbox then exec_wrapper ++ (go_bin ∷ args) else go_bin ∷ args

  abbrev pub spawn_of : ℕ → Bool → List String → Spawn
  spawn_of timeout sandbox args = record { argv = argv_of sandbox args; timeout = timeout }

  unfoldable pub run : List Spawn → ℕ → Bool → List String → CmdResult
  run ran timeout sandbox args =
      let p = spawn ran (spawn_of timeout sandbox args) in
      let out = trim_space p.printed in
      record {
        output =
            if p.deadline && str_eq out "" then "timed out after " <> show_timeout timeout else out;
        duration = p.duration;
        error = p.error;
        timed_out = p.deadline;
      }
