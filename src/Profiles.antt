-- ===== src/Profiles.antt =====
-- src/profiles: which policy a program gets (`mod.rs`, `ai_agents.rs`, and the declarations of
-- `npm.rs`). A program is its name in bytes; `$HOME`, canonicalized, and the working directory are
-- given, and missing where the source finds none.
pub mod Npm
pub mod Choice
use mathlib.Core.Option
use airgap.Prelude.{
  Bool, true, List, [], ◌∷◌, ◌++◌, Option, none, some, map, Bytes, codes, any, ◌==◌, list_eq,
  nat_eq, if◌then◌else◌,
}
use airgap.Std.FilePath.{FilePath, components, file_name, join, through_lossy}

-- How the program may access directories. The list is of the paths that its strings name.
pub data DirectoryAccess : Type 0 where
  allow_any : DirectoryAccess
  ask_allow_list : List FilePath → DirectoryAccess

-- The profiles, which are the types that have the trait `Profile`.
pub data Profile : Type 0 where
  ai_agent npm : Profile

abbrev pub npm_programs : List Bytes
npm_programs = codes "npm" ∷ codes "npx" ∷ codes "yarn" ∷ codes "pnpm" ∷ []

abbrev pub ai_agents : List Bytes
ai_agents = codes "opencode" ∷ codes "claude" ∷ []

unfoldable pub program_basename : Bytes → Bytes
program_basename program = Option.get_or (file_name (components program)) program

unfoldable pub is_npm : Bytes → Bool
unfolding program_basename
is_npm program = any (λ name. program_basename program == name) npm_programs

unfoldable pub is_ai_agent : Bytes → Bool
unfolding program_basename
is_ai_agent program = any (λ name. program_basename program == name) ai_agents

unfoldable pub home_paths : Option FilePath → List FilePath
home_paths none = []
home_paths (some home) =
    join home (components (codes ".npm/_logs"))
    ∷ join home (components (codes ".npm/_cacache"))
    ∷ join home (components (codes ".npm/_update-notifier-last-checked"))
    ∷ join home (components (codes ".gitconfig"))
    ∷ join home (components (codes ".npmrc"))
    ∷ []

unfoldable pub cwd_paths : Option FilePath → List FilePath
cwd_paths none = []
cwd_paths (some cwd) =
    join cwd (components (codes "node_modules"))
    ∷ join cwd (components (codes "package.json"))
    ∷ join cwd (components (codes "package-lock.json"))
    ∷ join cwd (components (codes ".npmrc"))
    ∷ []

-- `preapproved_paths`, with the way back from its strings to paths.
unfoldable pub preapproved_paths : Option FilePath → Option FilePath → List FilePath
unfolding home_paths cwd_paths
preapproved_paths home cwd = map through_lossy (home_paths home ++ cwd_paths cwd)

unfoldable pub redaction : Profile → Bool
redaction ai_agent = true
redaction npm = true

unfoldable pub directory_access : Option FilePath → Option FilePath → Profile → DirectoryAccess
directory_access home cwd ai_agent = allow_any
directory_access home cwd npm = ask_allow_list (preapproved_paths home cwd)

unfoldable pub resolve : Bytes → Option Profile
unfolding is_npm is_ai_agent
resolve program =
    if is_npm program then some npm else if is_ai_agent program then some ai_agent else none

unfoldable pub by_name : Bytes → Option Profile
by_name name =
    if name == codes "agent" then some ai_agent else if name == codes "npm" then some npm else none

unfoldable pub unrestricted : Profile
unrestricted = ai_agent

unfoldable pub permitted_programs : List Bytes
permitted_programs = ai_agents ++ npm_programs

-- The choice of `main`: the profile to run with, or the exit code of a refusal.
pub data Selection : Type 0 where
  run_with : Profile → Selection
  unknown_profile : Selection
  refused : Selection

unfoldable pub resolved_selection : Bool → Option Profile → Selection
resolved_selection allow_unknown (some p) = run_with p
resolved_selection allow_unknown none = if allow_unknown then run_with unrestricted else refused

unfoldable pub select_profile : Option Bytes → Bool → Bytes → Selection
unfolding by_name resolve resolved_selection
select_profile (some name) allow_unknown program = elim (by_name name) [
  | none ↦ unknown_profile
  | some p ↦ run_with p
]
select_profile none allow_unknown program = resolved_selection allow_unknown (resolve program)
