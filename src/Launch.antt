-- ===== src/Launch.antt =====
-- src/main.rs and src/mitm.rs: the steps that put the overlays in place, start the interception and run
-- the child. A step is a call of the kernel or of another part of the program, and what comes of it is
-- a parameter, which may depend on every step before.
pub mod Steps
pub mod Running
pub mod Order
pub mod Spawned
pub mod Child
pub mod Outcome
pub mod Owning
pub mod Unmounted
use airgap.Prelude.{
  ℕ, ◌+◌, Bool, true, false, not, ◌&&◌, List, [], ◌∷◌, ◌++◌, Option, none, some, if◌then◌else◌,
  Bytes, codes, Result, ok, err, ◌==◌, nat_eq, list_eq,
}
use airgap.Std.Text.{ends_with}
use airgap.Std.FilePath.{FilePath}
use airgap.Targets.{overlay_targets}
use airgap.Profiles.{redaction, Selection, run_with, refused, unknown_profile}

abbrev pub eperm : ℕ
eperm = 1

-- `unshare` says whether a user namespace is made too, and `spawn` whether the child joins the network
-- namespace of the interception.
pub data Step : Type 0 where
  load_config build_minter build_upstream_config create_private_dir : Step
  write_private_file : (name bytes : Bytes) → Step
  unshare : (new_user : Bool) → Step
  write_proc : (name bytes : Bytes) → Step
  make_private : Step
  open_root : FilePath → Step
  mount_overlay : FilePath → (redact : Bool) → Step
  start_netstack start_proxy bind_bundle : Step
  enter_dir : FilePath → Step
  spawn : (mediated : Bool) → Step
  unmount : FilePath → Step
  remove_private_dir : Step

-- Why a step, or the run, failed.
pub data LaunchError : Type 0 where
  errno : ℕ → LaunchError
  missing_privilege no_current_dir no_netns : LaunchError

pub data ExitStatus : Type 0 where
  exited : ℕ → ExitStatus
  signalled : ℕ → ExitStatus
  unknown : ExitStatus

-- A step with what came of it.
abbrev pub Event : Type 0
Event = Step × Option ℕ

-- What is outside: the answers of the steps, the last event first, and what is read meanwhile.
pub record World : Type 0 where
  pub answer : List Event → Step → Option ℕ
  pub uid : Bytes
  pub gid : Bytes
  pub current_dir : Option FilePath
  pub home : Option FilePath
  pub ca_pem : Bytes
  pub system_bundle : Option Bytes
  pub bundle_exists : Bool
  pub status : List Event → ExitStatus

-- `Mitm`, of what the launch depends on.
pub record Mitm : Type 0 where
  pub netns : Bool

-- What the run owns: it is given back at its end, however it ends.
pub record Owned : Type 0 where
  pub trace : List Event
  pub sessions : List FilePath
  pub mitm : Option Mitm

abbrev pub Launch : Type 0 → Type 0
Launch A = Owned → Result LaunchError A × Owned

module _ {A : Type 0} where
  abbrev pub pure : A → Launch A
  pure a o = (ok a, o)

  abbrev pub fail : LaunchError → Launch A
  fail e o = (err e, o)

abbrev pub then_with :
    {A B : Type 0} → (A → Launch B) → Result LaunchError A × Owned → Result LaunchError B × Owned
then_with next (err e, o) = (err e, o)
then_with next (ok a, o) = next a o

infixl 5 ◌>>=◌ ◌>>◌
abbrev pub ◌>>=◌ : {A B : Type 0} → Launch A → (A → Launch B) → Launch B
◌>>=◌ m next o = then_with next (m o)

abbrev pub ◌>>◌ : {A B : Type 0} → Launch A → Launch B → Launch B
m >> k = m >>= λ _. k
