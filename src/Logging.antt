-- ===== src/Logging.antt =====
-- src/logging.rs: where the log goes.
use airgap.Prelude.{◌≡◌, refl, Bool, true, false, [], ◌∷◌, Option, none, some, Bytes, codes}
use airgap.Std.FilePath.{FilePath, components, join}

-- What is written to: the log file that was opened, or standard error.
pub data Destination : Type 0 where
  log_to : FilePath → Destination
  stderr : Destination

-- A variable that is set, and not empty.
unfoldable pub usable : Option Bytes → Option Bytes
usable none = none
usable (some []) = none
usable (some (c ∷ s)) = some (c ∷ s)

unfoldable pub state_dir : Option Bytes → Option Bytes → Option FilePath
state_dir (some xdg) home = some (components xdg)
state_dir none (some home) = some (join (components home) (components (codes ".local/state")))
state_dir none none = none

unfoldable pub log_in : Option FilePath → Option FilePath
log_in none = none
log_in (some state) =
    some (join (join state (components (codes "airgap"))) (components (codes "airgap.log")))

-- Of `$XDG_STATE_HOME` and `$HOME`.
unfoldable pub default_log_path : Option Bytes → Option Bytes → Option FilePath
unfolding usable state_dir log_in
default_log_path xdg home = log_in (state_dir (usable xdg) (usable home))

-- `opens` says which log files can be opened.
unfoldable pub destination : (opens : FilePath → Bool) → Option FilePath → Destination
destination opens none = stderr
destination opens (some path) = elim (opens path) [ true ↦ log_to path | false ↦ stderr ]

-- `init`, of the option `--log-file`.
unfoldable pub init :
    (opens : FilePath → Bool) → Option FilePath → Option Bytes → Option Bytes → Destination
unfolding destination default_log_path
init opens (some path) xdg home = destination opens (some path)
init opens none xdg home = destination opens (default_log_path xdg home)

log_paths :
    (default_log_path (some (codes "/s")) (some (codes "/home/u"))
      ≡ some (components (codes "/s/airgap/airgap.log")))
    × (default_log_path (some []) (some (codes "/home/u"))
        ≡ some (components (codes "/home/u/.local/state/airgap/airgap.log")))
    × (default_log_path none (some []) ≡ none)
    × (init (λ p. false) none (some (codes "/s")) none ≡ stderr)
unfolding default_log_path usable state_dir log_in init destination join components
log_paths = (refl, refl, refl, refl)
