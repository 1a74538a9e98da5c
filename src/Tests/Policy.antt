-- ===== src/Tests/Policy.antt =====
-- src/profiles/npm.rs and src/main.rs: the gate and the targets at small inputs.
use airgap.Prelude.{list_eq, nat_eq, ◌≡◌, refl, Bool, true, false, [], ◌∷◌, All, codes}
use airgap.Std.FilePath.{FilePath, normal, root_dir, starts_with}
use airgap.Fs.Types.{read, write, create}
use airgap.Profiles.Npm.{GateState, Asker, new, allow}
use airgap.Profiles.Npm.Answers.{answered, asked_once}
use airgap.Targets.{dedup_targets}
use airgap.Targets.Cover.{within, Apart, dedup_targets_lem}

abbrev home : FilePath
home = root_dir ∷ normal (codes "home") ∷ []

abbrev project : FilePath
project = root_dir ∷ normal (codes "home") ∷ normal (codes "p") ∷ []

abbrev file : FilePath
file = root_dir ∷ normal (codes "etc") ∷ normal (codes "f") ∷ []

-- The user says yes and no by turns.
abbrev ask : Asker Bool
ask true p a = (true, false)
ask false p a = (false, true)

abbrev start : GateState Bool
start = new (project ∷ []) true

asked_once_example :
    (allow ask (answered ask (allow ask start file read).1 ((home, write) ∷ [])) file create).1
    ≡ answered ask (allow ask start file read).1 ((home, write) ∷ [])
asked_once_example = asked_once ask start file read create ((home, write) ∷ [])

file_granted : (allow ask start file read).0 ≡ true
unfolding allow new starts_with
file_granted = refl

dedup_targets_lem_example :
    All (λ c. within c (dedup_targets (project ∷ home ∷ [])) ≡ true) (project ∷ home ∷ [])
    × Apart (dedup_targets (project ∷ home ∷ []))
dedup_targets_lem_example = dedup_targets_lem (project ∷ home ∷ [])
