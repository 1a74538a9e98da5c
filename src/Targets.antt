-- ===== src/Targets.antt =====
-- src/main.rs: the directories to overlay.
pub mod Cover
use airgap.Prelude.{
  ◌≡◌, refl, sym, ap, ◌∙◌, ◌⊎◌, inl, inr, Bool, true, false, not, ◌||◌, List, [], ◌∷◌, ◌++◌, Option,
  none, some, arith, any, any-append, retain, Bool-cases, All, if◌then◌else◌,
}
use airgap.Std.FilePath.{FilePath, starts_with, starts_with_refl, starts_with_trans}

unfoldable pub add_target : List FilePath → FilePath → List FilePath
add_target targets dir =
    if any (λ kept. starts_with dir kept) targets
    then targets
    else retain (λ kept. not (starts_with kept dir)) targets ++ (dir ∷ [])

unfoldable pub dedup_from : List FilePath → List FilePath → List FilePath
unfolding add_target
dedup_from targets [] = targets
dedup_from targets (dir ∷ dirs) = dedup_from (add_target targets dir) dirs

unfoldable pub dedup_targets : List FilePath → List FilePath
unfolding dedup_from
dedup_targets candidates = dedup_from [] candidates

-- The home is missing where `$HOME` is unset, empty or does not resolve.
unfoldable pub overlay_targets : FilePath → Option FilePath → List FilePath
unfolding dedup_targets
overlay_targets cwd none = dedup_targets (cwd ∷ [])
overlay_targets cwd (some home) = dedup_targets (cwd ∷ home ∷ [])
