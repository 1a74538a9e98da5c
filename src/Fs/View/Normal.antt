-- ===== src/Fs/View/Normal.antt =====
-- src/fs.rs, `lexically_normalize`: it resolves a path by its names alone, and so a symlink that
-- leads out of the overlay is told apart.
use mathlib.Core.List.{reverse, reverse-cons, reverse-append, reverse-reverse}
use mathlib.Core.Option
use airgap.Prelude.{
  ◌≡◌, refl, sym, ap, ◌∙◌, ◌↔◌, Bool, true, false, List, [], ◌∷◌, ◌++◌, map, append_assoc,
  if◌then◌else◌, Bytes, ok, Result-cases, inl, inr, arith,
}
use airgap.Std.FilePath.{
  FilePath, Component, root_dir, cur_dir, parent_dir, normal, components, is_absolute, join,
  starts_with, starts_with-append, starts_with-eq-true, file_name, parent, file_name-last,
  join-normal, join-root_dir,
}
use airgap.Fs.Types.{System}
use airgap.Fs.View.{
  at, normalize_step, normalize_from, lexically_normalize, symlink_target_within_overlay,
}

-- Where a walk along a path has come to: whether from the root, and the names down to it, the last
-- first.
abbrev pub Place : Type 0
Place = Bool × List Bytes

-- One component: `..` goes up, but not from the start of the walk.
unfoldable pub step : Place → Component → Place
step (rooted, names) root_dir = (true, [])
step (rooted, names) cur_dir = (rooted, names)
step (rooted, []) parent_dir = (rooted, [])
step (rooted, name ∷ names) parent_dir = (rooted, names)
step (rooted, names) (normal name) = (rooted, name ∷ names)

unfoldable pub walk : Place → FilePath → Place
unfolding step
walk place [] = place
walk place (c ∷ p) = walk (step place c) p

abbrev pub base : Bool → FilePath
base true = root_dir ∷ []
base false = []

-- The path of a place has no `.` and no `..`.
unfoldable pub path_to : Place → FilePath
path_to (rooted, names) = base rooted ++ reverse (map normal names)

reverse-base : (rooted : Bool) → reverse (base rooted) ≡ base rooted
reverse-base true = refl
reverse-base false = refl

reverse-path_to :
    (rooted : Bool) (names : List Bytes)
    → reverse (path_to (rooted, names)) ≡ map normal names ++ base rooted
unfolding path_to
reverse-path_to rooted names =
    reverse-append (base rooted) (reverse (map normal names))
    ∙ rw (reverse-reverse (map normal names), reverse-base rooted) refl

-- The code's step on the path of a place.
normalize_step-path_to :
    (place : Place) (c : Component) → normalize_step (path_to place) c ≡ path_to (step place c)
unfolding normalize_step path_to step file_name
normalize_step-path_to (rooted, names) root_dir = join-root_dir (path_to (rooted, names))
normalize_step-path_to (rooted, names) cur_dir = refl
normalize_step-path_to (rooted, names) (normal name) =
    join-normal (path_to (rooted, names)) name
    ∙ (append_assoc (base rooted) (reverse (map normal names)) (normal name ∷ [])
        ∙ ap (λ q. base rooted ++ q) (sym (reverse-cons (normal name) (map normal names))))
normalize_step-path_to (true, []) parent_dir = refl
normalize_step-path_to (false, []) parent_dir = refl
normalize_step-path_to (rooted, name ∷ names) parent_dir =
    let (named, popped) =
      file_name-last (path_to (rooted, name ∷ names)) (map normal names ++ base rooted) name
        (reverse-path_to rooted (name ∷ names)) in
    rw (normalize_step, named)
      (popped
        ∙ (reverse-append (map normal names) (base rooted)
            ∙ ap (λ q. q ++ reverse (map normal names)) (reverse-base rooted)))

normalize_from-path_to :
    (p : FilePath) (place : Place) → normalize_from (path_to place) p ≡ path_to (walk place p)
unfolding normalize_from walk
normalize_from-path_to [] place = refl
normalize_from-path_to (c ∷ p) place =
    ap (λ q. normalize_from q p) (normalize_step-path_to place c)
    ∙ normalize_from-path_to p (step place c)

lexically_normalize-path_to : (p : FilePath) → lexically_normalize p ≡ path_to (walk (false, []) p)
unfolding lexically_normalize path_to
lexically_normalize-path_to p = normalize_from-path_to p (false, [])

-- Where a symlink's target leads by its names, from the directory of the link.
abbrev pub target_from : FilePath → FilePath → Bytes → FilePath
target_from mount_root rel bytes = path_to (
    walk (false, [])
      (if is_absolute (components bytes)
        then components bytes
        else join (Option.get_or (parent (join mount_root rel)) mount_root) (components bytes)))

-- A symlink counts as one within the overlay exactly when it can be read and its target,
-- resolved by its names from the directory of the link, where `..` goes up but not above
-- the start, is the mounted directory or lies below it.
pub symlink_target_within_overlay_iff :
    (sys : System) (w : sys.World) (mount_root rel : FilePath)
    → (symlink_target_within_overlay sys w mount_root rel ≡ true) ↔ (
        (bytes : Bytes) × (rest : FilePath) × (sys.readlinkat w (at rel) ≡ ok bytes)
        × (target_from mount_root rel bytes ≡ mount_root ++ rest))
unfolding symlink_target_within_overlay
symlink_target_within_overlay_iff sys w mount_root rel =
    elim (Result-cases (sys.readlinkat w (at rel))) [
      | inr (x, e) ↦ (λ h. ground (arith, h, e), λ k. ground (arith, e, k.2))
      | inl (bytes, e) ↦
          let target = components bytes in
          let resolved =
            if is_absolute target
            then target
            else join (Option.get_or (parent (join mount_root rel)) mount_root) target in
          let q : symlink_target_within_overlay sys w mount_root rel
              ≡ starts_with (target_from mount_root rel bytes) mount_root =
            rw (symlink_target_within_overlay, e)
              (ap (λ p. starts_with p mount_root) (lexically_normalize-path_to resolved)) in
          (
            λ h.
                (let (rest, r) =
                    starts_with-eq-true (target_from mount_root rel bytes) mount_root (sym q ∙ h) in
                  (bytes, rest, e, r)),
            λ k.
                (let b : k.0 ≡ bytes = ground (arith, e, k.2) in
                  let r : target_from mount_root rel bytes ≡ mount_root ++ k.1 = rw b at k.3 in
                  q ∙ (ap (λ p. starts_with p mount_root) r ∙ starts_with-append mount_root k.1)),
          )
    ]
