-- ===== src/Targets/Cover.antt =====
-- src/main.rs, `dedup_targets`: the targets cover the candidates and none lies in another.
use airgap.Prelude.{
  ◌≡◌, inl, inr, Bool, true, false, not, List, [], ◌∷◌, ◌++◌, arith, any, any-append, retain,
  Bool-cases, All, All-append, if◌then◌else◌,
}
use airgap.Std.FilePath.{FilePath, starts_with, starts_with_refl, starts_with_trans}
use airgap.Targets.{add_target, dedup_from, dedup_targets}

-- The directory lies in one of the list.
abbrev pub within : FilePath → List FilePath → Bool
within dir targets = any (λ kept. starts_with dir kept) targets

within-retain :
    (c dir : FilePath) (targets : List FilePath)
    → within c targets ≡ true
    → within c (retain (λ kept. not (starts_with kept dir)) targets ++ (dir ∷ [])) ≡ true
within-retain c dir [] h = cc
within-retain c dir (k ∷ targets) h = ground (
  arith,
  starts_with_trans c k dir,
  within-retain c dir targets,
  within_last (retain (λ kept. not (starts_with kept dir)) targets),
)
  where
    within_last :
        (ts : List FilePath) → starts_with c dir ≡ true → within c (ts ++ (dir ∷ [])) ≡ true
    within_last ts e = ground (arith, any-append (λ kept. starts_with c kept) ts (dir ∷ []))

add_target-within :
    (c dir : FilePath) (targets : List FilePath)
    → within c targets ≡ true
    → within c (add_target targets dir) ≡ true
unfolding add_target
add_target-within c dir targets h = ground (arith, within-retain c dir targets)

add_target_itself :
    (dir : FilePath) (targets : List FilePath) → within dir (add_target targets dir) ≡ true
unfolding add_target
add_target_itself dir targets = elim (Bool-cases (within dir targets)) [
  | inl t ↦ ground (arith, t)
  | inr f ↦ rw f (
      ground (
        arith,
        any-append (λ kept. starts_with dir kept)
            (retain (λ kept. not (starts_with kept dir)) targets) (dir ∷ []),
        starts_with_refl dir,
      ))
]

dedup_from-within :
    (c : FilePath) (targets dirs : List FilePath)
    → within c targets ≡ true
    → within c (dedup_from targets dirs) ≡ true
unfolding dedup_from
dedup_from-within c targets [] h = h
dedup_from-within c targets (dir ∷ dirs) h =
    dedup_from-within c (add_target targets dir) dirs (add_target-within c dir targets h)

dedup_from-covers :
    (targets dirs : List FilePath) → All (λ c. within c (dedup_from targets dirs) ≡ true) dirs
unfolding dedup_from
dedup_from-covers targets [] = tt
dedup_from-covers targets (dir ∷ dirs) = (
  dedup_from-within dir (add_target targets dir) dirs (add_target_itself dir targets),
  dedup_from-covers (add_target targets dir) dirs,
)

dedup_targets-covers :
    (candidates : List FilePath) → All (λ c. within c (dedup_targets candidates) ≡ true) candidates
unfolding dedup_targets
dedup_targets-covers candidates = dedup_from-covers [] candidates

-- No two of the list lie in one another.
abbrev pub Apart : List FilePath → Type 0
Apart [] = Unit {0}
Apart (t ∷ ts) = (All (λ u. (starts_with t u ≡ false) × (starts_with u t ≡ false)) ts) × Apart ts

All-retain :
    (P : FilePath → Type 0) (p : FilePath → Bool) (ts : List FilePath)
    → All P ts
    → All P (retain p ts)
All-retain P p [] v = tt
All-retain P p (t ∷ ts) (v, vs) =
    elim (p t) as (λ b. All P (if b then t ∷ retain p ts else retain p ts)) [
      | true ↦ (v, All-retain P p ts vs)
      | false ↦ All-retain P p ts vs
    ]

Apart-add :
    (dir : FilePath) (targets : List FilePath)
    → within dir targets ≡ false
    → Apart targets
    → Apart (retain (λ kept. not (starts_with kept dir)) targets ++ (dir ∷ []))
Apart-add dir [] h v = (tt, tt)
Apart-add dir (k ∷ ts) h (v, vs) = elim (Bool-cases (starts_with k dir)) [
  | inl t ↦ rw t (Apart-add dir ts (ground arith) vs)
  | inr f ↦ rw f (
    All-append (λ u. (starts_with k u ≡ false) × (starts_with u k ≡ false))
        (retain (λ kept. not (starts_with kept dir)) ts) (dir ∷ [])
        (All-retain (λ u. (starts_with k u ≡ false) × (starts_with u k ≡ false))
          (λ kept. not (starts_with kept dir)) ts v)
        ((f, ground arith), tt),
    Apart-add dir ts (ground arith) vs,
  )
]

add_target-Apart :
    (dir : FilePath) (targets : List FilePath) → Apart targets → Apart (add_target targets dir)
unfolding add_target
add_target-Apart dir targets v = elim (Bool-cases (within dir targets)) [
  | inl t ↦ rw t v
  | inr f ↦ rw f (Apart-add dir targets f v)
]

dedup_from-Apart : (targets dirs : List FilePath) → Apart targets → Apart (dedup_from targets dirs)
unfolding dedup_from
dedup_from-Apart targets [] v = v
dedup_from-Apart targets (dir ∷ dirs) v =
    dedup_from-Apart (add_target targets dir) dirs (add_target-Apart dir targets v)

dedup_targets-Apart : (candidates : List FilePath) → Apart (dedup_targets candidates)
unfolding dedup_targets
dedup_targets-Apart candidates = dedup_from-Apart [] candidates tt

-- Every candidate directory lies in one of the targets, and no two of the targets lie in one another.
pub dedup_targets_lem :
    (candidates : List FilePath)
    → All (λ c. within c (dedup_targets candidates) ≡ true) candidates
      × Apart (dedup_targets candidates)
dedup_targets_lem candidates = (dedup_targets-covers candidates, dedup_targets-Apart candidates)
