-- ===== src/Launch/Owning.antt =====
-- src/main.rs: the sessions of a run own the overlays that are mounted.
use airgap.Prelude.{
  ℕ, ◌≡◌, ◌⊎◌, inl, inr, true, not, List, [], ◌∷◌, ◌++◌, Option, none, some, arith, All, Bool-cases,
  Result, ok, err, ◌==◌, nat_eq, ==_refl, list_eq, contains, retain,
}
use airgap.Std.FilePath.{FilePath, component_eq}
use airgap.Launch.{
  Step, mount_overlay, unmount, LaunchError, Event, World, Owned, Launch, then_with,
}
use airgap.Launch.Steps.{answer_of, checked, call}
use airgap.Launch.Running.{drop_sessions}

-- The overlays that were mounted, and not unmounted with success since; the last event comes first.
abbrev pub mounted : List Event → List FilePath
mounted [] = []
mounted ((mount_overlay dir redact, none) ∷ es) = dir ∷ mounted es
mounted ((unmount dir, none) ∷ es) = retain (λ d. not (dir == d)) (mounted es)
mounted (e ∷ es) = mounted es

-- An unmount of the overlay failed, and no overlay was mounted since.
abbrev pub Stuck : List Event → FilePath → Type 0
Stuck [] d = ⊥
Stuck ((mount_overlay dir redact, a) ∷ es) d = ⊥
Stuck ((unmount dir, some e) ∷ es) d = ((dir == d) ≡ true) ⊎ Stuck es d
Stuck (e ∷ es) d = Stuck es d

-- A run owns a session for every overlay that is mounted.
abbrev pub Owning : Owned → Type 0
Owning o = All (λ d. contains o.sessions d ≡ true) (mounted o.trace)

contains_push :
    (sessions : List FilePath) (dir d : FilePath)
    → contains sessions d ≡ true
    → contains (sessions ++ (dir ∷ [])) d ≡ true
contains_push [] dir d h = cc
contains_push (s ∷ sessions) dir d h = elim (Bool-cases (s == d)) [
  | inl q ↦ ground arith
  | inr q ↦ let ih = contains_push sessions dir d (ground arith) in ground arith
]

pub contains_last :
    (sessions : List FilePath) (dir : FilePath) → contains (sessions ++ (dir ∷ [])) dir ≡ true
contains_last [] dir = ground (arith, ==_refl dir)
contains_last (s ∷ sessions) dir = ground (arith, contains_last sessions dir)

pub All-contains_push :
    (dirs sessions : List FilePath) (dir : FilePath)
    → All (λ d. contains sessions d ≡ true) dirs
    → All (λ d. contains (sessions ++ (dir ∷ [])) d ≡ true) dirs
All-contains_push [] sessions dir h = tt
All-contains_push (d ∷ dirs) sessions dir (e, h) =
    (contains_push sessions dir d e, All-contains_push dirs sessions dir h)

-- An overlay that is to be unmounted yet, or could not be.
abbrev pub Leaving : List FilePath → List Event → FilePath → Type 0
Leaving dirs es d = (contains dirs d ≡ true) ⊎ Stuck es d

Leaving-All :
    (sessions ds : List FilePath) (es : List Event)
    → All (λ d. contains sessions d ≡ true) ds
    → All (Leaving sessions es) ds
Leaving-All sessions [] es h = tt
Leaving-All sessions (d ∷ ds) es (e, h) = (inl e, Leaving-All sessions ds es h)

settled_one :
    (ds dirs : List FilePath) (dir : FilePath) (es : List Event)
    → All (Leaving (dir ∷ dirs) es) ds
    → All (Leaving dirs ((unmount dir, none) ∷ es)) (retain (λ d. not (dir == d)) ds)
settled_one [] dirs dir es h = tt
settled_one (d ∷ ds) dirs dir es (k, h) = elim (Bool-cases (dir == d)) [
  | inl q ↦ rw q (settled_one ds dirs dir es h)
  | inr q ↦
      let left : Leaving dirs ((unmount dir, none) ∷ es) d = elim k [
        | inl c ↦ inl (ground (arith, c, q))
        | inr s ↦ inr s
      ] in
      rw q (left, settled_one ds dirs dir es h)
]

stuck_one :
    (ds dirs : List FilePath) (dir : FilePath) (x : ℕ) (es : List Event)
    → All (Leaving (dir ∷ dirs) es) ds
    → All (Leaving dirs ((unmount dir, some x) ∷ es)) ds
stuck_one [] dirs dir x es h = tt
stuck_one (d ∷ ds) dirs dir x es (k, h) =
    let left : Leaving dirs ((unmount dir, some x) ∷ es) d = elim (Bool-cases (dir == d)) [
      | inl q ↦ inr (inl q)
      | inr q ↦ elim k [ inl c ↦ inl (ground (arith, c, q)) | inr s ↦ inr (inr s) ]
    ] in
    (left, stuck_one ds dirs dir x es h)

answered_one :
    (dirs : List FilePath) (dir : FilePath) (a : Option ℕ) (es : List Event)
    → All (Leaving (dir ∷ dirs) es) (mounted es)
    → All (Leaving dirs ((unmount dir, a) ∷ es)) (mounted ((unmount dir, a) ∷ es))
answered_one dirs dir none es h = settled_one (mounted es) dirs dir es h
answered_one dirs dir (some x) es h = stuck_one (mounted es) dirs dir x es h

left_behind : (ds : List FilePath) (es : List Event) → All (Leaving [] es) ds → All (Stuck es) ds
left_behind [] es h = tt
left_behind (d ∷ ds) es (inl c, h) = absurd (cc c)
left_behind (d ∷ ds) es (inr s, h) = (s, left_behind ds es h)

module _ (w : World) where
  drop_sessions-Leaving :
      (dirs : List FilePath) (es : List Event)
      → All (Leaving dirs es) (mounted es)
      → All (Stuck (drop_sessions w dirs es)) (mounted (drop_sessions w dirs es))
  unfolding drop_sessions
  drop_sessions-Leaving [] es h = left_behind (mounted es) es h
  drop_sessions-Leaving (dir ∷ dirs) es h =
      let a = w.answer es (unmount dir) in
      drop_sessions-Leaving dirs ((unmount dir, a) ∷ es) (answered_one dirs dir a es h)

  pub drop_sessions-Stuck :
      (dirs : List FilePath) (es : List Event)
      → All (λ d. contains dirs d ≡ true) (mounted es)
      → All (Stuck (drop_sessions w dirs es)) (mounted (drop_sessions w dirs es))
  drop_sessions-Stuck dirs es h = drop_sessions-Leaving dirs es (Leaving-All dirs (mounted es) es h)

  abbrev pub Owns : {A : Type 0} → Result LaunchError A × Owned → Type 0
  Owns r = Owning r.1

  pub then_with-Owns :
      {A B : Type 0} (r : Result LaunchError A × Owned) (next : A → Launch B)
      → Owns r
      → ((a : A) (o : Owned) → Owning o → Owns (next a o))
      → Owns (then_with next r)
  then_with-Owns (err e, o) next h ih = h
  then_with-Owns (ok a, o) next h ih = ih a o h

  checked-Owns : (a : Option ℕ) (o : Owned) → Owning o → Owns (checked w a o)
  unfolding checked
  checked-Owns none o h = h
  checked-Owns (some e) o h = h

  -- A step that neither mounts nor unmounts an overlay.
  abbrev pub Neutral : Step → Type 0
  Neutral step = (a : Option ℕ) (es : List Event) → mounted ((step, a) ∷ es) ≡ mounted es

  pub call-Owns : (step : Step) (o : Owned) → Neutral step → Owning o → Owns (call w step o)
  unfolding call answer_of
  call-Owns step o n h =
      checked-Owns (w.answer o.trace step)
        (record o { trace = (step, w.answer o.trace step) ∷ o.trace })
        (rw (n (w.answer o.trace step) o.trace) h)

  pub step-Owns :
      {B : Type 0} (step : Step) (o : Owned) (next : Launch B)
      → Neutral step
      → Owning o
      → ((o' : Owned) → Owning o' → Owns (next o'))
      → Owns (then_with (λ _. next) (call w step o))
  step-Owns step o next n h ih =
      then_with-Owns (call w step o) (λ _. next) (call-Owns step o n h) (λ _ o' h'. ih o' h')
