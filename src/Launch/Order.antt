-- ===== src/Launch/Order.antt =====
-- src/main.rs: the child is started behind everything that it must not run without.
use airgap.Prelude.{
  ℕ, ◌≡◌, refl, ◌⊎◌, inl, inr, Bool, true, false, List, [], ◌∷◌, Option, none, some, Result, ok,
  err, nat_eq,
}
use airgap.Std.FilePath.{FilePath}
use airgap.Targets.{overlay_targets}
use airgap.Launch.{
  Step, make_private, mount_overlay, start_netstack, start_proxy, enter_dir, spawn, LaunchError,
  Event, World, Mitm, Owned, Launch, then_with,
}
use airgap.Launch.Steps.{answer_of, checked, call}

-- Steps that were made and succeeded, one behind the other, among others; in both lists the last one
-- comes first.
abbrev pub Within : List Step → List Event → Type 0
Within [] es = Unit {0}
Within (f ∷ fs) [] = ⊥
Within (f ∷ fs) ((s, a) ∷ es) = ((s ≡ f) × (a ≡ none) × Within fs es) ⊎ Within (f ∷ fs) es

pub Within-later :
    (e : Event) (es : List Event) (fs : List Step) → Within fs es → Within fs (e ∷ es)
Within-later e es [] k = tt
Within-later e es (f ∷ fs) k = inr k

pub Within-tail : (f : Step) (fs : List Step) (es : List Event) → Within (f ∷ fs) es → Within fs es
Within-tail f fs [] k = absurd k
Within-tail f fs (e ∷ es) (inl (s, a, k)) = Within-later e es fs k
Within-tail f fs (e ∷ es) (inr k) = Within-later e es fs (Within-tail f fs es k)

-- The overlays of some directories, behind other steps.
abbrev pub mounts : Bool → List FilePath → List Step → List Step
mounts redact [] fs = fs
mounts redact (dir ∷ dirs) fs = mounts redact dirs (mount_overlay dir redact ∷ fs)

-- What comes before the child: the mounts are made private, the targets are overlaid, the stack is
-- started for a child that is mediated, the working directory is entered, and then, for a child
-- that is mediated, the proxy is started.
abbrev pub wanted_steps : World → Bool → Bool → FilePath → List Step
wanted_steps w redact false cwd =
    enter_dir cwd ∷ mounts redact (overlay_targets cwd w.home) (make_private ∷ [])
wanted_steps w redact true cwd =
    start_proxy
    ∷ enter_dir cwd
    ∷ start_netstack
    ∷ mounts redact (overlay_targets cwd w.home) (make_private ∷ [])

-- What is to have succeeded, in its order, before the child is started.
abbrev pub Ready : World → Bool → Bool → List Event → Type 0
Ready w redact mediated es =
    (cwd : FilePath) × (w.current_dir ≡ some cwd) × Within (wanted_steps w redact mediated cwd) es

abbrev pub ReadyFor : World → Bool → Step → List Event → Type 0
ReadyFor w redact (spawn mediated) es = Ready w redact mediated es
ReadyFor w redact _ es = Unit {0}

-- The last event comes first.
abbrev pub Guarded : World → Bool → List Event → Type 0
Guarded w redact [] = Unit {0}
Guarded w redact ((s, a) ∷ es) = ReadyFor w redact s es × Guarded w redact es

-- What is known behind a step that succeeds: steps that did, in their order, and the interception.
abbrev pub Knows : List Step → Option Mitm → Owned → Type 0
Knows fs m o = Within fs o.trace × (o.mitm ≡ m)

module _ (w : World) (redact : Bool) where
  abbrev pub Holds : {A : Type 0} → (A → Owned → Type 0) → Result LaunchError A × Owned → Type 0
  Holds Q (err e, o) = Guarded w redact o.trace
  Holds Q (ok a, o) = Guarded w redact o.trace × Q a o

  pub then_with-Holds :
      {A B : Type 0} (Q : A → Owned → Type 0) (R : B → Owned → Type 0)
      (r : Result LaunchError A × Owned) (next : A → Launch B)
      → Holds Q r
      → ((a : A) (o : Owned) → Guarded w redact o.trace → Q a o → Holds R (next a o))
      → Holds R (then_with next r)
  then_with-Holds Q R (err e, o) next h ih = h
  then_with-Holds Q R (ok a, o) next (g, q) ih = ih a o g q

  pub answer_of-Holds :
      (step : Step) (fs : List Step) (m : Option Mitm) (o : Owned)
      → ReadyFor w redact step o.trace
      → Guarded w redact o.trace
      → Knows fs m o
      → Holds (λ a o'. Knows fs m o') (answer_of w step o)
  unfolding answer_of
  answer_of-Holds step fs m o ready g (k, e) =
      ((ready, g), (Within-later (step, w.answer o.trace step) o.trace fs k, e))

  checked-Holds :
      (step : Step) (fs : List Step) (m : Option Mitm) (o : Owned) (a : Option ℕ)
      → w.answer o.trace step ≡ a
      → ReadyFor w redact step o.trace
      → Guarded w redact o.trace
      → Knows fs m o
      → Holds
          (λ _ o'. Knows (step ∷ fs) m o')
          (checked w a (record o { trace = (step, a) ∷ o.trace }))
  unfolding checked
  checked-Holds step fs m o (some e) q ready g k = (ready, g)
  checked-Holds step fs m o none q ready g (k, e) = ((ready, g), (inl (refl, refl, k), e))

  pub call-Holds :
      (step : Step) (fs : List Step) (m : Option Mitm) (o : Owned)
      → ReadyFor w redact step o.trace
      → Guarded w redact o.trace
      → Knows fs m o
      → Holds (λ _ o'. Knows (step ∷ fs) m o') (call w step o)
  unfolding call answer_of
  call-Holds step fs m o ready g k =
      checked-Holds step fs m o (w.answer o.trace step) refl ready g k

  -- A step, and what goes on behind it.
  pub step-Holds :
      {B : Type 0} (R : B → Owned → Type 0) (step : Step) (fs : List Step) (m : Option Mitm)
      (o : Owned) (next : Launch B)
      → ReadyFor w redact step o.trace
      → Guarded w redact o.trace
      → Knows fs m o
      → ((o' : Owned) → Guarded w redact o'.trace → Knows (step ∷ fs) m o' → Holds R (next o'))
      → Holds R (then_with (λ _. next) (call w step o))
  step-Holds R step fs m o next ready g k ih =
      then_with-Holds (λ _ o'. Knows (step ∷ fs) m o') R (call w step o) (λ _. next)
        (call-Holds step fs m o ready g k) (λ _ o' g' k'. ih o' g' k')

  -- The same of a step that nothing behind it depends on.
  pub quiet-Holds :
      {B : Type 0} (R : B → Owned → Type 0) (step : Step) (fs : List Step) (m : Option Mitm)
      (o : Owned) (next : Launch B)
      → ReadyFor w redact step o.trace
      → Guarded w redact o.trace
      → Knows fs m o
      → ((o' : Owned) → Guarded w redact o'.trace → Knows fs m o' → Holds R (next o'))
      → Holds R (then_with (λ _. next) (call w step o))
  quiet-Holds R step fs m o next ready g k ih =
      step-Holds R step fs m o next ready g k
        (λ o' g' (k', e). ih o' g' (Within-tail step fs o'.trace k', e))

  pub last-Holds :
      (r : Result LaunchError (Unit {0}) × Owned) (step : Step) (fs : List Step) (m : Option Mitm)
      → Holds (λ _ o'. Knows (step ∷ fs) m o') r
      → Holds (λ _ o'. Knows fs m o') r
  last-Holds (err e, o) step fs m h = h
  last-Holds (ok a, o) step fs m (g, (k, e)) = (g, (Within-tail step fs o.trace k, e))
