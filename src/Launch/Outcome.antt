-- ===== src/Launch/Outcome.antt =====
-- src/main.rs: a run in which every step succeeds comes to the exit code of the child.
use airgap.Prelude.{
  ℕ, ◌≡◌, ◌+◌, refl, subst, Bool, true, false, List, [], ◌∷◌, ◌++◌, Option, none, some, Bool-cases,
  inl, inr, Result, ok, err,
}
use airgap.Std.FilePath.{FilePath}
use airgap.Targets.{overlay_targets}
use airgap.Launch.{
  Step, mount_overlay, open_root, make_private, enter_dir, start_netstack, start_proxy, bind_bundle,
  spawn, unshare, unmount, remove_private_dir, ExitStatus, exited, signalled, unknown, LaunchError,
  Event, World, Mitm, Owned, Launch, then_with,
}
use airgap.Launch.Steps.{
  answer_of, checked, call, setup, kept, set_up_mitm, map_ids_to_self, user_namespace,
  enter_namespaces, current_dir, push_session, mount_all, start_stack, bind_store, run_proxy,
  waited, spawn_and_wait, exit_code,
}
use airgap.Launch.Running.{run_in, run_body, drop_sessions, drop_mitm, dropped, run}

-- A part of a run succeeds, with the interception as it is said to be.
abbrev pub Comes : {A : Type 0} → (A → Owned → Type 0) → Result LaunchError A × Owned → Type 0
Comes Q (err e, o) = ⊥
Comes Q (ok a, o) = Q a o

then_with-Comes :
    {A B : Type 0} (Q : A → Owned → Type 0) (R : B → Owned → Type 0)
    (r : Result LaunchError A × Owned) (next : A → Launch B)
    → Comes Q r
    → ((a : A) (o : Owned) → Q a o → Comes R (next a o))
    → Comes R (then_with next r)
then_with-Comes Q R (ok a, o) next h ih = ih a o h
then_with-Comes Q R (err e, o) next h ih = elim h [ ]

abbrev pub Of : {A : Type 0} → Option Mitm → A → Owned → Type 0
Of m a o = o.mitm ≡ m

-- A trace goes on with unmounts and the removal of the private directory.
abbrev IsCleanup : Step → Type 0
IsCleanup (unmount dir) = Unit {0}
IsCleanup remove_private_dir = Unit {0}
IsCleanup _ = ⊥

pub data GivesBack (es : List Event) : List Event → Type 0 where
  ended : GivesBack es es
  behind :
      {out : List Event} (s : Step) (a : Option ℕ)
      → IsCleanup s
      → GivesBack es out
      → GivesBack es ((s, a) ∷ out)

GivesBack-first :
    (es : List Event) (s : Step) (a : Option ℕ) {out : List Event}
    → IsCleanup s
    → GivesBack ((s, a) ∷ es) out
    → GivesBack es out
GivesBack-first es s a c ended = behind s a c ended
GivesBack-first es s a c (behind s' a' c' g) = behind s' a' c' (GivesBack-first es s a c g)

drop_sessions-GivesBack :
    (w : World) (dirs : List FilePath) (es : List Event) → GivesBack es (drop_sessions w dirs es)
unfolding drop_sessions
drop_sessions-GivesBack w [] es = ended
drop_sessions-GivesBack w (dir ∷ dirs) es =
    let a = w.answer es (unmount dir) in
    GivesBack-first es (unmount dir) a tt (drop_sessions-GivesBack w dirs ((unmount dir, a) ∷ es))

drop_mitm-GivesBack :
    (w : World) (m : Option Mitm) (es out : List Event)
    → GivesBack es out
    → GivesBack es (drop_mitm w m out)
unfolding drop_mitm
drop_mitm-GivesBack w none es out g = g
drop_mitm-GivesBack w (some m) es out g =
    behind remove_private_dir (w.answer out remove_private_dir) tt g

dropped-GivesBack : (w : World) (o : Owned) → GivesBack o.trace (dropped w o)
unfolding dropped
dropped-GivesBack w o =
    drop_mitm-GivesBack w o.mitm o.trace (drop_sessions w o.sessions o.trace)
      (drop_sessions-GivesBack w o.sessions o.trace)

module _ (w : World) (fine : (es : List Event) (s : Step) → w.answer es s ≡ none) where
  checked-Comes :
      (a : Option ℕ) (m : Option Mitm) (o : Owned)
      → a ≡ none
      → o.mitm ≡ m
      → Comes (Of m) (checked w a o)
  unfolding checked
  checked-Comes none m o q e = e
  checked-Comes (some x) m o q e = absurd cc

  call-Comes :
      (step : Step) (m : Option Mitm) (o : Owned) → o.mitm ≡ m → Comes (Of m) (call w step o)
  unfolding call answer_of
  call-Comes step m o e =
      checked-Comes (w.answer o.trace step) m
        (record o { trace = (step, w.answer o.trace step) ∷ o.trace }) (fine o.trace step) e

  step-Comes :
      {B : Type 0} (R : B → Owned → Type 0) (step : Step) (m : Option Mitm) (o : Owned)
      (next : Launch B)
      → o.mitm ≡ m
      → ((o' : Owned) → o'.mitm ≡ m → Comes R (next o'))
      → Comes R (then_with (λ _. next) (call w step o))
  step-Comes R step m o next e ih =
      then_with-Comes (Of m) R (call w step o) (λ _. next) (call-Comes step m o e)
        (λ _ o' e'. ih o' e')

  setup-Comes : (o : Owned) → Comes (λ m o'. Unit {0}) (setup w o)
  unfolding setup
  setup-Comes o = step-Comes _ _ o.mitm o _ refl (λ o1 e1. step-Comes _ _ o.mitm o1 _ e1 (λ o2 e2.
      step-Comes _ _ o.mitm o2 _ e2 (λ o3 e3. step-Comes _ _ o.mitm o3 _ e3 (λ o4 e4.
        step-Comes _ _ o.mitm o4 _ e4 (λ o5 e5.
          step-Comes _ _ o.mitm o5 _ e5 (λ o6 e6. step-Comes _ _ o.mitm o6 _ e6 (λ o7 e7. tt)))))))

  kept-Comes :
      (r : Result LaunchError Mitm × Owned)
      → Comes (λ m o'. Unit {0}) r
      → Comes (λ _ o'. Unit {0}) (kept w r)
  unfolding kept
  kept-Comes (ok m, o) h = tt
  kept-Comes (err e, o) h = tt

  set_up_mitm-Comes :
      (requested : Bool) (o : Owned) → Comes (λ _ o'. Unit {0}) (set_up_mitm w requested o)
  unfolding set_up_mitm
  set_up_mitm-Comes false o = tt
  set_up_mitm-Comes true o = kept-Comes (setup w o) (setup-Comes o)

  user_namespace-Comes :
      (a : Option ℕ) (m : Option Mitm) (o : Owned)
      → a ≡ none
      → o.mitm ≡ m
      → Comes (Of m) (user_namespace w a o)
  unfolding user_namespace map_ids_to_self
  user_namespace-Comes none m o q e =
      step-Comes (Of m) _ m o _ e
        (λ o1 e1. step-Comes (Of m) _ m o1 _ e1 (λ o2 e2. call-Comes _ m o2 e2))
  user_namespace-Comes (some x) m o q e = absurd cc

  enter_namespaces-Comes :
      (m : Option Mitm) (o : Owned) → o.mitm ≡ m → Comes (Of m) (enter_namespaces w o)
  unfolding enter_namespaces answer_of
  enter_namespaces-Comes m o e =
      user_namespace-Comes (w.answer o.trace (unshare true)) m
        (record o { trace = (unshare true, w.answer o.trace (unshare true)) ∷ o.trace })
        (fine o.trace (unshare true)) e

  mount_all-Comes :
      (redact : Bool) (dirs : List FilePath) (m : Option Mitm) (o : Owned)
      → o.mitm ≡ m
      → Comes (Of m) (mount_all w redact dirs o)
  unfolding mount_all push_session
  mount_all-Comes redact [] m o e = e
  mount_all-Comes redact (dir ∷ dirs) m o e = step-Comes (Of m) (open_root dir) m o _ e (λ o1 e1.
      step-Comes (Of m) (mount_overlay dir redact) m o1 _ e1 (λ o2 e2.
        mount_all-Comes redact dirs m (record o2 { sessions = o2.sessions ++ (dir ∷ []) }) e2))

  -- The interception behind the start of the stack.
  abbrev started : Option Mitm → Option Mitm
  started none = none
  started (some m) = some (record m { netns = true })

  start_stack-Comes :
      (m : Option Mitm) (o : Owned) → o.mitm ≡ m → Comes (Of (started m)) (start_stack w m o)
  unfolding start_stack
  start_stack-Comes none o e = e
  start_stack-Comes (some m) o e =
      step-Comes (Of (started (some m))) start_netstack (some m) o _ e (λ o' e'. refl)

  bind_store-Comes : (m : Option Mitm) (o : Owned) → o.mitm ≡ m → Comes (Of m) (bind_store w m o)
  unfolding bind_store
  bind_store-Comes none o e = e
  bind_store-Comes (some m) o e = elim (Bool-cases w.bundle_exists) [
    | inl q ↦ rw q (call-Comes bind_bundle (some m) o e)
    | inr q ↦ rw q e
  ]

  run_proxy-Comes : (m : Option Mitm) (o : Owned) → o.mitm ≡ m → Comes (Of m) (run_proxy w m o)
  unfolding run_proxy
  run_proxy-Comes none o e = e
  run_proxy-Comes (some m) o e = call-Comes start_proxy (some m) o e

  -- The exit code is that of the child, whose start is the last event.
  abbrev pub Waited : ℕ → Owned → Type 0
  Waited code o =
      (mediated : Bool) × (earlier : List Event) × (o.trace ≡ (spawn mediated, none) ∷ earlier)
      × (code ≡ exit_code w (w.status o.trace))

  spawned-Comes :
      (mediated : Bool) (o : Owned) (a : Option ℕ)
      → w.answer o.trace (spawn mediated) ≡ a
      → Comes Waited (
          then_with
            (λ _. waited w)
            (checked w a (record o { trace = (spawn mediated, a) ∷ o.trace })))
  unfolding checked waited
  spawned-Comes mediated o none q = (mediated, o.trace, refl, refl)
  spawned-Comes mediated o (some x) q = absurd (cc (q, fine o.trace (spawn mediated)))

  spawn_and_wait-Comes :
      (m : Option Mitm) (o : Owned) → Comes Waited (spawn_and_wait w (started m) o)
  unfolding spawn_and_wait call answer_of
  spawn_and_wait-Comes none o = spawned-Comes false o (w.answer o.trace (spawn false)) refl
  spawn_and_wait-Comes (some m) o = spawned-Comes true o (w.answer o.trace (spawn true)) refl

  run_in-Comes :
      (redact : Bool) (cwd : FilePath) (m : Option Mitm) (o : Owned)
      → o.mitm ≡ m
      → Comes Waited (run_in w redact cwd o)
  unfolding run_in
  run_in-Comes redact cwd m o e =
      then_with-Comes (Of m) Waited (mount_all w redact (overlay_targets cwd w.home) o) _
        (mount_all-Comes redact (overlay_targets cwd w.home) m o e)
        (λ _ o1 e1.
          then_with-Comes (Of (started m)) Waited (start_stack w o1.mitm o1) _
            (simp e1 (start_stack-Comes m o1 e1))
            (λ _ o2 e2.
              then_with-Comes (Of (started m)) Waited (bind_store w o2.mitm o2) _
                (simp e2 (bind_store-Comes (started m) o2 e2))
                (λ _ o3 e3. step-Comes Waited (enter_dir cwd) (started m) o3 _ e3 (λ o4 e4.
                  then_with-Comes (Of (started m)) Waited (run_proxy w o4.mitm o4) _
                    (simp e4 (run_proxy-Comes (started m) o4 e4))
                    (λ _ o5 e5. simp e5 (spawn_and_wait-Comes m o5))))))

  run_body-Comes :
      (requested redact : Bool) (cwd : FilePath) (o : Owned)
      → w.current_dir ≡ some cwd
      → Comes Waited (run_body w requested redact o)
  unfolding run_body current_dir
  run_body-Comes requested redact cwd o q =
      then_with-Comes (λ _ o'. Unit {0}) Waited (set_up_mitm w requested o) _
        (set_up_mitm-Comes requested o)
        (λ _ o1 h1.
          then_with-Comes (Of o1.mitm) Waited (enter_namespaces w o1) _
            (enter_namespaces-Comes o1.mitm o1 refl)
            (λ _ o2 e2.
              step-Comes Waited make_private o1.mitm o2 _ e2
                (λ o3 e3. rw q (run_in-Comes redact cwd o1.mitm o3 e3))))

  -- The exit code for a status: that of a child that exited, or 128 and the number of the signal that
  -- killed it, or 128.
  abbrev pub CodeFor : ExitStatus → ℕ → Type 0
  CodeFor (exited n) code = code ≡ n
  CodeFor (signalled n) code = code ≡ 128 + n
  CodeFor unknown code = code ≡ 128

  exit_code-CodeFor : (status : ExitStatus) → CodeFor status (exit_code w status)
  unfolding exit_code
  exit_code-CodeFor (exited n) = refl
  exit_code-CodeFor (signalled n) = refl
  exit_code-CodeFor unknown = refl

  -- What a run comes to: its child was started, its own trace goes on with the giving back of what it
  -- owns only, and its result is the exit code for the status that the child then had.
  abbrev pub Exits : Result LaunchError ℕ × List Event → Type 0
  Exits (err e, es) = ⊥
  Exits (ok code, es) =
      (mediated : Bool) × (earlier : List Event) × GivesBack ((spawn mediated, none) ∷ earlier) es
      × CodeFor (w.status ((spawn mediated, none) ∷ earlier)) code

  Comes-Exits : (r : Result LaunchError ℕ × Owned) → Comes Waited r → Exits (r.0, dropped w r.1)
  Comes-Exits (err e, o) h = h
  Comes-Exits (ok code, o) (mediated, earlier, t, c) =
      let es = (spawn mediated, none) ∷ earlier in
      (
        mediated,
        earlier,
        subst (λ l. GivesBack l (dropped w o)) t (dropped-GivesBack w o),
        rw (c, t) (exit_code-CodeFor (w.status es)),
      )

  -- Where every step succeeds and there is a working directory, the run starts the child, then only
  -- gives back what it owns, and comes to the child's exit code, or to 128 and the number of the signal
  -- that killed it, or to 128.
  pub run-Exits :
      (requested redact : Bool) (cwd : FilePath)
      → w.current_dir ≡ some cwd
      → Exits (run w requested redact)
  unfolding run
  run-Exits requested redact cwd q =
      let start : Owned = record { trace = []; sessions = []; mitm = none } in
      Comes-Exits (run_body w requested redact start) (run_body-Comes requested redact cwd start q)
