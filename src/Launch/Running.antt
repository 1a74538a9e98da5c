-- ===== src/Launch/Running.antt =====
-- src/main.rs: a run as a whole, and the exit code.
use airgap.Prelude.{ℕ, Bool, List, [], ◌∷◌, Option, none, some, Result, ok, err, nat_eq, list_eq}
use airgap.Std.FilePath.{FilePath}
use airgap.Targets.{overlay_targets}
use airgap.Profiles.{redaction, Selection, run_with, refused, unknown_profile}
use airgap.Launch.{
  make_private, enter_dir, unmount, remove_private_dir, LaunchError, Event, World, Mitm, Owned,
  Launch, ◌>>=◌, ◌>>◌,
}
use airgap.Launch.Steps.{
  set_up_mitm, enter_namespaces, call, current_dir, mount_all, start_stack, bind_store, run_proxy,
  spawn_and_wait,
}

module _ (w : World) where
  -- What follows the choice of the working directory.
  unfoldable pub run_in : Bool → FilePath → Launch ℕ
  unfolding mount_all start_stack bind_store call run_proxy spawn_and_wait overlay_targets
  run_in redact cwd = do
    mount_all w redact (overlay_targets cwd w.home)
    (λ o. start_stack w o.mitm o)
    (λ o. bind_store w o.mitm o)
    call w (enter_dir cwd)
    (λ o. run_proxy w o.mitm o)
    (λ o. spawn_and_wait w o.mitm o)

  unfoldable pub run_body : Bool → Bool → Launch ℕ
  unfolding set_up_mitm enter_namespaces call current_dir run_in
  run_body requested redact = do
    set_up_mitm w requested
    enter_namespaces w
    call w make_private
    cwd ← current_dir w w.current_dir
    run_in redact cwd

  unfoldable pub drop_sessions : List FilePath → List Event → List Event
  drop_sessions [] trace = trace
  drop_sessions (dir ∷ dirs) trace =
      drop_sessions dirs ((unmount dir, w.answer trace (unmount dir)) ∷ trace)

  unfoldable pub drop_mitm : Option Mitm → List Event → List Event
  drop_mitm none trace = trace
  drop_mitm (some m) trace = (remove_private_dir, w.answer trace remove_private_dir) ∷ trace

  -- What is owned is given back, on a failure too.
  unfoldable pub dropped : Owned → List Event
  unfolding drop_sessions drop_mitm
  dropped o = drop_mitm o.mitm (drop_sessions o.sessions o.trace)

  unfoldable pub run : Bool → Bool → Result LaunchError ℕ × List Event
  unfolding run_body dropped
  run requested redact =
      let (r, o) = run_body requested redact (record { trace = []; sessions = []; mitm = none }) in
      (r, dropped o)

  unfoldable pub code_of : Result LaunchError ℕ → ℕ
  code_of (ok code) = code
  code_of (err e) = 1

  -- The exit code of `main`, and what it did.
  unfoldable pub main : Bool → Selection → ℕ × List Event
  unfolding run code_of
  main requested (run_with profile) =
      let (r, trace) = run requested (redaction profile) in (code_of r, trace)
  main requested unknown_profile = (2, [])
  main requested refused = (1, [])
