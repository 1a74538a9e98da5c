-- ===== src/Launch/Unmounted.antt =====
-- src/main.rs: the end of a run, however it comes, unmounts the overlays.
use airgap.Prelude.{
  ℕ, refl, All, inl, inr, Bool, true, false, List, [], ◌∷◌, ◌++◌, Option, none, some, Bool-cases,
  Result, ok, err, ◌==◌, nat_eq, list_eq,
}
use airgap.Std.FilePath.{FilePath, component_eq}
use airgap.Targets.{overlay_targets}
use airgap.Launch.{
  load_config, build_minter, build_upstream_config, create_private_dir, write_private_file, unshare,
  write_proc, make_private, open_root, mount_overlay, start_netstack, start_proxy, bind_bundle,
  enter_dir, spawn, LaunchError, Event, World, Mitm, Owned, Launch, then_with, eperm,
}
use airgap.Launch.Steps.{
  answer_of, checked, call, setup, kept, set_up_mitm, map_ids_to_self, plain_namespace,
  user_namespace, enter_namespaces, current_dir, push_session, mount_all, start_stack, bind_store,
  run_proxy, waited, spawn_and_wait,
}
use airgap.Launch.Running.{run_in, run_body, drop_sessions, drop_mitm, dropped, run}
use airgap.Launch.Owning.{
  mounted, Owning, All-contains_push, contains_last, drop_sessions-Stuck, Stuck, Owns,
  then_with-Owns, call-Owns, step-Owns,
}

module _ (w : World) where
  setup-Owns : (o : Owned) → Owning o → Owns w (setup w o)
  unfolding setup
  setup-Owns o h =
      step-Owns w load_config o _ (λ a es. refl) h
        (λ o1 h1.
          step-Owns w build_minter o1 _ (λ a es. refl) h1
            (λ o2 h2.
              step-Owns w build_upstream_config o2 _ (λ a es. refl) h2
                (λ o3 h3.
                  step-Owns w create_private_dir o3 _ (λ a es. refl) h3
                    (λ o4 h4.
                      step-Owns w (write_private_file _ _) o4 _ (λ a es. refl) h4
                        (λ o5 h5.
                          step-Owns w (write_private_file _ _) o5 _ (λ a es. refl) h5
                            (λ o6 h6.
                              step-Owns w (write_private_file _ _) o6 _ (λ a es. refl) h6
                                (λ o7 h7. h7)))))))

  kept-Owns : (r : Result LaunchError Mitm × Owned) → Owns w r → Owns w (kept w r)
  unfolding kept
  kept-Owns (ok m, o) h = h
  kept-Owns (err e, o) h = h

  set_up_mitm-Owns : (requested : Bool) (o : Owned) → Owning o → Owns w (set_up_mitm w requested o)
  unfolding set_up_mitm
  set_up_mitm-Owns false o h = h
  set_up_mitm-Owns true o h = kept-Owns (setup w o) (setup-Owns o h)

  plain_namespace-Owns : (a : Option ℕ) (o : Owned) → Owning o → Owns w (plain_namespace w a o)
  unfolding plain_namespace
  plain_namespace-Owns none o h = h
  plain_namespace-Owns (some e) o h = elim (Bool-cases (e == eperm)) [
    | inl q ↦ rw q h
    | inr q ↦ rw q h
  ]

  user_namespace-Owns : (a : Option ℕ) (o : Owned) → Owning o → Owns w (user_namespace w a o)
  unfolding user_namespace map_ids_to_self answer_of
  user_namespace-Owns none o h =
      step-Owns w (write_proc _ _) o _ (λ a es. refl) h
        (λ o1 h1.
          step-Owns w (write_proc _ _) o1 _ (λ a es. refl) h1
            (λ o2 h2. call-Owns w (write_proc _ _) o2 (λ a es. refl) h2))
  user_namespace-Owns (some e) o h = elim (Bool-cases (e == eperm)) [
    | inl q ↦
        let a = w.answer o.trace (unshare false) in
        rw q (plain_namespace-Owns a (record o { trace = (unshare false, a) ∷ o.trace }) h)
    | inr q ↦ rw q h
  ]

  enter_namespaces-Owns : (o : Owned) → Owning o → Owns w (enter_namespaces w o)
  unfolding enter_namespaces answer_of
  enter_namespaces-Owns o h =
      let a = w.answer o.trace (unshare true) in
      user_namespace-Owns a (record o { trace = (unshare true, a) ∷ o.trace }) h

  -- The mounting of an overlay, and the session that owns it.
  mounted-Owns :
      (redact : Bool) (dir : FilePath) (o : Owned) (a : Option ℕ) (next : Launch (Unit {0}))
      → Owning o
      → ((o' : Owned) → Owning o' → Owns w (next o'))
      → Owns w (
          then_with
            (λ _. λ o'. then_with (λ _. next) (push_session w dir o'))
            (checked w a (record o { trace = (mount_overlay dir redact, a) ∷ o.trace })))
  unfolding checked push_session
  mounted-Owns redact dir o (some e) next h ih = h
  mounted-Owns redact dir o none next h ih =
      ih
        (record o {
          trace = (mount_overlay dir redact, none) ∷ o.trace;
          sessions = o.sessions ++ (dir ∷ []);
        })
        (contains_last o.sessions dir, All-contains_push (mounted o.trace) o.sessions dir h)

  mount_all-Owns :
      (redact : Bool) (dirs : List FilePath) (o : Owned)
      → Owning o
      → Owns w (mount_all w redact dirs o)
  unfolding mount_all call answer_of
  mount_all-Owns redact [] o h = h
  mount_all-Owns redact (dir ∷ dirs) o h =
      then_with-Owns w (call w (open_root dir) o) _ (call-Owns w (open_root dir) o (λ a es. refl) h)
        (λ _ o1 h1.
          mounted-Owns redact dir o1 (w.answer o1.trace (mount_overlay dir redact))
            (mount_all w redact dirs) h1 (λ o2 h2. mount_all-Owns redact dirs o2 h2))

  start_stack-Owns : (m : Option Mitm) (o : Owned) → Owning o → Owns w (start_stack w m o)
  unfolding start_stack
  start_stack-Owns none o h = h
  start_stack-Owns (some m) o h = step-Owns w start_netstack o _ (λ a es. refl) h (λ o' h'. h')

  bind_store-Owns : (m : Option Mitm) (o : Owned) → Owning o → Owns w (bind_store w m o)
  unfolding bind_store
  bind_store-Owns none o h = h
  bind_store-Owns (some m) o h = elim (Bool-cases w.bundle_exists) [
    | inl q ↦ rw q (call-Owns w bind_bundle o (λ a es. refl) h)
    | inr q ↦ rw q h
  ]

  run_proxy-Owns : (m : Option Mitm) (o : Owned) → Owning o → Owns w (run_proxy w m o)
  unfolding run_proxy
  run_proxy-Owns none o h = h
  run_proxy-Owns (some m) o h = call-Owns w start_proxy o (λ a es. refl) h

  spawn_and_wait-Owns : (m : Option Mitm) (o : Owned) → Owning o → Owns w (spawn_and_wait w m o)
  unfolding spawn_and_wait waited
  spawn_and_wait-Owns none o h = step-Owns w (spawn false) o _ (λ a es. refl) h (λ o' h'. h')
  spawn_and_wait-Owns (some m) o h = elim (Bool-cases m.netns) [
    | inl q ↦ rw q (step-Owns w (spawn true) o _ (λ a es. refl) h (λ o' h'. h'))
    | inr q ↦ rw q h
  ]

  run_in-Owns :
      (redact : Bool) (cwd : FilePath) (o : Owned) → Owning o → Owns w (run_in w redact cwd o)
  unfolding run_in
  run_in-Owns redact cwd o h =
      then_with-Owns w (mount_all w redact (overlay_targets cwd w.home) o) _
        (mount_all-Owns redact (overlay_targets cwd w.home) o h)
        (λ _ o1 h1.
          then_with-Owns w (start_stack w o1.mitm o1) _ (start_stack-Owns o1.mitm o1 h1) (λ _ o2 h2.
            then_with-Owns w (bind_store w o2.mitm o2) _ (bind_store-Owns o2.mitm o2 h2) (λ _ o3 h3.
              step-Owns w (enter_dir cwd) o3 _ (λ a es. refl) h3
                (λ o4 h4.
                  then_with-Owns w (run_proxy w o4.mitm o4) _ (run_proxy-Owns o4.mitm o4 h4)
                    (λ _ o5 h5. spawn_and_wait-Owns o5.mitm o5 h5)))))

  current_dir-Owns :
      (redact : Bool) (a : Option FilePath) (o : Owned)
      → Owning o
      → Owns w (then_with (run_in w redact) (current_dir w a o))
  unfolding current_dir
  current_dir-Owns redact none o h = h
  current_dir-Owns redact (some cwd) o h = run_in-Owns redact cwd o h

  run_body-Owns :
      (requested redact : Bool) (o : Owned) → Owning o → Owns w (run_body w requested redact o)
  unfolding run_body
  run_body-Owns requested redact o h =
      then_with-Owns w (set_up_mitm w requested o) _ (set_up_mitm-Owns requested o h) (λ _ o1 h1.
        then_with-Owns w (enter_namespaces w o1) _ (enter_namespaces-Owns o1 h1) (λ _ o2 h2.
          step-Owns w make_private o2 _ (λ a es. refl) h2
            (λ o3 h3. current_dir-Owns redact w.current_dir o3 h3)))

  drop_mitm-Stuck :
      (m : Option Mitm) (es : List Event)
      → All (Stuck es) (mounted es)
      → All (Stuck (drop_mitm w m es)) (mounted (drop_mitm w m es))
  unfolding drop_mitm
  drop_mitm-Stuck none es h = h
  drop_mitm-Stuck (some m) es h = h

  -- Whatever comes of the steps, and wherever a run ends, behind it the only overlays that are still
  -- mounted are those whose unmount was tried, behind every mounting, and failed.
  pub mounted-run :
      (requested redact : Bool)
      → All (Stuck (run w requested redact).1) (mounted (run w requested redact).1)
  unfolding run dropped
  mounted-run requested redact =
      let start : Owned = record { trace = []; sessions = []; mitm = none } in
      let o = (run_body w requested redact start).1 in
      drop_mitm-Stuck o.mitm (drop_sessions w o.sessions o.trace)
        (drop_sessions-Stuck w o.sessions o.trace (run_body-Owns requested redact start tt))
