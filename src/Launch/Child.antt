-- ===== src/Launch/Child.antt =====
-- src/main.rs: no run starts the child before the overlays and the interception are in place.
use airgap.Prelude.{
  ◌≡◌, refl, inl, inr, Bool, true, false, List, [], ◌∷◌, Option, none, some, Bool-cases, Result, ok,
  err, nat_eq,
}
use airgap.Std.FilePath.{FilePath}
use airgap.Targets.{overlay_targets}
use airgap.Launch.{
  Step, make_private, start_netstack, start_proxy, bind_bundle, enter_dir, spawn, unmount,
  LaunchError, Event, World, Mitm, Owned, then_with,
}
use airgap.Launch.Steps.{
  call, set_up_mitm, enter_namespaces, current_dir, mount_all, start_stack, bind_store, run_proxy,
  waited, spawn_and_wait,
}
use airgap.Launch.Running.{run_in, run_body, drop_sessions, drop_mitm, dropped, run}
use airgap.Launch.Order.{
  mounts, Within, Ready, Guarded, Knows, Holds, then_with-Holds, call-Holds, step-Holds, last-Holds,
}
use airgap.Launch.Spawned.{mount_all-Holds, enter_namespaces-Holds, set_up_mitm-Holds}

module _ (w : World) (redact : Bool) where
  abbrev joined : Option Mitm → Option Mitm
  joined none = none
  joined (some m) = some (record m { netns = true })

  abbrev stack_steps : Option Mitm → List Step → List Step
  stack_steps none fs = fs
  stack_steps (some m) fs = start_netstack ∷ fs

  abbrev proxy_steps : Option Mitm → List Step → List Step
  proxy_steps none fs = fs
  proxy_steps (some m) fs = start_proxy ∷ fs

  start_stack-Holds :
      (fs : List Step) (m : Option Mitm) (o : Owned)
      → Guarded w redact o.trace
      → Knows fs m o
      → Holds w redact (λ _ o'. Knows (stack_steps m fs) (joined m) o') (start_stack w m o)
  unfolding start_stack
  start_stack-Holds fs none o g k = (g, k)
  start_stack-Holds fs (some m) o g k =
      step-Holds w redact _ start_netstack fs (some m) o _ tt g k (λ o' g' k'. (g', (k'.0, refl)))

  bind_store-Holds :
      (fs : List Step) (m : Option Mitm) (o : Owned)
      → Guarded w redact o.trace
      → Knows fs m o
      → Holds w redact (λ _ o'. Knows fs m o') (bind_store w m o)
  unfolding bind_store
  bind_store-Holds fs none o g k = (g, k)
  bind_store-Holds fs (some m) o g k = elim (Bool-cases w.bundle_exists) [
    | inl q ↦ rw q (
        last-Holds w redact (call w bind_bundle o) bind_bundle fs (some m)
          (call-Holds w redact bind_bundle fs (some m) o tt g k))
    | inr q ↦ rw q (g, k)
  ]

  run_proxy-Holds :
      (fs : List Step) (m : Option Mitm) (o : Owned)
      → Guarded w redact o.trace
      → Knows fs m o
      → Holds w redact (λ _ o'. Knows (proxy_steps m fs) m o') (run_proxy w m o)
  unfolding run_proxy
  run_proxy-Holds fs none o g k = (g, k)
  run_proxy-Holds fs (some m) o g k = call-Holds w redact start_proxy fs (some m) o tt g k

  proxied-Holds :
      (fs : List Step) (m : Option Mitm) (o : Owned)
      → Guarded w redact o.trace
      → Knows fs (joined m) o
      → Holds w redact (λ _ o'. Knows (proxy_steps m fs) (joined m) o') (run_proxy w (joined m) o)
  proxied-Holds fs none o g k = run_proxy-Holds fs none o g k
  proxied-Holds fs (some m) o g k = run_proxy-Holds fs (joined (some m)) o g k

  -- What was done when the child is to start.
  abbrev final_steps : FilePath → Option Mitm → List Step
  final_steps cwd m = proxy_steps m (
      enter_dir cwd
      ∷ stack_steps m (mounts redact (overlay_targets cwd w.home) (make_private ∷ [])))

  -- Whether the child joins the network namespace.
  abbrev joins : Option Mitm → Bool
  joins none = false
  joins (some m) = true

  final-Ready :
      (cwd : FilePath) (m : Option Mitm) (es : List Event)
      → w.current_dir ≡ some cwd
      → Within (final_steps cwd m) es
      → Ready w redact (joins m) es
  final-Ready cwd none es q k = (cwd, q, k)
  final-Ready cwd (some m) es q k = (cwd, q, k)

  waited-Holds :
      (r : Result LaunchError (Unit {0}) × Owned) (fs : List Step) (m : Option Mitm)
      → Holds w redact (λ _ o'. Knows fs m o') r
      → Holds w redact (λ _ o'. Unit {0}) (then_with (λ _. waited w) r)
  unfolding waited
  waited-Holds (err e, o) fs m h = h
  waited-Holds (ok a, o) fs m (g, k) = (g, tt)

  spawn_and_wait-Holds :
      (cwd : FilePath) (m : Option Mitm) (o : Owned)
      → w.current_dir ≡ some cwd
      → Guarded w redact o.trace
      → Knows (final_steps cwd m) (joined m) o
      → Holds w redact (λ _ o'. Unit {0}) (spawn_and_wait w (joined m) o)
  unfolding spawn_and_wait
  spawn_and_wait-Holds cwd none o q g k =
      waited-Holds (call w (spawn false) o) (spawn false ∷ final_steps cwd none) none (
        call-Holds w redact (spawn false) (final_steps cwd none) none o
          (final-Ready cwd none o.trace q k.0) g k)
  spawn_and_wait-Holds cwd (some m) o q g k =
      waited-Holds (call w (spawn true) o) (spawn true ∷ final_steps cwd (some m)) (joined (some m))
        (call-Holds w redact (spawn true) (final_steps cwd (some m)) (joined (some m)) o
          (final-Ready cwd (some m) o.trace q k.0) g k)

  run_in-Holds :
      (cwd : FilePath) (m : Option Mitm) (o : Owned)
      → w.current_dir ≡ some cwd
      → Guarded w redact o.trace
      → Knows (make_private ∷ []) m o
      → Holds w redact (λ _ o'. Unit {0}) (run_in w redact cwd o)
  unfolding run_in
  run_in-Holds cwd m o q g k =
      let dirs = overlay_targets cwd w.home in
      let fs = mounts redact dirs (make_private ∷ []) in
      then_with-Holds w redact (λ _ o'. Knows fs m o') _ (mount_all w redact dirs o) _
        (mount_all-Holds w redact dirs (make_private ∷ []) m o g k)
        (λ _ o1 g1 k1.
          then_with-Holds w redact (λ _ o'. Knows (stack_steps m fs) (joined m) o') _
            (start_stack w o1.mitm o1) _ (simp k1.1 (start_stack-Holds fs m o1 g1 k1))
            (λ _ o2 g2 k2.
              then_with-Holds w redact (λ _ o'. Knows (stack_steps m fs) (joined m) o') _
                (bind_store w o2.mitm o2) _
                (simp k2.1 (bind_store-Holds (stack_steps m fs) (joined m) o2 g2 k2))
                (λ _ o3 g3 k3.
                  step-Holds w redact _ (enter_dir cwd) (stack_steps m fs) (joined m) o3 _ tt g3 k3
                    (λ o4 g4 k4.
                      then_with-Holds w redact (λ _ o'. Knows (final_steps cwd m) (joined m) o') _
                        (run_proxy w o4.mitm o4) _
                        (simp k4.1 (proxied-Holds (enter_dir cwd ∷ stack_steps m fs) m o4 g4 k4))
                        (λ _ o5 g5 k5. simp k5.1 (spawn_and_wait-Holds cwd m o5 q g5 k5))))))

  current_dir-Holds :
      (a : Option FilePath) (m : Option Mitm) (o : Owned)
      → w.current_dir ≡ a
      → Guarded w redact o.trace
      → Knows (make_private ∷ []) m o
      → Holds w redact
          (λ cwd o'. (w.current_dir ≡ some cwd) × Knows (make_private ∷ []) m o')
          (current_dir w a o)
  unfolding current_dir
  current_dir-Holds none m o q g k = g
  current_dir-Holds (some cwd) m o q g k = (g, (q, k))

  run_body-Holds :
      (requested : Bool) (o : Owned)
      → Guarded w redact o.trace
      → Knows [] none o
      → Holds w redact (λ _ o'. Unit {0}) (run_body w requested redact o)
  unfolding run_body
  run_body-Holds requested o g k =
      then_with-Holds w redact (λ _ o'. (m : Option Mitm) × Knows [] m o') _
        (set_up_mitm w requested o) _ (set_up_mitm-Holds w redact requested o g k)
        (λ _ o1 g1 (m, k1).
          then_with-Holds w redact (λ _ o'. Knows [] m o') _ (enter_namespaces w o1) _
            (enter_namespaces-Holds w redact m o1 g1 k1)
            (λ _ o2 g2 k2. step-Holds w redact _ make_private [] m o2 _ tt g2 k2 (λ o3 g3 k3.
              then_with-Holds w redact
                (λ cwd o'. (w.current_dir ≡ some cwd) × Knows (make_private ∷ []) m o') _
                (current_dir w w.current_dir o3) _ (current_dir-Holds w.current_dir m o3 refl g3 k3)
                (λ cwd o4 g4 (q, k4). run_in-Holds cwd m o4 q g4 k4))))

  drop_sessions-Guarded :
      (dirs : List FilePath) (es : List Event)
      → Guarded w redact es
      → Guarded w redact (drop_sessions w dirs es)
  unfolding drop_sessions
  drop_sessions-Guarded [] es g = g
  drop_sessions-Guarded (dir ∷ dirs) es g =
      drop_sessions-Guarded dirs ((unmount dir, w.answer es (unmount dir)) ∷ es) (tt, g)

  drop_mitm-Guarded :
      (m : Option Mitm) (es : List Event)
      → Guarded w redact es
      → Guarded w redact (drop_mitm w m es)
  unfolding drop_mitm
  drop_mitm-Guarded none es g = g
  drop_mitm-Guarded (some m) es g = (tt, g)

  Holds-Guarded :
      {A : Type 0} (Q : A → Owned → Type 0) (r : Result LaunchError A × Owned)
      → Holds w redact Q r
      → Guarded w redact r.1.trace
  Holds-Guarded Q (ok a, o) (g, q) = g
  Holds-Guarded Q (err e, o) g = g

  -- Whatever comes of the steps, a run starts the child only behind these, in this order, each of
  -- which has succeeded: the mounts were made private, every target of the working directory and the
  -- home was overlaid, with redaction as the profile says, and then the working directory was entered
  -- again, through the overlay; for a child that joins the network namespace, the stack was started
  -- before that and the proxy behind it.
  pub run-Guarded : (requested : Bool) → Guarded w redact (run w requested redact).1
  unfolding run dropped
  run-Guarded requested =
      let start : Owned = record { trace = []; sessions = []; mitm = none } in
      let r = run_body w requested redact start in
      drop_mitm-Guarded r.1.mitm (drop_sessions w r.1.sessions r.1.trace) (
        drop_sessions-Guarded r.1.sessions r.1.trace
          (Holds-Guarded (λ _ o'. Unit {0}) r (run_body-Holds requested start tt (tt, refl))))
