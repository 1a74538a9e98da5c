-- ===== src/Launch/Spawned.antt =====
-- src/main.rs: the parts of a run before the child start none.
use airgap.Prelude.{
  ℕ, refl, inl, inr, Bool, true, false, List, [], ◌∷◌, ◌++◌, Option, none, some, Bool-cases, Result,
  ok, err, codes, ◌==◌, nat_eq,
}
use airgap.Std.FilePath.{FilePath}
use airgap.Launch.{
  Step, load_config, build_minter, build_upstream_config, create_private_dir, write_private_file,
  unshare, write_proc, open_root, mount_overlay, LaunchError, World, Mitm, Owned, eperm,
}
use airgap.Launch.Steps.{
  answer_of, call, setup, kept, set_up_mitm, map_ids_to_self, plain_namespace, user_namespace,
  enter_namespaces, push_session, mount_all,
}
use airgap.Launch.Order.{
  mounts, Guarded, Knows, Holds, then_with-Holds, answer_of-Holds, call-Holds, step-Holds,
  quiet-Holds, last-Holds,
}

module _ (w : World) (redact : Bool) where
  setup-Holds :
      (o : Owned)
      → Guarded w redact o.trace
      → Knows [] none o
      → Holds w redact (λ m o'. Knows [] none o') (setup w o)
  unfolding setup
  setup-Holds o g k = quiet-Holds w redact _ load_config [] none o _ tt g k (λ o1 g1 k1.
      quiet-Holds w redact _ build_minter [] none o1 _ tt g1 k1 (λ o2 g2 k2.
        quiet-Holds w redact _ build_upstream_config [] none o2 _ tt g2 k2 (λ o3 g3 k3.
          quiet-Holds w redact _ create_private_dir [] none o3 _ tt g3 k3 (λ o4 g4 k4.
            quiet-Holds w redact _ (write_private_file _ _) [] none o4 _ tt g4 k4 (λ o5 g5 k5.
              quiet-Holds w redact _ (write_private_file _ _) [] none o5 _ tt g5 k5 (λ o6 g6 k6.
                quiet-Holds w redact _ (write_private_file _ _) [] none o6 _ tt g6 k6
                  (λ o7 g7 k7. (g7, k7))))))))

  kept-Holds :
      (r : Result LaunchError Mitm × Owned)
      → Holds w redact (λ m o'. Knows [] none o') r
      → Holds w redact (λ _ o'. (m : Option Mitm) × Knows [] m o') (kept w r)
  unfolding kept
  kept-Holds (ok m, o) (g, k) = (g, (some m, (tt, refl)))
  kept-Holds (err e, o) g = (g, (o.mitm, (tt, refl)))

  pub set_up_mitm-Holds :
      (requested : Bool) (o : Owned)
      → Guarded w redact o.trace
      → Knows [] none o
      → Holds w redact (λ _ o'. (m : Option Mitm) × Knows [] m o') (set_up_mitm w requested o)
  unfolding set_up_mitm
  set_up_mitm-Holds false o g k = (g, (none, k))
  set_up_mitm-Holds true o g k = kept-Holds (setup w o) (setup-Holds o g k)

  map_ids_to_self-Holds :
      (m : Option Mitm) (o : Owned)
      → Guarded w redact o.trace
      → Knows [] m o
      → Holds w redact (λ _ o'. Knows [] m o') (map_ids_to_self w o)
  unfolding map_ids_to_self
  map_ids_to_self-Holds m o g k =
      quiet-Holds w redact _ (write_proc _ _) [] m o _ tt g k (λ o1 g1 k1.
        quiet-Holds w redact _ (write_proc _ _) [] m o1 _ tt g1 k1 (λ o2 g2 k2.
          let step =
            write_proc (codes "/proc/self/gid_map")
              (w.gid ++ (codes " " ++ (w.gid ++ codes " 1"))) in
          last-Holds w redact (call w step o2) step [] m
            (call-Holds w redact step [] m o2 tt g2 k2)))

  plain_namespace-Holds :
      (a : Option ℕ) (m : Option Mitm) (o : Owned)
      → Guarded w redact o.trace
      → Knows [] m o
      → Holds w redact (λ _ o'. Knows [] m o') (plain_namespace w a o)
  unfolding plain_namespace
  plain_namespace-Holds none m o g k = (g, k)
  plain_namespace-Holds (some e) m o g k = elim (Bool-cases (e == eperm)) [
    | inl q ↦ rw q g
    | inr q ↦ rw q g
  ]

  user_namespace-Holds :
      (a : Option ℕ) (m : Option Mitm) (o : Owned)
      → Guarded w redact o.trace
      → Knows [] m o
      → Holds w redact (λ _ o'. Knows [] m o') (user_namespace w a o)
  unfolding user_namespace
  user_namespace-Holds none m o g k = map_ids_to_self-Holds m o g k
  user_namespace-Holds (some e) m o g k = elim (Bool-cases (e == eperm)) [
    | inl q ↦ rw q (
        then_with-Holds w redact (λ _ o'. Knows [] m o') (λ _ o'. Knows [] m o')
          (answer_of w (unshare false) o) (plain_namespace w)
          (answer_of-Holds w redact (unshare false) [] m o tt g k)
          (λ a o' g' k'. plain_namespace-Holds a m o' g' k'))
    | inr q ↦ rw q g
  ]

  pub enter_namespaces-Holds :
      (m : Option Mitm) (o : Owned)
      → Guarded w redact o.trace
      → Knows [] m o
      → Holds w redact (λ _ o'. Knows [] m o') (enter_namespaces w o)
  unfolding enter_namespaces
  enter_namespaces-Holds m o g k =
      then_with-Holds w redact (λ _ o'. Knows [] m o') (λ _ o'. Knows [] m o')
        (answer_of w (unshare true) o) (user_namespace w)
        (answer_of-Holds w redact (unshare true) [] m o tt g k)
        (λ a o' g' k'. user_namespace-Holds a m o' g' k')

  pub mount_all-Holds :
      (dirs : List FilePath) (fs : List Step) (m : Option Mitm) (o : Owned)
      → Guarded w redact o.trace
      → Knows fs m o
      → Holds w redact (λ _ o'. Knows (mounts redact dirs fs) m o') (mount_all w redact dirs o)
  unfolding mount_all push_session
  mount_all-Holds [] fs m o g k = (g, k)
  mount_all-Holds (dir ∷ dirs) fs m o g k =
      quiet-Holds w redact _ (open_root dir) fs m o _ tt g k (λ o1 g1 k1.
        step-Holds w redact _ (mount_overlay dir redact) fs m o1 _ tt g1 k1 (λ o2 g2 k2.
          mount_all-Holds dirs (mount_overlay dir redact ∷ fs) m
            (record o2 { sessions = o2.sessions ++ (dir ∷ []) }) g2 k2))
