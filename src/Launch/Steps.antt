-- ===== src/Launch/Steps.antt =====
-- src/main.rs and src/mitm.rs: the parts of a run, up to the child.
use airgap.Prelude.{
  ℕ, ◌+◌, Bool, true, false, not, ◌&&◌, List, [], ◌∷◌, ◌++◌, Option, none, some, if◌then◌else◌,
  Bytes, codes, Result, ok, err, ◌==◌, nat_eq, list_eq,
}
use airgap.Std.Text.{ends_with}
use airgap.Std.FilePath.{FilePath}
use airgap.Launch.{
  eperm, Step, load_config, build_minter, build_upstream_config, create_private_dir,
  write_private_file, unshare, write_proc, open_root, mount_overlay, start_netstack, start_proxy,
  bind_bundle, spawn, LaunchError, errno, missing_privilege, no_current_dir, no_netns, ExitStatus,
  exited, signalled, unknown, World, Mitm, Owned, Launch, pure, fail, ◌>>=◌, ◌>>◌,
}

module _ (w : World) where
  -- The answer of a step, which goes into the trace.
  unfoldable pub answer_of : Step → Launch (Option ℕ)
  answer_of step o =
      let a = w.answer o.trace step in (ok a, record o { trace = (step, a) ∷ o.trace })

  unfoldable pub checked : Option ℕ → Launch (Unit {0})
  checked none = pure tt
  checked (some e) = fail (errno e)

  unfoldable pub call : Step → Launch (Unit {0})
  unfolding answer_of checked
  call step = answer_of step >>= checked

  -- The system's bundle with the ephemeral certificate behind it, on a line of its own.
  unfoldable pub augmented : Option Bytes → Bytes → Bytes
  unfolding ends_with
  augmented none ca = ca
  augmented (some bundle) ca =
      (if not (bundle == []) && not (ends_with bundle (codes "\n"))
        then bundle ++ codes "\n"
        else bundle)
      ++ ca

  -- `mitm::setup`.
  unfoldable pub setup : Launch Mitm
  unfolding call augmented
  setup = do
    call load_config
    call build_minter
    call build_upstream_config
    call create_private_dir
    call (write_private_file (codes "ca.pem") w.ca_pem)
    call (write_private_file (codes "ca-bundle.crt") (augmented w.system_bundle w.ca_pem))
    call (write_private_file (codes "resolv.conf") (codes "nameserver 10.0.0.1\n"))
    pure (record { netns = false })

  unfoldable pub kept : Result LaunchError Mitm × Owned → Result LaunchError (Unit {0}) × Owned
  kept (ok m, o) = (ok tt, record o { mitm = some m })
  kept (err e, o) = (ok tt, o)

  -- With `--mitm`; a failure is logged, and the run goes on without the interception.
  unfoldable pub set_up_mitm : (requested : Bool) → Launch (Unit {0})
  unfolding setup kept
  set_up_mitm false = pure tt
  set_up_mitm true = λ o. kept (setup o)

  unfoldable pub map_ids_to_self : Launch (Unit {0})
  unfolding call
  map_ids_to_self = do
    call (write_proc (codes "/proc/self/setgroups") (codes "deny"))
    call (write_proc (codes "/proc/self/uid_map") (w.uid ++ (codes " " ++ (w.uid ++ codes " 1"))))
    call (write_proc (codes "/proc/self/gid_map") (w.gid ++ (codes " " ++ (w.gid ++ codes " 1"))))

  unfoldable pub plain_namespace : Option ℕ → Launch (Unit {0})
  plain_namespace none = pure tt
  plain_namespace (some e) = if e == eperm then fail missing_privilege else fail (errno e)

  unfoldable pub user_namespace : Option ℕ → Launch (Unit {0})
  unfolding answer_of map_ids_to_self plain_namespace
  user_namespace none = map_ids_to_self
  user_namespace (some e) =
      if e == eperm then answer_of (unshare false) >>= plain_namespace else fail (errno e)

  unfoldable pub enter_namespaces : Launch (Unit {0})
  unfolding answer_of user_namespace
  enter_namespaces = answer_of (unshare true) >>= user_namespace

  unfoldable pub current_dir : Option FilePath → Launch FilePath
  current_dir none = fail no_current_dir
  current_dir (some cwd) = pure cwd

  unfoldable pub push_session : FilePath → Launch (Unit {0})
  push_session dir o = (ok tt, record o { sessions = o.sessions ++ (dir ∷ []) })

  unfoldable pub mount_all : Bool → List FilePath → Launch (Unit {0})
  unfolding call push_session
  mount_all redact [] = pure tt
  mount_all redact (dir ∷ dirs) = do
    call (open_root dir)
    call (mount_overlay dir redact)
    push_session dir
    mount_all redact dirs

  unfoldable pub start_stack : Option Mitm → Launch (Unit {0})
  unfolding call
  start_stack none = pure tt
  start_stack (some m) =
      call start_netstack >> (λ o. (ok tt, record o { mitm = some (record m { netns = true }) }))

  unfoldable pub bind_store : Option Mitm → Launch (Unit {0})
  unfolding call
  bind_store none = pure tt
  bind_store (some m) = if w.bundle_exists then call bind_bundle else pure tt

  unfoldable pub run_proxy : Option Mitm → Launch (Unit {0})
  unfolding call
  run_proxy none = pure tt
  run_proxy (some m) = call start_proxy

  unfoldable pub exit_code : ExitStatus → ℕ
  exit_code (exited code) = code
  exit_code (signalled signal) = 128 + signal
  exit_code unknown = 128

  unfoldable pub waited : Launch ℕ
  unfolding exit_code
  waited o = (ok (exit_code (w.status o.trace)), o)

  unfoldable pub spawn_and_wait : Option Mitm → Launch ℕ
  unfolding call waited
  spawn_and_wait none = call (spawn false) >> waited
  spawn_and_wait (some m) = if m.netns then call (spawn true) >> waited else fail no_netns
