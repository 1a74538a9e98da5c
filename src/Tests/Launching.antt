-- ===== src/Tests/Launching.antt =====
-- src/main.rs: a run with the interception in which every step succeeds, and one whose bind mount fails.
use airgap.Prelude.{ℕ, refl, All, true, Option, none, some, codes}
use airgap.Std.FilePath.{components}
use airgap.Launch.{Step, bind_bundle, World, exited}
use airgap.Launch.Running.{run}
use airgap.Launch.Order.{Guarded}
use airgap.Launch.Child.{run-Guarded}
use airgap.Launch.Owning.{mounted, Stuck}
use airgap.Launch.Unmounted.{mounted-run}
use airgap.Launch.Outcome.{Exits, run-Exits}

abbrev world : World
world = record {
  answer = λ es s. none;
  uid = codes "1000";
  gid = codes "1000";
  current_dir = some (components (codes "/home/u/work"));
  home = some (components (codes "/home/u"));
  ca_pem = codes "CERT";
  system_bundle = some (codes "ROOT");
  bundle_exists = true;
  status = λ es. exited 3;
}

fails : Step → Option ℕ
fails bind_bundle = some 1
fails _ = none

run-Guarded_example :
    Guarded
      (record world { answer = λ es s. fails s })
      true
      (run (record world { answer = λ es s. fails s }) true true).1
run-Guarded_example = run-Guarded (record world { answer = λ es s. fails s }) true true

mounted-run_example :
    All
      (Stuck (run (record world { answer = λ es s. fails s }) true true).1)
      (mounted (run (record world { answer = λ es s. fails s }) true true).1)
mounted-run_example = mounted-run (record world { answer = λ es s. fails s }) true true

run-Exits_example : Exits world (λ es s. refl) (run world true true)
run-Exits_example =
    run-Exits world (λ es s. refl) true true (components (codes "/home/u/work")) refl
