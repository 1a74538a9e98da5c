-- ===== src/Mitm/Netns/Start.antt =====
-- src/mitm.rs: `start_netstack`, `start_proxy` and `child_setup_hook`.
use airgap.Prelude.{
  ℕ, Bool, false, List, [], ◌∷◌, Option, none, some, if◌then◌else◌, Bytes, Result, ok, err,
  contains, nat_eq,
}
use airgap.Mitm.Netns.{
  unshare_mounts, bind_resolv, setns, NetError, Thread, Net, Action, ◌>>◌, call, attempt,
}
use airgap.Mitm.Netns.Netstack.{netstack_thread}

pub data StartError : Type 0 where
  spawning : ℕ → StartError
  network : NetError → StartError
  exited_early no_netns nul_byte : StartError

-- `Mitm`: whether it still has the two ends of the channel of connections, the namespace of the
-- child, and where its `resolv.conf` is.
pub record Mitm : Type 0 where
  pub new_conn_tx : Bool
  pub new_conn_rx : Bool
  pub netns_fd : Option ℕ
  pub resolv_path : Bytes

abbrev pub fresh : Thread
fresh = record { trace = []; signals = []; running = [] }

-- `ready_rx.recv()`: what was signalled first, if the thread did not end without a signal.
unfoldable pub first_signal : List (Result NetError ℕ) → Option (Result NetError ℕ)
first_signal [] = none
first_signal (s ∷ []) = some s
first_signal (s ∷ t ∷ signals) = first_signal (t ∷ signals)

unfoldable pub stashed : Mitm → Option (Result NetError ℕ) → Result StartError (Unit {0}) × Mitm
stashed m none = (err StartError.exited_early, m)
stashed m (some (err e)) = (err (StartError.network e), m)
stashed m (some (ok fd)) = (ok tt, record m { netns_fd = some fd })

-- `spawned` is the error of the thread's creation, if it has one. `none` is a panic.
unfoldable pub start_netstack : Net → Option ℕ → Mitm → Option (Result StartError (Unit {0}) × Mitm)
unfolding netstack_thread first_signal stashed
start_netstack net spawned m =
    if m.new_conn_tx
    then (let m' : Mitm = record m { new_conn_tx = false } in
        elim spawned [
          | some e ↦ some (err (StartError.spawning e), m')
          | none ↦ some (stashed m' (first_signal (netstack_thread net fresh).signals))
        ])
    else none

-- The thread that is created handles the connections.
unfoldable pub start_proxy : Option ℕ → Mitm → Option (Result StartError (Unit {0}) × Mitm)
start_proxy spawned m =
    if m.new_conn_rx
    then (let m' : Mitm = record m { new_conn_rx = false } in
        elim spawned [ some e ↦ some (err (StartError.spawning e), m') | none ↦ some (ok tt, m') ])
    else none

-- What the closure holds: the namespace, and the path of the `resolv.conf`.
unfoldable pub child_setup_hook : Mitm → Result StartError (ℕ × Bytes)
child_setup_hook m = elim m.netns_fd [
  | none ↦ err StartError.no_netns
  | some fd ↦ if contains m.resolv_path 0 then err StartError.nul_byte else ok (fd, m.resolv_path)
]

-- The closure, in the child.
unfoldable pub hook : Net → ℕ × Bytes → Action (Unit {0})
unfolding call attempt
hook child (fd, resolv_src) =
    call child (setns fd) >> call child unshare_mounts >> attempt child (bind_resolv resolv_src)
